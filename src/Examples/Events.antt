-- ===== src/Examples/Events.antt =====
-- Event payloads, XML texts and the event log.
use iso26430_6_asm_prototype.Base.{ℕ, ◌≡◌, refl, true, ok, [], ◌∷◌, arith, codes}
use iso26430_6_asm_prototype.Common.{ByteBuffer}
use iso26430_6_asm_prototype.EventLog.{list_event_ids, get_event_xml, default_events}
use iso26430_6_asm_prototype.EventLog.Lookup.{is_listed, is_some, get_event_xml_iff}
use iso26430_6_asm_prototype.EventLog.Xml.{
  error, EventRecord, severity_to_string, escape_char, escape_xml, render_event_xml,
}
use iso26430_6_asm_prototype.EventLog.Xml.Reading.{read_event, read_event-render_event_xml}

abbrev window : ByteBuffer
window = 0 ∷ 0 ∷ 1 ∷ 0 ∷ 0 ∷ 0 ∷ 2 ∷ 1 ∷ []

abbrev ids : ByteBuffer
ids = 0 ∷ 0 ∷ 0 ∷ 1 ∷ 0 ∷ 0 ∷ 0 ∷ 4 ∷ 0 ∷ 0 ∷ 3 ∷ 233 ∷ []

escaped : escape_xml (codes "a<b & 'c'") ≡ codes "a&lt;b &amp; &apos;c&apos;"
unfolding escape_xml escape_char
escaped = refl

abbrev alert : EventRecord
alert = record {
  event_id = 1004;
  severity = error;
  timestamp_epoch = 1776759300;
  timestamp_text = codes "2026-04-21T08:15:00Z";
  summary = codes "<Summary> & more";
}

read_event-render_event_xml_example :
    read_event (render_event_xml alert)
    ≡ ok (record {
      event_id = 1004;
      timestamp = codes "2026-04-21T08:15:00Z";
      severity = codes "error";
      summary = codes "<Summary> & more";
    })
unfolding severity_to_string
read_event-render_event_xml_example = read_event-render_event_xml alert (omega arith)

second_and_third : list_event_ids default_events 1776758700 1776759000 ≡ 1002 ∷ 1003 ∷ []
unfolding list_event_ids default_events
second_and_third = refl

get_event_xml_iff_example :
    ((time_start time_stop : ℕ)
      → is_listed 1002 (list_event_ids default_events time_start time_stop) ≡ true
      → is_some (get_event_xml default_events 1002) ≡ true)
    × (is_some (get_event_xml default_events 1002) ≡ true
        → (t : ℕ) × (is_listed 1002 (list_event_ids default_events t t) ≡ true))
get_event_xml_iff_example = get_event_xml_iff default_events 1002
