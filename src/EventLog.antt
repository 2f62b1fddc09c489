-- ===== src/EventLog.antt =====
-- include/asm/event_log.hpp and src/asm/event_log.cpp: event records, the in-memory provider, and the
-- interface that the service has to an event log.
pub mod Xml
pub mod Payload
pub mod Lookup
pub mod Jsonl
use iso26430_6_asm_prototype.Base.{
  ℕ, ◌&&◌, Option, none, some, List, [], ◌∷◌, leb, ◌==◌, if◌then◌else◌, Text, codes,
}
use Xml.{EventSeverity, info, warning, error, EventRecord, render_event_xml}

-- The virtual functions, of a log that does not change.
pub record EventLogStore : Type 0 where
  pub list_event_ids : ℕ → ℕ → List ℕ
  pub get_event_xml : ℕ → Option Text

unfoldable pub list_event_ids : List EventRecord → ℕ → ℕ → List ℕ
list_event_ids [] time_start time_stop = []
list_event_ids (event ∷ events) time_start time_stop =
    let ids = list_event_ids events time_start time_stop in
    if leb time_start event.timestamp_epoch && leb event.timestamp_epoch time_stop
    then event.event_id ∷ ids
    else ids

unfoldable pub get_event_xml : List EventRecord → ℕ → Option Text
get_event_xml [] event_id = none
get_event_xml (event ∷ events) event_id =
    if event.event_id == event_id
    then some (render_event_xml event)
    else get_event_xml events event_id

-- The provider behind the interface, over its vector `events_`.
abbrev pub in_memory : List EventRecord → EventLogStore
in_memory events = record {
  list_event_ids = list_event_ids events;
  get_event_xml = get_event_xml events;
}

-- The events of a default `InMemoryEventLogProvider`.
unfoldable pub default_events : List EventRecord
default_events =
    record {
      event_id = 1001;
      severity = info;
      timestamp_epoch = 1776758400;
      timestamp_text = codes "2026-04-21T08:00:00Z";
      summary = codes "Responder started";
    }
    ∷ record {
      event_id = 1002;
      severity = warning;
      timestamp_epoch = 1776758700;
      timestamp_text = codes "2026-04-21T08:05:00Z";
      summary = codes "TLS profile uses development CA";
    }
    ∷ record {
      event_id = 1003;
      severity = error;
      timestamp_epoch = 1776759000;
      timestamp_text = codes "2026-04-21T08:10:00Z";
      summary = codes "Link encryption material not loaded";
    }
    ∷ []
