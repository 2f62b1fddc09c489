-- ===== src/EventLog/Xml/Reading.antt =====
-- A reader of the XML text gets the fields back, so no field can be taken for markup or for a part of
-- another field.
use iso26430_6_asm_prototype.Base.{
  ℕ, ◌≡◌, ◌≢◌, refl, [], ◌∷◌, ◌++◌, arith, All, IsU32, ◌==◌, if◌then◌else◌, Text, codes, ◌>>=◌,
  Result, ok, err, Bool, true, ◌&&◌,
}
use iso26430_6_asm_prototype.EventLog.Xml.{
  EventRecord, severity_to_string, escape_xml, render_event_xml,
}
use iso26430_6_asm_prototype.EventLog.Xml.Escape.{unescape, IsPlain, unescape-escape_xml}
use iso26430_6_asm_prototype.Streams.{digit, is_in, number, decimal}
use iso26430_6_asm_prototype.Streams.Decimal.{AllIn, number-decimal, decimal-digits}

-- The text up to the next `<`, and the text from there on.
before_tag : Text → Text
before_tag [] = []
before_tag (c ∷ s) = let rest = before_tag s in if c == b'<' then [] else c ∷ rest

from_tag : Text → Text
from_tag [] = []
from_tag (c ∷ s) = let rest = from_tag s in if c == b'<' then c ∷ s else rest

-- The text behind the tags, if they stand there.
skip : Text → Text → Result Text
skip [] s = ok s
skip (t ∷ tags) [] = err "a tag is missing"
skip (t ∷ tags) (c ∷ s) =
    let rest = skip tags s in if t == c then rest else err "another tag is expected"

all_digits : Text → Bool
all_digits [] = true
all_digits (c ∷ s) = is_in digit c && all_digits s

read_id : Text → Result ℕ
unfolding all_digits number
read_id s = if all_digits s then ok (number 10 0 s) else err "an id is a number"

at_end : Text → Result (Unit {0})
at_end [] = ok tt
at_end (c ∷ s) = err "text behind the record"

pub record Fields : Type 0 where
  pub event_id : ℕ
  pub timestamp : Text
  pub severity : Text
  pub summary : Text

-- A reader of one record: other tags, other entities, and anything behind the record are refused.
pub read_event : Text → Result Fields
unfolding before_tag from_tag skip read_id at_end
read_event xml = do
  in_id ← skip (codes "<LogRecord><EventID>") xml
  event_id ← read_id (before_tag in_id)
  in_time ← skip (codes "</EventID><Timestamp>") (from_tag in_id)
  timestamp ← unescape (before_tag in_time)
  in_severity ← skip (codes "</Timestamp><Severity>") (from_tag in_time)
  severity ← unescape (before_tag in_severity)
  in_summary ← skip (codes "</Severity><Summary>") (from_tag in_severity)
  summary ← unescape (before_tag in_summary)
  behind ← skip (codes "</Summary></LogRecord>") (from_tag in_summary)
  _ ← at_end behind
  ok (record { event_id = event_id; timestamp = timestamp; severity = severity; summary = summary })

NoTag : ℕ → Type 0
NoTag c = c ≢ b'<'

before_tag-append : (s rest : Text) → All NoTag s → before_tag (s ++ (b'<' ∷ rest)) ≡ s
unfolding before_tag NoTag
before_tag-append [] rest h = refl
before_tag-append (c ∷ s) rest (hc, h) = ground (arith, before_tag-append s rest h)

from_tag-append : (s rest : Text) → All NoTag s → from_tag (s ++ (b'<' ∷ rest)) ≡ b'<' ∷ rest
unfolding from_tag NoTag
from_tag-append [] rest h = refl
from_tag-append (c ∷ s) rest (hc, h) = ground (arith, from_tag-append s rest h)

digits-NoTag : (s : Text) → AllIn digit s → All NoTag s
unfolding NoTag is_in
digits-NoTag [] h = tt
digits-NoTag (c ∷ s) (hc, h) = (ground arith, digits-NoTag s h)

plain-NoTag : (s : Text) → All IsPlain s → All NoTag s
unfolding NoTag
plain-NoTag [] h = tt
plain-NoTag (c ∷ s) (hc, h) = (hc.0, plain-NoTag s h)

escaped-NoTag : (s : Text) → All NoTag (escape_xml s)
escaped-NoTag s = plain-NoTag (escape_xml s) (unescape-escape_xml s).0

digits-all_digits : (s : Text) → AllIn digit s → all_digits s ≡ true
unfolding all_digits
digits-all_digits [] h = refl
digits-all_digits (c ∷ s) (hc, h) = rw (hc, digits-all_digits s h) refl

read_id-decimal : (n : ℕ) → IsU32 n → read_id (decimal n) ≡ ok n
unfolding read_id
read_id-decimal n h =
    rw (digits-all_digits _ (decimal-digits n), number-decimal n (omega (arith, h))) refl

-- A reader that takes the five entities and no other, and refuses other tags, reads the XML of an event:
-- whatever the texts of the event hold, it gets the id, if that has 32 bits, the two texts and the
-- severity's name.
pub read_event-render_event_xml :
    (e : EventRecord)
    → IsU32 e.event_id
    → read_event (render_event_xml e)
      ≡ ok (record {
        event_id = e.event_id;
        timestamp = e.timestamp_text;
        severity = codes (severity_to_string e.severity);
        summary = e.summary;
      })
unfolding read_event render_event_xml
read_event-render_event_xml e h =
    let severity = codes (severity_to_string e.severity) in
    rw
      (
        before_tag-append (decimal e.event_id) _ (digits-NoTag _ (decimal-digits e.event_id)),
        from_tag-append (decimal e.event_id) _ (digits-NoTag _ (decimal-digits e.event_id)),
        read_id-decimal e.event_id h,
        before_tag-append (escape_xml e.timestamp_text) _ (escaped-NoTag e.timestamp_text),
        from_tag-append (escape_xml e.timestamp_text) _ (escaped-NoTag e.timestamp_text),
        (unescape-escape_xml e.timestamp_text).1,
        before_tag-append (escape_xml severity) _ (escaped-NoTag severity),
        from_tag-append (escape_xml severity) _ (escaped-NoTag severity),
        (unescape-escape_xml severity).1,
        before_tag-append (escape_xml e.summary) _ (escaped-NoTag e.summary),
        from_tag-append (escape_xml e.summary) _ (escaped-NoTag e.summary),
        (unescape-escape_xml e.summary).1,
      )
      refl
