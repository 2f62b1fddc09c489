-- ===== src/EventLog/Jsonl.antt =====
-- JsonlEventLogProvider of src/asm/event_log.cpp. `std::get_time` and `timegm` are parameters: the first
-- gives a broken-down time or fails, the second gives seconds before or since the epoch.
pub mod RoundTrip
use iso26430_6_asm_prototype.Base.{
  ℕ, Option, none, some, List, [], ◌∷◌, ◌++◌, Result, ok, err, ◌>>=◌, u32, if◌then◌else◌, Text,
  text_eq, codes,
}
use iso26430_6_asm_prototype.EventLog.{EventLogStore, in_memory}
use iso26430_6_asm_prototype.EventLog.Xml.{EventSeverity, info, warning, error, EventRecord}
use iso26430_6_asm_prototype.Streams.{ten, digit, not_quote, stoul}
use iso26430_6_asm_prototype.Streams.Jsonl.{read_jsonl}
use iso26430_6_asm_prototype.Streams.Regex.{
  Pattern, lit, blanks, group, some_of, any_of, member, match,
}

pub data Epoch : Type 0 where
  before since : ℕ → Epoch

pub record Calendar (Tm : Type 0) : Type 0 where
  pub get_time : Text → Option Tm
  pub timegm : Tm → Epoch

unfoldable pub severity_from_string : Text → Result EventSeverity
severity_from_string value =
    if text_eq value (codes "info")
    then ok info
    else if text_eq value (codes "warning")
    then ok warning
    else if text_eq value (codes "error")
    then ok error
    else err "unsupported event severity in JSONL"

-- The pattern, with the parts of it behind each group.
abbrev pub past_summary : Pattern
past_summary = lit b'"' ∷ blanks ∷ lit b'}' ∷ blanks ∷ []

abbrev pub past_timestamp : Pattern
past_timestamp =
    lit b'"'
    ∷ blanks
    ∷ lit b','
    ∷ (member "summary" ++ (blanks ∷ lit b'"' ∷ group not_quote any_of ∷ past_summary))

abbrev pub past_severity : Pattern
past_severity =
    lit b'"'
    ∷ blanks
    ∷ lit b','
    ∷ (member "timestamp" ++ (blanks ∷ lit b'"' ∷ group not_quote some_of ∷ past_timestamp))

abbrev pub past_event_id : Pattern
past_event_id =
    blanks
    ∷ lit b','
    ∷ (member "severity" ++ (blanks ∷ lit b'"' ∷ group not_quote some_of ∷ past_severity))

abbrev pub event_pattern : Pattern
event_pattern =
    blanks ∷ lit b'{' ∷ (member "event_id" ++ (blanks ∷ group digit some_of ∷ past_event_id))

of_epoch : Epoch → Result ℕ
of_epoch (before n) = err "timestamp conversion failed"
of_epoch (since n) = ok (u32 n)

module _ {Tm : Type 0} (calendar : Calendar Tm) where
  of_time : Option Tm → Result ℕ
  of_time none = err "invalid timestamp format in event log"
  of_time (some tm) = of_epoch (calendar.timegm tm)

  unfoldable pub parse_utc_timestamp : Text → Result ℕ
  unfolding of_time of_epoch
  parse_utc_timestamp text = of_time (calendar.get_time text)

  -- The record of the four groups that the pattern has.
  from_groups : Option (List Text) → Result EventRecord
  from_groups (some (event_id ∷ severity ∷ timestamp ∷ summary ∷ [])) = do
    id ← stoul ten event_id
    level ← severity_from_string severity
    epoch ← parse_utc_timestamp timestamp
    ok (record {
      event_id = u32 id;
      severity = level;
      timestamp_epoch = epoch;
      timestamp_text = timestamp;
      summary = summary;
    })
  from_groups _ = err "invalid event JSONL line format"

  unfoldable pub parse_jsonl_line : Text → Result EventRecord
  unfolding from_groups
  parse_jsonl_line line = from_groups (match event_pattern line)

  -- The constructor, for what the file holds, or for a file that does not open.
  unfoldable pub open_log : Option Text → Result (List EventRecord)
  open_log none = err "failed to open JSONL event log file"
  open_log (some text) = read_jsonl "failed to parse event JSONL line " parse_jsonl_line text

-- The two functions of the provider are those of the in-memory one, over the events that were read.
abbrev pub jsonl : List EventRecord → EventLogStore
jsonl events = in_memory events
