-- ===== src/EventLog/Jsonl/RoundTrip.antt =====
-- A file of event lines is read as the events.
use iso26430_6_asm_prototype.Base.{
  ◌<◌, ◌≡◌, refl, true, some, List, [], ◌∷◌, ◌++◌, arith, All, IsU32, length, map, ok, Text, codes,
  text_eq,
}
use iso26430_6_asm_prototype.EventLog.Jsonl.{
  Calendar, since, severity_from_string, past_event_id, past_severity, past_timestamp, past_summary,
  event_pattern, parse_utc_timestamp, of_time, of_epoch, from_groups, parse_jsonl_line, open_log,
}
use iso26430_6_asm_prototype.EventLog.Xml.{
  EventSeverity, info, warning, error, EventRecord, severity_to_string,
}
use iso26430_6_asm_prototype.Streams.{not_quote, is_in, decimal}
use iso26430_6_asm_prototype.Streams.Decimal.{AllIn, decimal-digits}
use iso26430_6_asm_prototype.Streams.Parsing.{stoul_whole}
use iso26430_6_asm_prototype.Streams.Jsonl.Reading.{Reads, read_jsonl-Reads}
use iso26430_6_asm_prototype.Streams.Lines.{
  OneLine, joined, lines_of-joined, no_newline, no_newline-append, digits-OneLine,
}
use iso26430_6_asm_prototype.Streams.Regex.{some_of, any_of, match, allows}
use iso26430_6_asm_prototype.Streams.Regex.Exact.{match-group, match-decimal}

-- An event as a line of a log file, in the layout of fixtures/events.
unfoldable pub event_line : EventRecord → Text
event_line e =
    codes "{\"event_id\":"
    ++ (decimal e.event_id
        ++ (codes ",\"severity\":\""
            ++ (codes (severity_to_string e.severity)
                ++ (codes "\",\"timestamp\":\""
                    ++ (e.timestamp_text
                        ++ (codes "\",\"summary\":\"" ++ (e.summary ++ codes "\"}")))))))

severity-not_quote :
    (v : EventSeverity)
    → AllIn not_quote (codes (severity_to_string v))
      × (allows some_of (length (codes (severity_to_string v))) ≡ true)
unfolding severity_to_string is_in allows
severity-not_quote info = ((refl, (refl, (refl, (refl, tt)))), refl)
severity-not_quote warning = ((refl, (refl, (refl, (refl, (refl, (refl, (refl, tt))))))), refl)
severity-not_quote error = ((refl, (refl, (refl, (refl, (refl, tt))))), refl)

severity-OneLine : (v : EventSeverity) → OneLine (codes (severity_to_string v))
unfolding severity_to_string no_newline
severity-OneLine info = refl
severity-OneLine _ = refl

severity_from_string-severity_to_string :
    (v : EventSeverity) → severity_from_string (codes (severity_to_string v)) ≡ ok v
unfolding severity_from_string severity_to_string text_eq
severity_from_string-severity_to_string info = refl
severity_from_string-severity_to_string _ = refl

module _ {Tm : Type 0} (calendar : Calendar Tm) where
  -- The id has 32 bits, no text holds a quote or a newline, and the timestamp is the text of the time.
  pub record IsLoggable (e : EventRecord) : Type 0 where
    pub id_fits : IsU32 e.event_id
    pub time_fits : IsU32 e.timestamp_epoch
    pub summary_plain : AllIn not_quote e.summary × OneLine e.summary
    pub timestamp_plain : AllIn not_quote e.timestamp_text × OneLine e.timestamp_text
    pub timestamp_some : 0 < length e.timestamp_text
    pub time : Tm
    pub read : calendar.get_time e.timestamp_text ≡ some time
    pub converted : calendar.timegm time ≡ since e.timestamp_epoch

  match-event_line :
      (e : EventRecord)
      → IsLoggable e
      → match event_pattern (event_line e)
        ≡ some (
            decimal e.event_id
            ∷ codes (severity_to_string e.severity)
            ∷ e.timestamp_text
            ∷ e.summary
            ∷ [])
  unfolding match event_line is_in allows
  match-event_line e h = match-decimal past_event_id e.event_id _ _ refl (
      match-group not_quote some_of past_severity (codes (severity_to_string e.severity)) _ _
        (severity-not_quote e.severity).0 refl (severity-not_quote e.severity).1
        (match-group not_quote some_of past_timestamp e.timestamp_text _ _ h.timestamp_plain.0 refl
          (ground (arith, h.timestamp_some))
          (match-group not_quote any_of past_summary e.summary (codes "\"}") [] h.summary_plain.0
            refl refl refl)))

  parse_jsonl_line-event_line :
      (e : EventRecord) → IsLoggable e → parse_jsonl_line calendar (event_line e) ≡ ok e
  unfolding parse_jsonl_line from_groups parse_utc_timestamp of_time of_epoch
  parse_jsonl_line-event_line e h =
      rw
        (
          match-event_line e h,
          stoul_whole "stoul" e.event_id (omega (arith, h.id_fits)),
          severity_from_string-severity_to_string e.severity,
          h.read,
          h.converted,
        )
        (ground (arith, h.id_fits, h.time_fits))

  event_line-OneLine : (e : EventRecord) → IsLoggable e → OneLine (event_line e)
  unfolding event_line no_newline
  event_line-OneLine e h =
      rw
        (
          no_newline-append (decimal e.event_id) _,
          digits-OneLine (decimal e.event_id) (decimal-digits e.event_id),
          no_newline-append (codes (severity_to_string e.severity)) _,
          severity-OneLine e.severity,
          no_newline-append e.timestamp_text _,
          h.timestamp_plain.1,
          no_newline-append e.summary _,
          h.summary_plain.1,
        )
        refl

  lines-OneLine :
      (events : List EventRecord) → All IsLoggable events → All OneLine (map event_line events)
  lines-OneLine [] h = tt
  lines-OneLine (e ∷ events) (he, h) = (event_line-OneLine e he, lines-OneLine events h)

  lines-Reads :
      (events : List EventRecord)
      → All IsLoggable events
      → Reads (parse_jsonl_line calendar) (map event_line events) events
  unfolding Reads event_line
  lines-Reads [] h = refl
  lines-Reads (e ∷ events) (he, h) =
      (e, events, refl, parse_jsonl_line-event_line e he, lines-Reads events h)

  -- A log file whose lines are events is read as those events, in order. The ids and times have 32 bits,
  -- the texts have no quotes and no newlines, and each timestamp is one that the calendar reads as the
  -- event's time.
  pub open_log-event_lines :
      (events : List EventRecord)
      → All IsLoggable events
      → open_log calendar (some (joined (map event_line events))) ≡ ok events
  unfolding open_log
  open_log-event_lines events h =
      read_jsonl-Reads "failed to parse event JSONL line " (parse_jsonl_line calendar)
        (joined (map event_line events)) events
        (rw (lines_of-joined (map event_line events) (lines-OneLine events h))
          (lines-Reads events h))
