-- ===== src/Examples/Files.antt =====
-- Stores over files.
use iso26430_6_asm_prototype.Base.{
  ℕ, ◌≡◌, ◌⊎◌, refl, List, [], ◌∷◌, ◌++◌, arith, some, Bool, true, false, ◌&&◌, ok, err, Text,
  codes, String,
}
use iso26430_6_asm_prototype.Common.{StandardRequest, le_key_load}
use iso26430_6_asm_prototype.EventLog
use iso26430_6_asm_prototype.EventLog.{EventLogStore, default_events}
use iso26430_6_asm_prototype.EventLog.Jsonl.{Calendar, since, open_log}
use iso26430_6_asm_prototype.EventLog.Jsonl.RoundTrip.{event_line, open_log-event_lines}
use iso26430_6_asm_prototype.EventLog.Xml.{EventRecord, warning}
use iso26430_6_asm_prototype.LeKey.{LeKeyRecord}
use iso26430_6_asm_prototype.LeKey.Jsonl.{parse_jsonl_line, key_line}
use iso26430_6_asm_prototype.LeKey.Jsonl.RoundTrip.{parse_jsonl_line_cuts}
use iso26430_6_asm_prototype.LeKey.Jsonl.Store.{Disk, JsonlLeKeyStore, open_store}
use iso26430_6_asm_prototype.LeKey.Jsonl.Saved.{IsWorking, IsKept}
use iso26430_6_asm_prototype.LeKey.Store.{put_all, would_overflow}
use iso26430_6_asm_prototype.Service.{handle_request}
use iso26430_6_asm_prototype.Service.KeyCommands.{in_memory_service, load_request}
use iso26430_6_asm_prototype.Service.Persistence.{jsonl_service, restart, load_not_saved}
use iso26430_6_asm_prototype.Service.Refinement.{Arrival, run}
use iso26430_6_asm_prototype.Streams.{lines_of, is_in, not_quote}
use iso26430_6_asm_prototype.Streams.Decimal.{AllIn}
use iso26430_6_asm_prototype.Streams.Jsonl.{read_jsonl, at_line}
use iso26430_6_asm_prototype.Streams.Jsonl.Reading.{Reads, FailsAt, read_jsonl-cases}
use iso26430_6_asm_prototype.Streams.Lines.{joined, no_newline}
use iso26430_6_asm_prototype.Examples.Data.{
  all_bytes-IsByte, key, key_bytes, two_keys, two_keys-IsKeyRecord, status_provider, query_request,
  query_message,
}

abbrev log : EventLogStore
log = EventLog.in_memory default_events

-- A file system that never fails.
abbrev pub disk : Disk
disk = record { creates = true; readable = true; opens = λ n. true; written = λ n text. text }

pub disk-IsWorking : IsWorking disk
disk-IsWorking = record { reads = refl; always_opens = λ n. refl; writes_all = λ n text. refl }

abbrev pub empty_store : JsonlLeKeyStore
empty_store = record { keys = []; file = []; openings = 0 }

pub empty_store-IsKept : IsKept empty_store
unfolding Reads lines_of
empty_store-IsKept = record { storable = tt; saved = refl }

-- A load of key 7.
abbrev load_seven : StandardRequest
load_seven = record {
  command = le_key_load;
  request_id = 257;
  payload =
      0 ∷ 0 ∷ 0 ∷ 1 ∷ 0 ∷ 0 ∷ 0 ∷ 32 ∷ 0 ∷ 0 ∷ 0 ∷ 7 ∷ 1 ∷ 2 ∷ 3 ∷ 4 ∷ 5 ∷ 6 ∷ 7 ∷ 8 ∷ 9 ∷ 10 ∷ 11
      ∷ 12 ∷ 13 ∷ 14 ∷ 15 ∷ 16 ∷ 0 ∷ 0 ∷ 0 ∷ 5 ∷ 0 ∷ 0 ∷ 0 ∷ 0 ∷ 0 ∷ 0 ∷ 0 ∷ 1 ∷ [];
}

-- The load, and a query.
abbrev arrivals : List Arrival
arrivals =
    record { now = 1776758400; request = load_seven; raw = [] }
    ∷ record { now = 1776758401; request = query_request; raw = query_message }
    ∷ []

restart_example :
    let memory = run (in_memory_service log status_provider) arrivals [] in
    let (answers, last) = run (jsonl_service log status_provider disk) arrivals empty_store in
    (answers ≡ memory.0)
    × (open_store disk (some last.file)
        ≡ ok (record { keys = memory.1; file = last.file; openings = 0 }))
restart_example =
    restart log status_provider disk disk-IsWorking arrivals empty_store
      (all_bytes-IsByte load_seven.payload refl, (all_bytes-IsByte (0 ∷ 0 ∷ 0 ∷ 7 ∷ []) refl, tt))
      empty_store-IsKept

-- A file system on which no file can be opened for writing.
abbrev read_only : Disk
read_only = record disk { opens = λ n. false }

load_not_saved_example :
    handle_request
      (jsonl_service log status_provider read_only)
      1776758400
      (load_request 257 two_keys)
      []
      empty_store
    ≡ (
      err "failed to persist LEKey JSONL store",
      record { keys = put_all two_keys []; file = []; openings = 1 },
    )
unfolding would_overflow
load_not_saved_example =
    load_not_saved log status_provider read_only 1776758400 257 [] two_keys empty_store (λ e. cc)
      (omega arith) two_keys-IsKeyRecord refl refl

-- A key whose id has 33 bits.
abbrev long_id : LeKeyRecord
long_id = record { key_id = 4294967303; key = key_bytes 0xab; expire_time = 5; attribute_data = 0 }

parse_jsonl_line_cuts_example :
    parse_jsonl_line (key_line long_id)
    ≡ ok (record { key_id = 7; key = key_bytes 0xab; expire_time = 5; attribute_data = 0 })
parse_jsonl_line_cuts_example =
    parse_jsonl_line_cuts long_id (all_bytes-IsByte (key_bytes 0xab) refl) refl (omega arith)
      (omega arith) (omega arith)

-- A line that is no key, behind a key and an empty line.
abbrev broken_file : Text
broken_file = key_line (key 7 5) ++ codes "\n\nnonsense\n"

read_jsonl-cases_example :
    ((xs : List LeKeyRecord) × (read_jsonl "failed to parse LEKey JSONL line " parse_jsonl_line
          broken_file
        ≡ ok xs)
      × Reads parse_jsonl_line (lines_of broken_file) xs)
    ⊎ ((number : ℕ) × (what : String) × (read_jsonl "failed to parse LEKey JSONL line "
            parse_jsonl_line broken_file
          ≡ err (at_line "failed to parse LEKey JSONL line " number what))
        × FailsAt parse_jsonl_line (lines_of broken_file) number what)
read_jsonl-cases_example =
    read_jsonl-cases "failed to parse LEKey JSONL line " parse_jsonl_line broken_file

abbrev plain : Text → Bool
plain [] = true
plain (c ∷ s) = is_in not_quote c && plain s

plain-AllIn : (s : Text) → plain s ≡ true → AllIn not_quote s
plain-AllIn [] h = tt
plain-AllIn (c ∷ s) h = (ground (arith, h), plain-AllIn s (ground (arith, h)))

-- A calendar that reads one time.
abbrev pub calendar : Calendar ℕ
calendar = record { get_time = λ text. some 1776758400; timegm = λ time. since time }

abbrev door_event : EventRecord
door_event = record {
  event_id = 7;
  severity = warning;
  timestamp_epoch = 1776758400;
  timestamp_text = codes "2026-04-21T08:00:00Z";
  summary = codes "door opened";
}

open_log-event_lines_example :
    open_log calendar (some (joined (event_line door_event ∷ []))) ≡ ok (door_event ∷ [])
unfolding is_in no_newline
open_log-event_lines_example = open_log-event_lines calendar (door_event ∷ []) (
  record {
    id_fits = omega arith;
    time_fits = omega arith;
    summary_plain = (plain-AllIn door_event.summary refl, refl);
    timestamp_plain = (plain-AllIn door_event.timestamp_text refl, refl);
    timestamp_some = omega arith;
    time = 1776758400;
    read = refl;
    converted = refl;
  },
  tt,
)
