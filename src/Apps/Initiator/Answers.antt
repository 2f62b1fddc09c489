-- ===== src/Apps/Initiator/Answers.antt =====
-- What a user reads, for each order, when the responder has its keys in memory.
use iso26430_6_asm_prototype.Base.{
  ℕ, ◌≤◌, ◌≡◌, refl, Option, none, some, [], ◌∷◌, ◌++◌, append-nil, false, not, length, arith,
  Result, ok, ◌>>=◌, ltb, All, IsByte, IsU32, IsU64, Text, codes,
}
use iso26430_6_asm_prototype.Common.{ByteBuffer, ServiceResult}
use iso26430_6_asm_prototype.Apps.Initiator.Orders.{
  Order, ask_time, ask_status, list_keys, purge_everything, list_events, ask_event, find_key, purge,
  load, asked, IsOrder,
}
use iso26430_6_asm_prototype.Apps.Initiator.Printing.{payload_text, with_commas, bool_text}
use iso26430_6_asm_prototype.BigEndian.RoundTrip.{decode_be_u64-append_be_u64}
use iso26430_6_asm_prototype.EventLog.{EventLogStore}
use iso26430_6_asm_prototype.EventLog.Payload.{decode_id_response, encode_id_response}
use iso26430_6_asm_prototype.EventLog.Payload.RoundTrip.{
  decode_requests, decode_list_response-encode_list_response,
}
use iso26430_6_asm_prototype.LeKey.Payload.RoundTrip.{
  decode_load_request-encode_load_request, flag_responses, decode_id_requests,
  decode_query_all_response-encode_query_all_response,
}
use iso26430_6_asm_prototype.LeKey.Store.{
  Keys, capacity, would_overflow, contains_key, list_key_ids, load_keys, purge_key,
}
use iso26430_6_asm_prototype.LeKey.Store.Table.{
  find, is_some, contains_key-find, purge_key-find, load_keys-find,
}
use iso26430_6_asm_prototype.QuerySpb
use iso26430_6_asm_prototype.QuerySpb.{
  StaticQuerySpbStatusProvider, current_status, status_to_string,
}
use iso26430_6_asm_prototype.Service.{handle_request, dispatch}
use iso26430_6_asm_prototype.Service.Handlers.{
  answer_event_id, handle_get_time, handle_get_event_list, handle_get_event_id, handle_query_spb,
  handle_le_key_load, handle_le_key_query_id, handle_le_key_query_all, handle_le_key_purge_id,
  handle_le_key_purge_all,
}
use iso26430_6_asm_prototype.Service.KeyCommands.{in_memory_service}
use iso26430_6_asm_prototype.Streams.{decimal}

-- What is printed behind the names of the command and the response.
abbrev pub answer_text : Result ServiceResult → Result Text
answer_text r = do result ← r; payload_text result.response.command result.response.payload

abbrev pub xml_or_empty : Option Text → Text
xml_or_empty none = []
xml_or_empty (some xml) = xml

module _ (log : EventLogStore) (status : StaticQuerySpbStatusProvider) (now : ℕ) where
  -- The keys before the order, the event log, the clock and the status say what is printed.
  unfoldable pub told : Order → Keys → Text
  told ask_time s = codes " epoch=" ++ decimal now
  told ask_status s = codes " protocol_ver=1 status=" ++ codes (status_to_string status.status)
  told (list_events start stop) s =
      let ids = log.list_event_ids start stop in
      codes " event_count=" ++ (decimal (length ids) ++ (codes " event_ids=" ++ with_commas ids))
  told (ask_event id) s = codes " xml=" ++ xml_or_empty (log.get_event_xml id)
  told (load k) s = codes " overflow=" ++ bool_text (would_overflow (k ∷ []) s capacity)
  told (find_key id) s = codes " key_present=" ++ bool_text (is_some (find id s))
  told list_keys s =
      codes " key_count="
      ++ (decimal (length (list_key_ids s)) ++ (codes " key_ids=" ++ with_commas (list_key_ids s)))
  told (purge id) s = codes " no_key_id=" ++ bool_text (not (is_some (find id s)))
  told purge_everything s = []

  -- A window does not end before it starts, and counts, ids, the clock and the status fit their fields.
  unfoldable pub IsAnswerable : Order → Keys → Type 0
  IsAnswerable ask_time s = IsU64 now
  IsAnswerable ask_status s = IsByte status.status
  IsAnswerable (list_events start stop) s =
      (start ≤ stop)
      × IsU32 (length (log.list_event_ids start stop))
      × All IsU32 (log.list_event_ids start stop)
  IsAnswerable list_keys s = IsU32 (length (list_key_ids s)) × All IsU32 (list_key_ids s)
  IsAnswerable _ s = Unit {0}

  -- Over the in-memory store, each order whose numbers fit their fields is answered with what the user
  -- then reads: the time, the status, the events of the window, the event, whether the keys overflow,
  -- whether a key is there, the keys, or whether there was no key to purge. A window may not end
  -- before it starts, and the counts and ids that are listed, the clock and the status fit their
  -- fields.
  pub answer_text-told :
      (raw : ByteBuffer) (o : Order) (s : Keys)
      → IsOrder o
      → IsAnswerable o s
      → answer_text (handle_request (in_memory_service log status) now (asked o) raw s).0
        ≡ ok (told o s)
  unfolding handle_request dispatch asked told IsOrder IsAnswerable payload_text handle_get_time
      handle_get_event_list handle_get_event_id handle_query_spb handle_le_key_load
      handle_le_key_query_id handle_le_key_query_all handle_le_key_purge_id handle_le_key_purge_all
  answer_text-told raw ask_time s h fits =
      rw (rw (append-nil _) at (decode_be_u64-append_be_u64 [] [] now fits)) refl
  answer_text-told raw ask_status s h fits =
      unfold QuerySpb.decode_response QuerySpb.encode_response current_status decimal in
      ground (arith, fits)
  answer_text-told raw (list_events start stop) s (h, h2) (ordered, counted, fits) =
      let forward : ltb stop start ≡ false = ground (arith, ordered) in
      rw
        (
          (decode_requests start stop 0 h h2 (omega arith)).0,
          forward,
          decode_list_response-encode_list_response (log.list_event_ids start stop) counted fits,
        )
        refl
  answer_text-told raw (ask_event id) s h fits =
      rw (decode_requests 0 0 id (omega arith) (omega arith) h).1
        (unfold answer_event_id decode_id_response encode_id_response in ground arith)
  answer_text-told raw (load k) s h fits =
      let (same, _, _) = load_keys-find (k ∷ []) s in
      rw
        (
          decode_load_request-encode_load_request (record { keys = k ∷ [] }) (omega arith)
              (h.fields_fit, tt),
          (flag_responses (load_keys (k ∷ []) s).0).0,
          same,
        )
        refl
  answer_text-told raw (find_key id) s h fits =
      rw
        (
          (decode_id_requests id h).0,
          (flag_responses (contains_key id s)).1,
          contains_key-find id s,
        )
        refl
  answer_text-told raw list_keys s h (counted, fits) =
      rw (decode_query_all_response-encode_query_all_response (list_key_ids s) counted fits) refl
  answer_text-told raw (purge id) s h fits =
      rw
        (
          (decode_id_requests id h).1,
          (flag_responses (not (purge_key id s).0)).2,
          (purge_key-find id s).0,
        )
        refl
  answer_text-told raw purge_everything s h fits = refl
