-- ===== src/Apps/Initiator/Replies.antt =====
-- The answer to each order of asm_initiator, as the responder with its keys in memory gives it: its
-- response code, its size, and what it does to the keys.
use iso26430_6_asm_prototype.Base.{
  ℕ, ◌+◌, ◌*◌, ◌≤◌, ◌≡◌, ◌≢◌, refl, Option, none, some, [], ◌∷◌, false, length, arith, Result, ok,
  ◌>>=◌, ltb, if◌then◌else◌,
}
use iso26430_6_asm_prototype.Common.{
  ByteBuffer, bad_request, GeneralResponse, successful, failed, invalid, ServiceResult,
}
use iso26430_6_asm_prototype.Apps.Initiator.Answers.{IsAnswerable, xml_or_empty}
use iso26430_6_asm_prototype.Apps.Initiator.Orders.{
  Order, ask_time, ask_status, list_keys, purge_everything, list_events, ask_event, find_key, purge,
  load, asked, IsOrder,
}
use iso26430_6_asm_prototype.BigEndian.Words.{be_u32, append_be_u32-be_u32, append_be_u64-be_u64}
use iso26430_6_asm_prototype.Codec.Requests.{IsSendable}
use iso26430_6_asm_prototype.EventLog.{EventLogStore}
use iso26430_6_asm_prototype.EventLog.Payload as EventPayload
use iso26430_6_asm_prototype.EventLog.Payload.RoundTrip.{
  decode_requests, length-encode_list_response,
}
use iso26430_6_asm_prototype.LeKey.Payload as KeyPayload
use iso26430_6_asm_prototype.LeKey.Payload.RoundTrip.{
  decode_load_request-encode_load_request, decode_id_requests, length-encode_load_request,
  length-encode_query_all_response,
}
use iso26430_6_asm_prototype.LeKey.Store.{
  Keys, capacity, would_overflow, list_key_ids, load_keys, purge_key,
}
use iso26430_6_asm_prototype.LeKey.Store.Table.{load_keys-find}
use iso26430_6_asm_prototype.QuerySpb
use iso26430_6_asm_prototype.QuerySpb.{StaticQuerySpbStatusProvider}
use iso26430_6_asm_prototype.Service.{handle_request, dispatch}
use iso26430_6_asm_prototype.Service.Handlers.{
  answer_event_id, handle_get_time, handle_get_event_list, handle_get_event_id, handle_query_spb,
  handle_le_key_load, handle_le_key_query_id, handle_le_key_query_all, handle_le_key_purge_id,
  handle_le_key_purge_all,
}
use iso26430_6_asm_prototype.Service.KeyCommands.{in_memory_service}

-- The response code of an answer and the size of its payload.
abbrev pub answer_shape : Result ServiceResult → Result (GeneralResponse × ℕ)
answer_shape r = do result ← r; ok (result.response.response_code, length result.response.payload)

abbrev found_code : Option ByteBuffer → GeneralResponse
found_code none = invalid
found_code (some xml) = successful

-- What the order leaves of the keys.
unfoldable pub carried_out : Order → Keys → Keys
carried_out (load k) s = (load_keys (k ∷ []) s).1
carried_out (purge id) s = (purge_key id s).1
carried_out purge_everything s = []
carried_out _ s = s

module _ (log : EventLogStore) (status : StaticQuerySpbStatusProvider) (now : ℕ) where
  -- An event that is not there is `invalid`, keys that do not fit are `failed`.
  unfoldable pub reply_code : Order → Keys → GeneralResponse
  reply_code (ask_event id) s = found_code (log.get_event_xml id)
  reply_code (load k) s = if would_overflow (k ∷ []) s capacity then failed else successful
  reply_code _ s = successful

  unfoldable pub reply_size : Order → Keys → ℕ
  reply_size ask_time s = 8
  reply_size ask_status s = 2
  reply_size (list_events start stop) s = 8 + length (log.list_event_ids start stop) * 4
  reply_size (ask_event id) s = length (xml_or_empty (log.get_event_xml id))
  reply_size list_keys s = 8 + length (list_key_ids s) * 4
  reply_size purge_everything s = 0
  reply_size _ s = 1

  pub answer_shape-reply :
      (raw : ByteBuffer) (o : Order) (s : Keys)
      → IsOrder o
      → IsAnswerable log status now o s
      → (answer_shape (handle_request (in_memory_service log status) now (asked o) raw s).0
          ≡ ok (reply_code o s, reply_size o s))
        × ((handle_request (in_memory_service log status) now (asked o) raw s).1 ≡ carried_out o s)
  unfolding handle_request dispatch asked IsOrder IsAnswerable reply_code reply_size carried_out
      handle_get_time handle_get_event_list handle_get_event_id handle_query_spb handle_le_key_load
      handle_le_key_query_id handle_le_key_query_all handle_le_key_purge_id handle_le_key_purge_all
  answer_shape-reply raw ask_time s h fits = (rw (append_be_u64-be_u64 [] now) refl, refl)
  answer_shape-reply raw ask_status s h fits = unfold QuerySpb.encode_response in (refl, refl)
  answer_shape-reply raw (list_events start stop) s (h, h2) (ordered, counted, fits) =
      let forward : ltb stop start ≡ false = ground (arith, ordered) in
      let asks = (decode_requests start stop 0 h h2 (omega arith)).0 in
      (
        rw (asks, forward, length-encode_list_response (log.list_event_ids start stop) counted fits)
            refl,
        rw (asks, forward) refl,
      )
  answer_shape-reply raw (ask_event id) s h fits =
      let asks = (decode_requests 0 0 id (omega arith) (omega arith) h).1 in
      (
        rw asks (unfold answer_event_id EventPayload.encode_id_response in ground arith),
        rw asks refl,
      )
  answer_shape-reply raw (load k) s h fits =
      let (same, _, _) = load_keys-find (k ∷ []) s in
      let asks =
        decode_load_request-encode_load_request (record { keys = k ∷ [] }) (omega arith)
          (h.fields_fit, tt) in
      (rw (asks, same) (unfold KeyPayload.encode_load_response in refl), rw asks refl)
  answer_shape-reply raw (find_key id) s h fits =
      let asks = (decode_id_requests id h).0 in
      (rw asks (unfold KeyPayload.encode_query_id_response in refl), rw asks refl)
  answer_shape-reply raw list_keys s h (counted, fits) =
      (rw (length-encode_query_all_response (list_key_ids s) counted fits) refl, refl)
  answer_shape-reply raw (purge id) s h fits =
      let asks = (decode_id_requests id h).1 in
      (rw asks (unfold KeyPayload.encode_purge_id_response in refl), rw asks refl)
  answer_shape-reply raw purge_everything s h fits = (refl, refl)

pub asked_payload :
    (o : Order)
    → IsOrder o
    → (length (asked o).payload ≤ 40)
      × ((asked o).request_id ≡ 1)
      × ((asked o).command ≢ bad_request)
unfolding asked IsOrder
asked_payload ask_time h = (omega arith, refl, λ e. cc)
asked_payload ask_status h = (omega arith, refl, λ e. cc)
asked_payload list_keys h = (omega arith, refl, λ e. cc)
asked_payload purge_everything h = (omega arith, refl, λ e. cc)
asked_payload (list_events start stop) h = (
  unfold EventPayload.encode_list_request in
      rw (append_be_u32-be_u32 [] start, append_be_u32-be_u32 (be_u32 start) stop) (omega arith),
  refl,
  λ e. cc,
)
asked_payload (ask_event id) h = (
  unfold EventPayload.encode_id_request in rw (append_be_u32-be_u32 [] id) (omega arith),
  refl,
  λ e. cc,
)
asked_payload (find_key id) h = (
  unfold KeyPayload.encode_query_id_request in rw (append_be_u32-be_u32 [] id) (omega arith),
  refl,
  λ e. cc,
)
asked_payload (purge id) h = (
  unfold KeyPayload.encode_purge_id_request in rw (append_be_u32-be_u32 [] id) (omega arith),
  refl,
  λ e. cc,
)
asked_payload (load k) h = (
  omega (
    arith,
    length-encode_load_request (record { keys = k ∷ [] }) (omega arith) (h.fields_fit, tt),
  ),
  refl,
  λ e. cc,
)

-- The request of an order can be sent.
pub asked-IsSendable :
    (o : Order) → IsOrder o → IsSendable (asked o) × (length (asked o).payload ≤ 40)
asked-IsSendable o h =
    let (short, id, command) = asked_payload o h in
    (
      record {
        request_only = command;
        id_fits = omega (arith, id);
        size_fits = omega (arith, short);
      },
      short,
    )
