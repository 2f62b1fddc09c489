-- ===== src/Service/EventAnswers.antt =====
-- What a client of the event log is told.
use iso26430_6_asm_prototype.Base.{
  ℕ, ◌≡◌, ◌≢◌, ◌≤◌, ◌<◌, refl, [], arith, All, IsU32, length, ok, ltb, Text, some, none, Bool-cases,
  inl, inr,
}
use iso26430_6_asm_prototype.Common.{
  ByteBuffer, get_event_list, get_event_id, successful, invalid, StandardRequest, ServiceResult,
}
use iso26430_6_asm_prototype.EventLog.Payload.{
  encode_list_request, encode_list_response, decode_list_response, encode_id_request,
  encode_id_response, decode_id_response,
}
use iso26430_6_asm_prototype.EventLog.Payload.RoundTrip.{
  decode_requests, decode_list_response-encode_list_response,
}
use iso26430_6_asm_prototype.Service.{handle_request, dispatch}
use iso26430_6_asm_prototype.Service.Handlers.{
  AsmService, reply, handle_get_event_list, handle_get_event_id, answer_event_id,
}

abbrev pub list_request : ℕ → ℕ → ℕ → StandardRequest
list_request n time_start time_stop = record {
  command = get_event_list;
  request_id = n;
  payload = encode_list_request (record { time_start = time_start; time_stop = time_stop });
}

abbrev pub event_request : ℕ → ℕ → StandardRequest
event_request n id = record {
  command = get_event_id;
  request_id = n;
  payload = encode_id_request (record { event_id = id });
}

module _ {S : Type 0} (service : AsmService S) (now : ℕ) (raw : ByteBuffer) (s : S) where
  open service use {event_log_store}

  -- A list request, its id not zero and its times of 32 bits, for a window that ends before it
  -- starts is answered `invalid` with no payload. Any other such request is answered with the ids
  -- that the log has in the window, which the client reads back if there are fewer than 2 ^ 32, each
  -- of 32 bits. The key store is untouched.
  pub event_list_answer :
      (n a b : ℕ)
      → n ≢ 0
      → IsU32 a
      → IsU32 b
      → (result : ServiceResult) × (handle_request service now (list_request n a b) raw s
          ≡ (ok result, s))
        × (b < a → (result.response.response_code ≡ invalid) × (result.response.payload ≡ []))
        × (a ≤ b
            → IsU32 (length (event_log_store.list_event_ids a b))
            → All IsU32 (event_log_store.list_event_ids a b)
            → (result.response.response_code ≡ successful)
              × (decode_list_response result.response.payload
                  ≡ ok (record { event_ids = event_log_store.list_event_ids a b })))
  unfolding handle_request dispatch handle_get_event_list
  event_list_answer n a b nonzero ha hb =
      let (read, _) = decode_requests a b 0 ha hb (omega arith) in
      elim (Bool-cases (ltb b a)) [
        | inl backward ↦ (
          reply get_event_list (list_request n a b) [] invalid
              "GetEventList rejected because time_start > time_stop",
          ground (arith, read),
          (λ _. (refl, refl)),
          λ forward. absurd (ground arith),
        )
        | inr forward ↦ (
          reply get_event_list (list_request n a b)
              (encode_list_response (record { event_ids = event_log_store.list_event_ids a b }))
              successful "GetEventList handled",
          ground (arith, read),
          (λ backward. absurd (ground arith)),
          λ _ counted fits. (
            refl,
            decode_list_response-encode_list_response (event_log_store.list_event_ids a b) counted
                fits,
          ),
        )
      ]

  -- A request, its id not zero, for one event id of 32 bits is answered `invalid` with no payload if
  -- the log has no text for it, and otherwise with that text, which the client reads back. The key
  -- store is untouched.
  pub event_id_answer :
      (n id : ℕ)
      → n ≢ 0
      → IsU32 id
      → (result : ServiceResult) × (handle_request service now (event_request n id) raw s
          ≡ (ok result, s))
        × (event_log_store.get_event_xml id ≡ none
            → (result.response.response_code ≡ invalid) × (result.response.payload ≡ []))
        × ((xml : Text)
            → event_log_store.get_event_xml id ≡ some xml
            → (result.response.response_code ≡ successful)
              × (decode_id_response result.response.payload ≡ ok (record { log_record_xml = xml })))
  unfolding handle_request dispatch handle_get_event_id answer_event_id decode_id_response
      encode_id_response
  event_id_answer n id nonzero h =
      let (_, read) = decode_requests 0 0 id (omega arith) (omega arith) h in
      (
        answer_event_id service (event_request n id) (event_log_store.get_event_xml id),
        ground (arith, read),
        (λ missing. rw missing (refl, refl)),
        λ xml found. rw found (refl, refl),
      )
