-- ===== src/EventLog/Payload/RoundTrip.antt =====
-- The payloads of GetEventList and GetEventID are read back as they were written.
use iso26430_6_asm_prototype.Base.{
  ℕ, ◌+◌, ◌*◌, ◌≡◌, ◌↔◌, ◌∙◌, sym, List, [], ◌++◌, append-nil, arith, length, drop, drop-drop,
  drop_all, All, All-drop, ok, ◌>>=◌, IsByte, IsU32,
}
use iso26430_6_asm_prototype.Common.{ByteBuffer}
use iso26430_6_asm_prototype.BigEndian.{decode_be_u32}
use iso26430_6_asm_prototype.BigEndian.Words.{
  be_u32, append_be_u32-be_u32, decode_be_u32-drop, decode_be_u32-be_u32, decode_be_u32-inverse,
}
use iso26430_6_asm_prototype.Batch.Ids.{
  length-encode_ids, decode_ids-encode_ids, decode_ids-inverse, single_id,
}
use iso26430_6_asm_prototype.EventLog.Payload.{
  GetEventListRequestPayload, messages, encode_u32_batch, decode_u32_batch, encode_list_request,
  decode_list_request, encode_list_response, decode_list_response, encode_id_request,
  decode_id_request,
}

list_request_parts :
    (bytes : ByteBuffer) (p : GetEventListRequestPayload)
    → decode_list_request bytes ≡ ok p
    → (length bytes ≡ 8)
      × (decode_be_u32 bytes 0 ≡ ok p.time_start)
      × (decode_be_u32 bytes 4 ≡ ok p.time_stop)
unfolding decode_list_request
list_request_parts bytes p e = ground arith

encode_list_request-be_u32 :
    (p : GetEventListRequestPayload)
    → encode_list_request p ≡ be_u32 p.time_start ++ be_u32 p.time_stop
unfolding encode_list_request
encode_list_request-be_u32 p = simp append_be_u32-be_u32

decode_list_request-encode_list_request :
    (p : GetEventListRequestPayload)
    → IsU32 p.time_start
    → IsU32 p.time_stop
    → decode_list_request (be_u32 p.time_start ++ be_u32 p.time_stop) ≡ ok p
unfolding decode_list_request
decode_list_request-encode_list_request p a b = ground (
  arith,
  decode_be_u32-be_u32 p.time_start (be_u32 p.time_stop) a,
  decode_be_u32-drop (be_u32 p.time_start ++ be_u32 p.time_stop) 4,
  decode_be_u32-be_u32 p.time_stop [] b,
)

list_request_inverse :
    (bytes : ByteBuffer) (p : GetEventListRequestPayload)
    → All IsByte bytes
    → decode_list_request bytes ≡ ok p
    → (encode_list_request p ≡ bytes) × IsU32 p.time_start × IsU32 p.time_stop
list_request_inverse bytes p h e =
    let (eight, read_start, read_stop) = list_request_parts bytes p e in
    let (a, front) = decode_be_u32-inverse bytes p.time_start h read_start in
    let (b, behind) =
      decode_be_u32-inverse (drop 4 bytes) p.time_stop (All-drop IsByte 4 bytes h)
        (sym (decode_be_u32-drop bytes 4) ∙ read_stop) in
    (
      ground (
        arith,
        encode_list_request-be_u32 p,
        drop-drop 4 4 bytes,
        drop_all 8 bytes eight,
        append-nil (be_u32 p.time_stop),
      ),
      a,
      b,
    )

-- Bytes decode to a list request exactly when they are what the encoder writes for it and both times
-- fit 32 bits.
pub list_request_iff :
    (bytes : ByteBuffer) (p : GetEventListRequestPayload)
    → All IsByte bytes
    → (decode_list_request bytes ≡ ok p)
      ↔ ((encode_list_request p ≡ bytes) × IsU32 p.time_start × IsU32 p.time_stop)
list_request_iff bytes p h = (
  list_request_inverse bytes p h,
  λ (same, a, b).
      rw (← same, encode_list_request-be_u32 p) (decode_list_request-encode_list_request p a b),
)

-- Bytes decode to a list of event ids exactly when they are what the encoder writes for it, the ids fit
-- 32 bits and so does their number.
pub list_response_iff :
    (bytes : ByteBuffer) (ids : List ℕ)
    → All IsByte bytes
    → (decode_list_response bytes ≡ ok (record { event_ids = ids })) ↔ (
        (encode_list_response (record { event_ids = ids }) ≡ bytes)
        × IsU32 (length ids)
        × All IsU32 ids)
unfolding decode_list_response encode_list_response decode_u32_batch encode_u32_batch
list_response_iff bytes ids h = (
  λ e. decode_ids-inverse messages bytes ids h (ground arith),
  λ (same, counted, fits). rw (← same, decode_ids-encode_ids messages ids counted fits, ◌>>=◌),
)

-- Bytes decode to an event id exactly when they are the four bytes of an id of 32 bits.
pub id_request_iff :
    (bytes : ByteBuffer) (id : ℕ)
    → All IsByte bytes
    → (decode_id_request bytes ≡ ok (record { event_id = id }))
      ↔ ((encode_id_request (record { event_id = id }) ≡ bytes) × IsU32 id)
unfolding decode_id_request encode_id_request
id_request_iff bytes id h =
    let (there, back) = single_id bytes id h in
    (λ e. there (ground arith), λ e. ground (arith, back e))

-- The requests as the service reads them.
pub decode_requests :
    (a b id : ℕ)
    → IsU32 a
    → IsU32 b
    → IsU32 id
    → (decode_list_request (encode_list_request (record { time_start = a; time_stop = b }))
        ≡ ok (record { time_start = a; time_stop = b }))
      × (decode_id_request (encode_id_request (record { event_id = id }))
          ≡ ok (record { event_id = id }))
unfolding decode_id_request encode_id_request
decode_requests a b id ha hb h =
    let p : GetEventListRequestPayload = record { time_start = a; time_stop = b } in
    (
      rw (encode_list_request-be_u32 p) (decode_list_request-encode_list_request p ha hb),
      ground (arith, append_be_u32-be_u32 [] id, decode_be_u32-be_u32 id []),
    )

pub decode_list_response-encode_list_response :
    (ids : List ℕ)
    → IsU32 (length ids)
    → All IsU32 ids
    → decode_list_response (encode_list_response (record { event_ids = ids }))
      ≡ ok (record { event_ids = ids })
unfolding decode_list_response encode_list_response decode_u32_batch encode_u32_batch
decode_list_response-encode_list_response ids counted fits =
    rw (decode_ids-encode_ids messages ids counted fits, ◌>>=◌)

pub length-encode_list_response :
    (ids : List ℕ)
    → IsU32 (length ids)
    → All IsU32 ids
    → length (encode_list_response (record { event_ids = ids })) ≡ 8 + length ids * 4
unfolding encode_list_response encode_u32_batch
length-encode_list_response ids counted fits = length-encode_ids ids counted fits
