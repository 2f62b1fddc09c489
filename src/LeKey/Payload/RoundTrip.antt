-- ===== src/LeKey/Payload/RoundTrip.antt =====
-- The payloads of the LE key commands are read back as they were written.
use iso26430_6_asm_prototype.Base.{
  ℕ, ◌+◌, ◌*◌, ◌≡◌, ◌↔◌, ◌>>=◌, refl, ◌∙◌, Bool, true, false, List, [], length, arith, All, ok,
  IsByte, IsU32, Result-cases, inl, inr,
}
use iso26430_6_asm_prototype.Common.{ByteBuffer}
use iso26430_6_asm_prototype.BigEndian.Words.{append_be_u32-be_u32, decode_be_u32-be_u32}
use iso26430_6_asm_prototype.Batch.{decode_batch}
use iso26430_6_asm_prototype.Batch.Laws.{
  encode_batch-spell_batch, decode_batch-spell_batch, length-encode_batch,
}
use iso26430_6_asm_prototype.Batch.Laws.Inverse.{decode_batch-inverse}
use iso26430_6_asm_prototype.Batch.Ids.{
  decode_ids-encode_ids, decode_ids-inverse, single_id, length-encode_ids,
}
use iso26430_6_asm_prototype.LeKey.{LeKeyLoadRequestPayload}
use iso26430_6_asm_prototype.LeKey.Payload.{
  append_record, decode_record, load_messages, encode_load_request, decode_load_request,
  id_messages, encode_u32_batch, decode_u32_batch, encode_load_response, decode_load_response,
  encode_query_all_response, decode_query_all_response, encode_query_id_request,
  decode_query_id_request, encode_query_id_response, decode_query_id_response,
  encode_purge_id_request, decode_purge_id_request, encode_purge_id_response,
  decode_purge_id_response,
}
use iso26430_6_asm_prototype.LeKey.Payload.Records.{IsKeyRecord, spell_record, record_laws}

-- A load request of fewer than 2 ^ 32 well-formed key records is read back whole and in order.
pub decode_load_request-encode_load_request :
    (p : LeKeyLoadRequestPayload)
    → IsU32 (length p.keys)
    → All IsKeyRecord p.keys
    → decode_load_request (encode_load_request p) ≡ ok p
unfolding decode_load_request encode_load_request
decode_load_request-encode_load_request p h fits = ground (
  arith,
  encode_batch-spell_batch 32 append_record decode_record spell_record IsKeyRecord record_laws
      p.keys h,
  decode_batch-spell_batch 32 append_record decode_record spell_record IsKeyRecord record_laws
      load_messages p.keys h (omega arith) fits,
)

pub length-encode_load_request :
    (p : LeKeyLoadRequestPayload)
    → IsU32 (length p.keys)
    → All IsKeyRecord p.keys
    → length (encode_load_request p) ≡ 8 + length p.keys * 32
unfolding encode_load_request
length-encode_load_request p h fits =
    length-encode_batch 32 append_record decode_record spell_record IsKeyRecord record_laws p.keys h
      fits

-- Bytes that decode to a load request hold well-formed key records only, and are what that request is
-- encoded to.
pub encode_load_request-decode_load_request :
    (bytes : ByteBuffer) (p : LeKeyLoadRequestPayload)
    → All IsByte bytes
    → decode_load_request bytes ≡ ok p
    → (encode_load_request p ≡ bytes) × All IsKeyRecord p.keys
unfolding decode_load_request encode_load_request
encode_load_request-decode_load_request bytes p h e =
    elim (Result-cases (decode_batch load_messages 32 decode_record bytes)) [
      | inl (keys, r) ↦
          let read : decode_batch load_messages 32 decode_record bytes ≡ ok p.keys = ground arith in
          let (counted, fits, same) =
            decode_batch-inverse 32 append_record decode_record spell_record IsKeyRecord record_laws
              load_messages bytes p.keys h read in
          (
            encode_batch-spell_batch 32 append_record decode_record spell_record IsKeyRecord
                  record_laws p.keys counted
                ∙ same,
            fits,
          )
      | inr (m, r) ↦ absurd (ground arith)
    ]

-- Every answer to QueryAll that lists fewer than 2 ^ 32 ids of 32 bits is read back, and bytes that
-- decode to such an answer are what it is encoded to.
pub id_list_response_iff :
    (bytes : ByteBuffer) (ids : List ℕ)
    → All IsByte bytes
    → (decode_query_all_response bytes ≡ ok (record { key_ids = ids })) ↔ (
        (encode_query_all_response (record { key_ids = ids }) ≡ bytes)
        × IsU32 (length ids)
        × All IsU32 ids)
unfolding decode_query_all_response encode_query_all_response decode_u32_batch encode_u32_batch
id_list_response_iff bytes ids h = (
  λ e. decode_ids-inverse id_messages bytes ids h (ground arith),
  λ (same, counted, fits). rw (← same, decode_ids-encode_ids id_messages ids counted fits, ◌>>=◌),
)

-- The two requests that carry one id: a payload decodes to an id exactly when it is the four bytes
-- that the encoder writes for that id and the id fits 32 bits.
pub id_requests_iff :
    (bytes : ByteBuffer) (id : ℕ)
    → All IsByte bytes
    → ((decode_query_id_request bytes ≡ ok (record { key_id = id }))
        ↔ ((encode_query_id_request (record { key_id = id }) ≡ bytes) × IsU32 id))
      × ((decode_purge_id_request bytes ≡ ok (record { key_id = id }))
          ↔ ((encode_purge_id_request (record { key_id = id }) ≡ bytes) × IsU32 id))
unfolding decode_query_id_request encode_query_id_request decode_purge_id_request
    encode_purge_id_request
id_requests_iff bytes id h =
    let (there, back) = single_id bytes id h in
    (
      (λ e. there (ground arith), λ e. ground (arith, back e)),
      (λ e. there (ground arith), λ e. ground (arith, back e)),
    )

pub decode_id_requests :
    (id : ℕ)
    → IsU32 id
    → (decode_query_id_request (encode_query_id_request (record { key_id = id }))
        ≡ ok (record { key_id = id }))
      × (decode_purge_id_request (encode_purge_id_request (record { key_id = id }))
          ≡ ok (record { key_id = id }))
unfolding decode_query_id_request encode_query_id_request decode_purge_id_request
    encode_purge_id_request
decode_id_requests id fits = (
  ground (arith, append_be_u32-be_u32 [] id, decode_be_u32-be_u32 id []),
  ground (arith, append_be_u32-be_u32 [] id, decode_be_u32-be_u32 id []),
)

-- The three answers of one flag are read back.
pub flag_responses :
    (flag : Bool)
    → (decode_load_response (encode_load_response (record { overflow = flag }))
        ≡ ok (record { overflow = flag }))
      × (decode_query_id_response (encode_query_id_response (record { key_present = flag }))
          ≡ ok (record { key_present = flag }))
      × (decode_purge_id_response (encode_purge_id_response (record { no_key_id = flag }))
          ≡ ok (record { no_key_id = flag }))
unfolding decode_load_response encode_load_response decode_query_id_response
    encode_query_id_response decode_purge_id_response encode_purge_id_response
flag_responses true = (refl, refl, refl)
flag_responses false = (refl, refl, refl)

pub decode_query_all_response-encode_query_all_response :
    (ids : List ℕ)
    → IsU32 (length ids)
    → All IsU32 ids
    → decode_query_all_response (encode_query_all_response (record { key_ids = ids }))
      ≡ ok (record { key_ids = ids })
unfolding decode_query_all_response encode_query_all_response decode_u32_batch encode_u32_batch
decode_query_all_response-encode_query_all_response ids counted fits =
    rw (decode_ids-encode_ids id_messages ids counted fits, ◌>>=◌)

pub length-encode_query_all_response :
    (ids : List ℕ)
    → IsU32 (length ids)
    → All IsU32 ids
    → length (encode_query_all_response (record { key_ids = ids })) ≡ 8 + length ids * 4
unfolding encode_query_all_response encode_u32_batch
length-encode_query_all_response ids counted fits = length-encode_ids ids counted fits
