-- ===== src/LeKey/Payload.antt =====
-- The payload codec of src/asm/le_key.cpp.
pub mod Records
pub mod RoundTrip
use iso26430_6_asm_prototype.Base.{
  ℕ, ◌+◌, Bool, List, [], ◌∷◌, ◌++◌, length, get_or, take, drop, Result, ok, err, ◌>>=◌, u8, ltb,
  ◌!=◌, if◌then◌else◌,
}
use iso26430_6_asm_prototype.Common.{ByteBuffer}
use iso26430_6_asm_prototype.BigEndian.{append_be_u32, append_be_u64, decode_be_u32, decode_be_u64}
use iso26430_6_asm_prototype.Batch.{Messages, encode_batch, decode_batch}
use iso26430_6_asm_prototype.LeKey.{
  LeKeyRecord, LeKeyLoadRequestPayload, LeKeyLoadResponsePayload, LeKeyQueryIdRequestPayload,
  LeKeyQueryIdResponsePayload, LeKeyQueryAllResponsePayload, LeKeyPurgeIdRequestPayload,
  LeKeyPurgeIdResponsePayload,
}

unfoldable pub append_record : ByteBuffer → LeKeyRecord → ByteBuffer
append_record out key =
    let with_key = append_be_u32 out key.key_id ++ key.key in
    append_be_u64 (append_be_u32 with_key key.expire_time) key.attribute_data

unfoldable pub decode_record : ByteBuffer → ℕ → Result LeKeyRecord
decode_record bytes offset =
    if ltb (length bytes) (offset + 32) then err "LE key batch item truncated" else do
      key_id ← decode_be_u32 bytes offset
      let key = take 16 (drop (offset + 4) bytes)
      expire_time ← decode_be_u32 bytes (offset + 20)
      attribute_data ← decode_be_u64 bytes (offset + 24)
      ok (record {
        key_id = key_id;
        key = key;
        expire_time = expire_time;
        attribute_data = attribute_data;
      })

unfoldable pub encode_u32_batch : List ℕ → ByteBuffer
encode_u32_batch values = encode_batch 4 append_be_u32 values

abbrev pub id_messages : Messages
id_messages = record {
  too_short = "LEKeyID batch too short";
  wrong_item = "LEKeyID batch item length must be 4";
  wrong_size = "LEKeyID batch size mismatch";
}

unfoldable pub decode_u32_batch : ByteBuffer → Result (List ℕ)
decode_u32_batch bytes = decode_batch id_messages 4 decode_be_u32 bytes

unfoldable pub encode_load_request : LeKeyLoadRequestPayload → ByteBuffer
encode_load_request payload = encode_batch 32 append_record payload.keys

abbrev pub load_messages : Messages
load_messages = record {
  too_short = "LEKeyLoad payload too short";
  wrong_item = "LEKeyLoad item length must be 32";
  wrong_size = "LEKeyLoad payload size mismatch";
}

unfoldable pub decode_load_request : ByteBuffer → Result LeKeyLoadRequestPayload
decode_load_request bytes = do
  keys ← decode_batch load_messages 32 decode_record bytes
  ok (record { keys = keys })

-- `static_cast<std::uint8_t>(flag ? 1U : 0U)`
abbrev pub flag_byte : Bool → ℕ
flag_byte flag = u8 (if flag then 1 else 0)

unfoldable pub encode_load_response : LeKeyLoadResponsePayload → ByteBuffer
encode_load_response payload = flag_byte payload.overflow ∷ []

unfoldable pub decode_load_response : ByteBuffer → Result LeKeyLoadResponsePayload
decode_load_response bytes =
    if length bytes != 1
    then err "LEKeyLoad response payload must be 1 byte"
    else ok (record { overflow = get_or bytes 0 0 != 0 })

unfoldable pub encode_query_id_request : LeKeyQueryIdRequestPayload → ByteBuffer
encode_query_id_request payload = append_be_u32 [] payload.key_id

unfoldable pub decode_query_id_request : ByteBuffer → Result LeKeyQueryIdRequestPayload
decode_query_id_request bytes =
    if length bytes != 4
    then err "LEKeyQueryID request payload must be 4 bytes"
    else do key_id ← decode_be_u32 bytes 0; ok (record { key_id = key_id })

unfoldable pub encode_query_id_response : LeKeyQueryIdResponsePayload → ByteBuffer
encode_query_id_response payload = flag_byte payload.key_present ∷ []

unfoldable pub decode_query_id_response : ByteBuffer → Result LeKeyQueryIdResponsePayload
decode_query_id_response bytes =
    if length bytes != 1
    then err "LEKeyQueryID response payload must be 1 byte"
    else ok (record { key_present = get_or bytes 0 0 != 0 })

unfoldable pub encode_query_all_response : LeKeyQueryAllResponsePayload → ByteBuffer
encode_query_all_response payload = encode_u32_batch payload.key_ids

unfoldable pub decode_query_all_response : ByteBuffer → Result LeKeyQueryAllResponsePayload
decode_query_all_response bytes = do
  key_ids ← decode_u32_batch bytes
  ok (record { key_ids = key_ids })

unfoldable pub encode_purge_id_request : LeKeyPurgeIdRequestPayload → ByteBuffer
encode_purge_id_request payload = append_be_u32 [] payload.key_id

unfoldable pub decode_purge_id_request : ByteBuffer → Result LeKeyPurgeIdRequestPayload
decode_purge_id_request bytes =
    if length bytes != 4
    then err "LEKeyPurgeID request payload must be 4 bytes"
    else do key_id ← decode_be_u32 bytes 0; ok (record { key_id = key_id })

unfoldable pub encode_purge_id_response : LeKeyPurgeIdResponsePayload → ByteBuffer
encode_purge_id_response payload = flag_byte payload.no_key_id ∷ []

unfoldable pub decode_purge_id_response : ByteBuffer → Result LeKeyPurgeIdResponsePayload
decode_purge_id_response bytes =
    if length bytes != 1
    then err "LEKeyPurgeID response payload must be 1 byte"
    else ok (record { no_key_id = get_or bytes 0 0 != 0 })
