-- ===== src/EventLog/Payload.antt =====
-- The payload codecs of src/asm/event_log.cpp.
pub mod RoundTrip
use iso26430_6_asm_prototype.Base.{
  ℕ, List, [], length, Result, ok, err, ◌>>=◌, ◌!=◌, if◌then◌else◌, Text,
}
use iso26430_6_asm_prototype.Common.{ByteBuffer}
use iso26430_6_asm_prototype.BigEndian.{append_be_u32, decode_be_u32}
use iso26430_6_asm_prototype.Batch.{Messages, encode_batch, decode_batch}

pub record GetEventListRequestPayload : Type 0 where
  pub time_start : ℕ
  pub time_stop : ℕ

pub record GetEventListResponsePayload : Type 0 where
  pub event_ids : List ℕ

pub record GetEventIdRequestPayload : Type 0 where
  pub event_id : ℕ

pub record GetEventIdResponsePayload : Type 0 where
  pub log_record_xml : Text

unfoldable pub encode_u32_batch : List ℕ → ByteBuffer
encode_u32_batch values = encode_batch 4 append_be_u32 values

abbrev pub messages : Messages
messages = record {
  too_short = "batch payload too short";
  wrong_item = "unexpected batch item length";
  wrong_size = "batch payload size mismatch";
}

unfoldable pub decode_u32_batch : ByteBuffer → Result (List ℕ)
decode_u32_batch bytes = decode_batch messages 4 decode_be_u32 bytes

unfoldable pub encode_list_request : GetEventListRequestPayload → ByteBuffer
encode_list_request payload = append_be_u32 (append_be_u32 [] payload.time_start) payload.time_stop

unfoldable pub decode_list_request : ByteBuffer → Result GetEventListRequestPayload
decode_list_request bytes =
    if length bytes != 8 then err "GetEventList request payload must be 8 bytes" else do
      time_start ← decode_be_u32 bytes 0
      time_stop ← decode_be_u32 bytes 4
      ok (record { time_start = time_start; time_stop = time_stop })

unfoldable pub encode_list_response : GetEventListResponsePayload → ByteBuffer
encode_list_response payload = encode_u32_batch payload.event_ids

unfoldable pub decode_list_response : ByteBuffer → Result GetEventListResponsePayload
decode_list_response bytes = do
  event_ids ← decode_u32_batch bytes
  ok (record { event_ids = event_ids })

unfoldable pub encode_id_request : GetEventIdRequestPayload → ByteBuffer
encode_id_request payload = append_be_u32 [] payload.event_id

unfoldable pub decode_id_request : ByteBuffer → Result GetEventIdRequestPayload
decode_id_request bytes =
    if length bytes != 4
    then err "GetEventID request payload must be 4 bytes"
    else do event_id ← decode_be_u32 bytes 0; ok (record { event_id = event_id })

-- The characters of the text are the bytes of the payload, and the other way round.
unfoldable pub encode_id_response : GetEventIdResponsePayload → ByteBuffer
encode_id_response payload = payload.log_record_xml

unfoldable pub decode_id_response : ByteBuffer → Result GetEventIdResponsePayload
decode_id_response bytes = ok (record { log_record_xml = bytes })
