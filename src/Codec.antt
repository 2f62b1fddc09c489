-- ===== src/Codec.antt =====
-- include/asm/codec.hpp and src/asm/codec.cpp: request and response packets over the table of
-- universal labels, which is in Codec/UlMap.
pub mod UlMap
pub mod Requests
pub mod Responses
use iso26430_6_asm_prototype.Base.{
  ℕ, ◌-◌, true, false, not, none, some, [], ◌++◌, length, get_or, take, drop, Result, ok, err,
  ◌>>=◌, u32, ltb, ◌==◌, if◌then◌else◌,
}
use iso26430_6_asm_prototype.Common.{
  ByteBuffer, Command, bad_request, GeneralResponse, successful, failed, invalid, busy,
  response_byte, StandardRequest, StandardResponse,
}
use iso26430_6_asm_prototype.BigEndian.{append_be_u32, decode_be_u32, push_back}
use iso26430_6_asm_prototype.Klv.{KlvPacket}
use UlMap.{CommandDescriptor, command_eq, describe_ul, ul_for}

unfoldable pub decode_response_code : ℕ → Result GeneralResponse
decode_response_code value =
    if value == 0x00
    then ok successful
    else if value == 0x01
    then ok failed
    else if value == 0x02
    then ok invalid
    else if value == 0x03
    then ok busy
    else err "invalid general response code"

unfoldable pub encode_request : StandardRequest → Result KlvPacket
encode_request request = do
  ul ← ul_for request.command false
  let value = append_be_u32 [] request.request_id ++ request.payload
  ok (record { ul = ul; length = u32 (length value); value = value })

unfoldable pub decode_request : KlvPacket → Result StandardRequest
decode_request packet = do
  descriptor ← describe_ul packet.ul
  if descriptor.response
      then err "request packet expected"
      else if ltb (length packet.value) 4
      then err "request payload too short for request id"
      else do
        request_id ← decode_be_u32 packet.value 0
        ok (record {
          command = descriptor.command;
          request_id = request_id;
          payload = drop 4 packet.value;
        })

-- The id that stands before the payload in every response but BadRequest.
pub response_prefix : StandardResponse → Result ByteBuffer
response_prefix response =
    if command_eq response.command bad_request then ok [] else elim response.request_id [
      | none ↦ err "response request id missing"
      | some id ↦ ok (append_be_u32 [] id)
    ]

unfoldable pub encode_response : StandardResponse → Result KlvPacket
unfolding response_prefix
encode_response response = do
  ul ← ul_for response.command true
  prefix ← response_prefix response
  let value = push_back (prefix ++ response.payload) (response_byte response.response_code)
  ok (record { ul = ul; length = u32 (length value); value = value })

-- `value.back()` and `value.begin(), value.end() - 1`, of a value that is not empty.
abbrev pub back : ByteBuffer → ℕ
back value = get_or value (length value - 1) 0

abbrev pub but_last : ByteBuffer → ByteBuffer
but_last value = take (length value - 1) value

unfoldable pub decode_response : KlvPacket → Result StandardResponse
decode_response packet = do
  descriptor ← describe_ul packet.ul
  if not descriptor.response
      then err "response packet expected"
      else if length packet.value == 0
      then err "response payload too short"
      else do
        code ← decode_response_code (back packet.value)
        if command_eq descriptor.command bad_request
            then ok (record {
              command = descriptor.command;
              request_id = none;
              payload = but_last packet.value;
              response_code = code;
            })
            else if ltb (length packet.value) 5
            then err "response payload too short for request id"
            else do
              id ← decode_be_u32 packet.value 0
              ok (record {
                command = descriptor.command;
                request_id = some id;
                payload = drop 4 (but_last packet.value);
                response_code = code;
              })
