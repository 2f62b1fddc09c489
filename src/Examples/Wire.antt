-- ===== src/Examples/Wire.antt =====
-- Words, KLV packets, requests and responses.
use iso26430_6_asm_prototype.Base.{◌≡◌, ◌↔◌, refl, inr, false, [], ◌∷◌, arith, take, ok, err}
use iso26430_6_asm_prototype.Common.{le_key_query_id}
use iso26430_6_asm_prototype.BigEndian.{decode_be_u32}
use iso26430_6_asm_prototype.Klv
use iso26430_6_asm_prototype.Klv.{KlvPacket}
use iso26430_6_asm_prototype.Klv.RoundTrip.{IsPacket, encode-decode}
use iso26430_6_asm_prototype.Klv.Prefix.{decode-take}
use iso26430_6_asm_prototype.Codec.{
  encode_request, decode_request, encode_response, decode_response, decode_response_code,
}
use iso26430_6_asm_prototype.Codec.UlMap.{command_eq, ul_for, describe_ul}
use iso26430_6_asm_prototype.Codec.UlMap.Inverse.{describe_ul-ul_for_iff}
use iso26430_6_asm_prototype.Codec.Requests as Requests
use iso26430_6_asm_prototype.Codec.Requests.{
  decode_request-encode_request, encode_request-decode_request,
}
use iso26430_6_asm_prototype.Codec.Responses as Responses
use iso26430_6_asm_prototype.Codec.Responses.{decode_response-encode_response}
use iso26430_6_asm_prototype.Examples.Data.{
  all_bytes-IsByte, query_request, query_packet, query_message, query_response, response_packet,
}

word_read : decode_be_u32 (1 ∷ 0 ∷ 0 ∷ 1 ∷ 2 ∷ 5 ∷ []) 1 ≡ ok 258
unfolding decode_be_u32
word_read = refl

query_packet-IsPacket : IsPacket query_packet
query_packet-IsPacket = record { label = omega arith; measured = omega arith; fits = omega arith }

message_read : Klv.decode query_message ≡ ok query_packet
unfolding Klv.decode Klv.decode_ber_length
message_read = refl

message_cut : Klv.decode (take 27 query_message) ≡ err "KLV value length mismatch"
unfolding Klv.decode Klv.decode_ber_length
message_cut = refl

encode-decode_example : IsPacket query_packet × (Klv.encode query_packet ≡ ok query_message)
encode-decode_example =
    encode-decode query_message query_packet (all_bytes-IsByte query_message refl) message_read

decode-take_example : Klv.decode (take 27 query_message) ≡ err "KLV value length mismatch"
decode-take_example =
    decode-take query_packet query_message 27 query_packet-IsPacket (encode-decode_example.1)
      (omega arith) (omega arith)

describe_ul-ul_for_iff_example :
    (describe_ul query_packet.ul ≡ ok (record { command = le_key_query_id; response = false }))
    ↔ (ul_for le_key_query_id false ≡ ok query_packet.ul)
describe_ul-ul_for_iff_example =
    describe_ul-ul_for_iff query_packet.ul (record { command = le_key_query_id; response = false })

query_request-IsSendable : Requests.IsSendable query_request
query_request-IsSendable = record {
  request_only = λ e. cc;
  id_fits = omega arith;
  size_fits = omega arith;
}

request_read : decode_request query_packet ≡ ok query_request
unfolding decode_request decode_be_u32 describe_ul
request_read = refl

encode_request-decode_request_example :
    (encode_request query_request ≡ ok query_packet) × Requests.IsSendable query_request
encode_request-decode_request_example =
    encode_request-decode_request query_packet query_request query_packet-IsPacket
      (all_bytes-IsByte query_packet.value refl) request_read

query_response-IsSendable : Responses.IsSendable query_response
query_response-IsSendable = record {
  right_id = inr ((λ e. cc), (258, refl, omega arith));
  size_fits = omega arith;
}

decode_response-encode_response_example :
    (p : KlvPacket) × (encode_response query_response ≡ ok p)
    × IsPacket p
    × (decode_response p ≡ ok query_response)
decode_response-encode_response_example =
    decode_response-encode_response query_response query_response-IsSendable

response_packet-IsPacket : IsPacket response_packet
response_packet-IsPacket = record {
  label = omega arith;
  measured = omega arith;
  fits = omega arith;
}

response_read : decode_response response_packet ≡ ok query_response
unfolding decode_response decode_be_u32 describe_ul decode_response_code command_eq
response_read = refl
