-- ===== src/Examples/Data.antt =====
-- What the examples share: a decision for lists of bytes, keys, requests and messages.
use iso26430_6_asm_prototype.Base.{
  ℕ, ◌≡◌, Bool, true, ◌&&◌, some, List, [], ◌∷◌, arith, All, IsByte, ltb,
}
use iso26430_6_asm_prototype.Common.{
  ByteBuffer, le_key_query_id, successful, StandardRequest, StandardResponse,
}
use iso26430_6_asm_prototype.Klv.{KlvPacket}
use iso26430_6_asm_prototype.LeKey.{LeKeyRecord}
use iso26430_6_asm_prototype.LeKey.Payload.Records.{IsKeyRecord}
use iso26430_6_asm_prototype.QuerySpb.{StaticQuerySpbStatusProvider}

abbrev pub all_bytes : ByteBuffer → Bool
all_bytes [] = true
all_bytes (x ∷ xs) = ltb x 256 && all_bytes xs

pub all_bytes-IsByte : (xs : ByteBuffer) → all_bytes xs ≡ true → All IsByte xs
all_bytes-IsByte [] h = tt
all_bytes-IsByte (x ∷ xs) h = (ground arith, all_bytes-IsByte xs (ground arith))

abbrev pub key_bytes : ℕ → ByteBuffer
key_bytes b = b ∷ 1 ∷ 2 ∷ 3 ∷ 4 ∷ 5 ∷ 6 ∷ 7 ∷ 8 ∷ 9 ∷ 10 ∷ 11 ∷ 12 ∷ 13 ∷ 14 ∷ 255 ∷ []

abbrev pub key : ℕ → ℕ → LeKeyRecord
key id expire = record {
  key_id = id;
  key = key_bytes 0xab;
  expire_time = expire;
  attribute_data = 0x0102_0304_0506_0708;
}

abbrev pub two_keys : List LeKeyRecord
two_keys = key 7 1776758400 ∷ key 4294967295 0 ∷ []

pub two_keys-IsKeyRecord : All IsKeyRecord two_keys
two_keys-IsKeyRecord = (
  record {
    id_fits = omega arith;
    key_size = omega arith;
    expire_fits = omega arith;
    attribute_fits = omega arith;
  },
  (
    record {
      id_fits = omega arith;
      key_size = omega arith;
      expire_fits = omega arith;
      attribute_fits = omega arith;
    },
    tt,
  ),
)

abbrev pub status_provider : StaticQuerySpbStatusProvider
status_provider = record { status = 1 }

-- A query for key 7 as request 258, and its packet.
abbrev pub query_request : StandardRequest
query_request = record { command = le_key_query_id; request_id = 258; payload = 0 ∷ 0 ∷ 0 ∷ 7 ∷ [] }

abbrev pub query_packet : KlvPacket
query_packet = record {
  ul =
      0x06 ∷ 0x0e ∷ 0x2b ∷ 0x34 ∷ 0x02 ∷ 0x05 ∷ 0x01 ∷ 0x01 ∷ 0x02 ∷ 0x07 ∷ 0x01 ∷ 0x03 ∷ 0x22
      ∷ 0x00 ∷ 0x00 ∷ 0x00 ∷ [];
  length = 8;
  value = 0 ∷ 0 ∷ 1 ∷ 2 ∷ 0 ∷ 0 ∷ 0 ∷ 7 ∷ [];
}

-- The message of that packet.
abbrev pub query_message : ByteBuffer
query_message =
    0x06 ∷ 0x0e ∷ 0x2b ∷ 0x34 ∷ 0x02 ∷ 0x05 ∷ 0x01 ∷ 0x01 ∷ 0x02 ∷ 0x07 ∷ 0x01 ∷ 0x03 ∷ 0x22 ∷ 0x00
    ∷ 0x00 ∷ 0x00 ∷ 0x83 ∷ 0 ∷ 0 ∷ 8 ∷ 0 ∷ 0 ∷ 1 ∷ 2 ∷ 0 ∷ 0 ∷ 0 ∷ 7 ∷ []

-- An answer to it that the key is there, and its packet.
abbrev pub query_response : StandardResponse
query_response = record {
  command = le_key_query_id;
  request_id = some 258;
  payload = 1 ∷ [];
  response_code = successful;
}

abbrev pub response_packet : KlvPacket
response_packet = record {
  ul =
      0x06 ∷ 0x0e ∷ 0x2b ∷ 0x34 ∷ 0x02 ∷ 0x05 ∷ 0x01 ∷ 0x01 ∷ 0x02 ∷ 0x07 ∷ 0x01 ∷ 0x03 ∷ 0x23
      ∷ 0x00 ∷ 0x00 ∷ 0x00 ∷ [];
  length = 6;
  value = 0 ∷ 0 ∷ 1 ∷ 2 ∷ 1 ∷ 0 ∷ [];
}
