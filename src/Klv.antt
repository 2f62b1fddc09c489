-- ===== src/Klv.antt =====
-- include/klv/klv.hpp and src/klv/klv.cpp: key, fixed 4-byte BER length, value. A span is the list
-- of its bytes, and `subspan` is `drop`.
pub mod Ber
pub mod RoundTrip
pub mod Prefix
use iso26430_6_asm_prototype.Base.{
  ℕ, ◌+◌, [], ◌∷◌, ◌++◌, length, get_or, take, drop, Result, ok, err, ◌>>=◌, u8, u32, shl, shr,
  bit_and, bit_or, ltb, ◌!=◌, if◌then◌else◌,
}
use iso26430_6_asm_prototype.Common.{ByteBuffer, Ul}

pub record KlvPacket : Type 0 where
  pub ul : Ul
  pub length : ℕ
  pub value : ByteBuffer

unfoldable pub encode_ber_length : ℕ → Result ByteBuffer
encode_ber_length size =
    if ltb 0x00ffffff size
    then err "KLV length exceeds fixed 3-byte BER payload"
    else ok (
        0x83
        ∷ u8 (bit_and (shr size 16) 0xff)
        ∷ u8 (bit_and (shr size 8) 0xff)
        ∷ u8 (bit_and size 0xff)
        ∷ [])

-- The length and the number of bytes consumed.
unfoldable pub decode_ber_length : ByteBuffer → Result (ℕ × ℕ)
decode_ber_length bytes =
    if ltb (length bytes) 4
    then err "missing BER length"
    else if get_or bytes 0 0 != 0x83
    then err "invalid fixed BER length header"
    else ok (
      bit_or (bit_or (u32 (shl (get_or bytes 1 0) 16)) (u32 (shl (get_or bytes 2 0) 8)))
          (get_or bytes 3 0),
      4,
    )

unfoldable pub encode : KlvPacket → Result ByteBuffer
encode packet =
    if length packet.value != packet.length then err "KLV packet length/value mismatch" else do
      encoded_length ← encode_ber_length packet.length
      ok ((packet.ul ++ encoded_length) ++ packet.value)

unfoldable pub decode : ByteBuffer → Result KlvPacket
decode bytes = if ltb (length bytes) 17 then err "KLV packet too short" else do
  (size, consumed) ← decode_ber_length (drop 16 bytes)
  let value_offset = 16 + consumed
  if length bytes != value_offset + size
      then err "KLV value length mismatch"
      else ok (record { ul = take 16 bytes; length = size; value = drop value_offset bytes })
