-- ===== src/BigEndian.antt =====
-- The big-endian readers and writers of src/asm/codec.cpp. A buffer that is appended to is passed
-- and returned. Sizes and offsets are below 2 ^ 64, so `size_t` arithmetic does not wrap. An index
-- stands behind a test that it is in range; 0 is what the model would read past the end.
pub mod Words
pub mod Wide
pub mod RoundTrip
use iso26430_6_asm_prototype.Base.{
  ℕ, zero, suc, ◌+◌, ◌*◌, [], ◌∷◌, ◌++◌, length, get_or, Result, ok, err, u8, u32, u64, shl, shr,
  bit_and, bit_or, ltb, if◌then◌else◌,
}
use iso26430_6_asm_prototype.Common.{ByteBuffer}

unfoldable pub push_back : ByteBuffer → ℕ → ByteBuffer
push_back out byte = out ++ (byte ∷ [])

-- `static_cast<std::uint8_t>((value >> shift) & 0xffU)`
abbrev pub byte_at : ℕ → ℕ → ℕ
byte_at value shift = u8 (bit_and (shr value shift) 0xff)

unfoldable pub append_be_u32 : ByteBuffer → ℕ → ByteBuffer
unfolding push_back
append_be_u32 out value =
    let out1 = push_back out (byte_at value 24) in
    let out2 = push_back out1 (byte_at value 16) in
    let out3 = push_back out2 (byte_at value 8) in push_back out3 (u8 (bit_and value 0xff))

-- The rounds left, `n`, give the shift: it is 8 * (n - 1), from 56 down to 0.
append_be_u64_loop : ℕ → ByteBuffer → ℕ → ByteBuffer
unfolding push_back
append_be_u64_loop zero out value = out
append_be_u64_loop (suc n) out value =
    append_be_u64_loop n (push_back out (byte_at value (8 * n))) value

unfoldable pub append_be_u64 : ByteBuffer → ℕ → ByteBuffer
unfolding append_be_u64_loop
append_be_u64 out value = append_be_u64_loop 8 out value

unfoldable pub decode_be_u32 : ByteBuffer → ℕ → Result ℕ
decode_be_u32 bytes offset =
    if ltb (length bytes) (offset + 4)
    then err "unexpected end of buffer while reading u32"
    else ok (
        bit_or
          (bit_or
            (bit_or (u32 (shl (get_or bytes offset 0) 24))
              (u32 (shl (get_or bytes (offset + 1) 0) 16)))
            (u32 (shl (get_or bytes (offset + 2) 0) 8)))
          (get_or bytes (offset + 3) 0))

-- The rounds left and the index `i`; `value = (value << 8U) | bytes[offset + i]`.
decode_be_u64_loop : ℕ → ℕ → ByteBuffer → ℕ → ℕ → ℕ
decode_be_u64_loop zero i bytes offset value = value
decode_be_u64_loop (suc n) i bytes offset value =
    decode_be_u64_loop n (i + 1) bytes offset
      (bit_or (u64 (shl value 8)) (get_or bytes (offset + i) 0))

unfoldable pub decode_be_u64 : ByteBuffer → ℕ → Result ℕ
unfolding decode_be_u64_loop
decode_be_u64 bytes offset =
    if ltb (length bytes) (offset + 8)
    then err "unexpected end of buffer while reading u64"
    else ok (decode_be_u64_loop 8 0 bytes offset 0)
