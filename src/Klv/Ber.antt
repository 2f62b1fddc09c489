-- ===== src/Klv/Ber.antt =====
-- The fixed BER length field in plain arithmetic: 0x83 and three bytes, highest first.
use iso26430_6_asm_prototype.Base.{
  ℕ, ◌+◌, ◌*◌, ◌/◌, ◌%◌, ◌^◌, ◌≤◌, ◌≡◌, [], ◌∷◌, ◌++◌, arith, drop, ok, All, IsByte, u32, shl,
  bit_or,
}
use iso26430_6_asm_prototype.Base.Bits.{bit_or-shl, bit_and_low_byte}
use iso26430_6_asm_prototype.Common.{ByteBuffer}
use iso26430_6_asm_prototype.Klv.{encode_ber_length, decode_ber_length}

abbrev pub max_length : ℕ
max_length = 0x00ff_ffff

abbrev pub ber : ℕ → ByteBuffer
ber size = 0x83 ∷ (size / 2 ^ 16 % 256) ∷ (size / 2 ^ 8 % 256) ∷ (size % 256) ∷ []

pub encode_ber_length-ber : (size : ℕ) → size ≤ max_length → encode_ber_length size ≡ ok (ber size)
unfolding encode_ber_length
encode_ber_length-ber size h = ground (
  arith,
  bit_and_low_byte (size / 2 ^ 16),
  bit_and_low_byte (size / 2 ^ 8),
  bit_and_low_byte size,
)

or_bytes :
    (a b c : ℕ)
    → IsByte a
    → IsByte b
    → IsByte c
    → bit_or (bit_or (u32 (shl a 16)) (u32 (shl b 8))) c ≡ a * 2 ^ 16 + b * 2 ^ 8 + c
or_bytes a b c ha hb hc =
    let ea : u32 (shl a 16) ≡ shl a 16 = omega arith in
    let eb : u32 (shl b 8) ≡ shl b 8 = omega arith in
    let ab : a * 2 ^ 16 + shl b 8 ≡ shl (a * 2 ^ 8 + b) 8 = omega arith in
    rw
      (
        ea,
        eb,
        bit_or-shl 16 a (shl b 8) (omega arith),
        ab,
        bit_or-shl 8 (a * 2 ^ 8 + b) c (omega arith),
      )
      (omega arith)

decode_ber_length_front :
    (a b c : ℕ) (rest : ByteBuffer)
    → IsByte a
    → IsByte b
    → IsByte c
    → decode_ber_length (0x83 ∷ a ∷ b ∷ c ∷ rest) ≡ ok (a * 2 ^ 16 + b * 2 ^ 8 + c, 4)
unfolding decode_ber_length
decode_ber_length_front a b c rest ha hb hc = ground (arith, or_bytes a b c)

pub decode_ber_length-ber :
    (size : ℕ) (rest : ByteBuffer)
    → size ≤ max_length
    → decode_ber_length (ber size ++ rest) ≡ ok (size, 4)
decode_ber_length-ber size rest h =
    ground
      (arith, decode_ber_length_front (size / 2 ^ 16 % 256) (size / 2 ^ 8 % 256) (size % 256) rest)

three_bytes :
    (a b c : ℕ)
    → IsByte a
    → IsByte b
    → IsByte c
    → ber (a * 2 ^ 16 + b * 2 ^ 8 + c) ≡ 0x83 ∷ a ∷ b ∷ c ∷ []
three_bytes a b c ha hb hc = ground arith

pub decode_ber_length-inverse :
    (bytes : ByteBuffer) (size consumed : ℕ)
    → All IsByte bytes
    → decode_ber_length bytes ≡ ok (size, consumed)
    → (consumed ≡ 4) × (size ≤ max_length) × (bytes ≡ ber size ++ drop 4 bytes)
decode_ber_length-inverse [] n k h e = unfold decode_ber_length in ground arith
decode_ber_length-inverse (m ∷ []) n k h e = unfold decode_ber_length in ground arith
decode_ber_length-inverse (m ∷ a ∷ []) n k h e = unfold decode_ber_length in ground arith
decode_ber_length-inverse (m ∷ a ∷ b ∷ []) n k h e = unfold decode_ber_length in ground arith
decode_ber_length-inverse (m ∷ a ∷ b ∷ c ∷ rest) n k (hm, (ha, (hb, (hc, hr)))) e =
    unfold decode_ber_length in ground (arith, or_bytes a b c, three_bytes a b c)
