-- ===== src/BigEndian/Words.antt =====
-- What the readers and writers do in plain arithmetic: the bytes of a word, highest first, and the
-- word that some bytes spell.
use iso26430_6_asm_prototype.Base.{
  ℕ, ◌+◌, ◌*◌, ◌/◌, ◌%◌, ◌^◌, ◌<◌, ◌≡◌, [], ◌∷◌, ◌++◌, append_assoc, arith, drop, length-drop,
  get_or-drop, ok, All, IsByte, IsU32, IsU64, shl, u32, u64, shr, bit_or,
}
use iso26430_6_asm_prototype.Base.Bits.{bit_or-shl, bit_and_low_byte}
use iso26430_6_asm_prototype.Common.{ByteBuffer}
use iso26430_6_asm_prototype.BigEndian.{
  push_back, append_be_u32, append_be_u64, decode_be_u32, decode_be_u64,
}

abbrev pub be_u32 : ℕ → ByteBuffer
be_u32 v = (v / 2 ^ 24 % 256) ∷ (v / 2 ^ 16 % 256) ∷ (v / 2 ^ 8 % 256) ∷ (v % 256) ∷ []

abbrev pub be_u64 : ℕ → ByteBuffer
be_u64 v =
    (v / 2 ^ 56 % 256) ∷ (v / 2 ^ 48 % 256) ∷ (v / 2 ^ 40 % 256) ∷ (v / 2 ^ 32 % 256) ∷ be_u32 v

byte_twice : (a : ℕ) → a % 256 % 256 ≡ a % 256
byte_twice a = omega arith

pub append_be_u32-be_u32 : (out : ByteBuffer) (v : ℕ) → append_be_u32 out v ≡ out ++ be_u32 v
unfolding append_be_u32
append_be_u32-be_u32 out v = simp (append_assoc, bit_and_low_byte, byte_twice)

shr_zero : (a : ℕ) → shr a 0 ≡ a
shr_zero a = omega arith

pub append_be_u64-be_u64 : (out : ByteBuffer) (v : ℕ) → append_be_u64 out v ≡ out ++ be_u64 v
unfolding append_be_u64 push_back
append_be_u64-be_u64 out v = simp (append_assoc, bit_and_low_byte, byte_twice, shr_zero)

-- `|` of four shifted bytes.
or_bytes :
    (a b c d : ℕ)
    → IsByte a
    → IsByte b
    → IsByte c
    → IsByte d
    → bit_or (bit_or (bit_or (u32 (shl a 24)) (u32 (shl b 16))) (u32 (shl c 8))) d
      ≡ a * 2 ^ 24 + b * 2 ^ 16 + c * 2 ^ 8 + d
or_bytes a b c d ha hb hc hd =
    let ea : u32 (shl a 24) ≡ shl a 24 = omega arith in
    let eb : u32 (shl b 16) ≡ shl b 16 = omega arith in
    let ec : u32 (shl c 8) ≡ shl c 8 = omega arith in
    let ab : a * 2 ^ 24 + shl b 16 ≡ shl (a * 2 ^ 8 + b) 16 = omega arith in
    let abc : (a * 2 ^ 8 + b) * 2 ^ 16 + shl c 8 ≡ shl ((a * 2 ^ 8 + b) * 2 ^ 8 + c) 8 =
      omega arith in
    rw
      (
        ea,
        eb,
        ec,
        bit_or-shl 24 a (shl b 16) (omega arith),
        ab,
        bit_or-shl 16 (a * 2 ^ 8 + b) (shl c 8) (omega arith),
        abc,
        bit_or-shl 8 ((a * 2 ^ 8 + b) * 2 ^ 8 + c) d (omega arith),
      )
      (omega arith)

-- One round of the 64-bit reader.
pub or_byte : (v b : ℕ) → v < 2 ^ 56 → IsByte b → bit_or (u64 (shl v 8)) b ≡ v * 256 + b
or_byte v b hv hb =
    let e : u64 (shl v 8) ≡ shl v 8 = omega arith in rw e (bit_or-shl 8 v b (omega arith))

-- A read at an offset is a read at the front of what follows it.
pub decode_be_u32-drop :
    (bytes : ByteBuffer) (offset : ℕ)
    → decode_be_u32 bytes offset ≡ decode_be_u32 (drop offset bytes) 0
unfolding decode_be_u32
decode_be_u32-drop bytes offset = ground (
  arith,
  length-drop offset bytes,
  get_or-drop offset 0 bytes 0,
  get_or-drop offset 1 bytes 0,
  get_or-drop offset 2 bytes 0,
  get_or-drop offset 3 bytes 0,
)

pub decode_be_u32_front :
    (a b c d : ℕ) (rest : ByteBuffer)
    → IsByte a
    → IsByte b
    → IsByte c
    → IsByte d
    → decode_be_u32 (a ∷ b ∷ c ∷ d ∷ rest) 0 ≡ ok (a * 2 ^ 24 + b * 2 ^ 16 + c * 2 ^ 8 + d)
unfolding decode_be_u32
decode_be_u32_front a b c d rest ha hb hc hd = ground (arith, or_bytes a b c d)

-- Reading back a written word, with anything behind it.
pub decode_be_u32-be_u32 :
    (v : ℕ) (rest : ByteBuffer) → IsU32 v → decode_be_u32 (be_u32 v ++ rest) 0 ≡ ok v
decode_be_u32-be_u32 v rest h = ground (
  arith,
  decode_be_u32_front (v / 2 ^ 24 % 256) (v / 2 ^ 16 % 256) (v / 2 ^ 8 % 256) (v % 256) rest,
)

or_low_byte :
    (hi word : ℕ) → hi ≡ word / 256 → word < 2 ^ 64 → bit_or (u64 (shl hi 8)) (word % 256) ≡ word
or_low_byte hi word e h = omega (arith, or_byte hi (word % 256) (omega arith) (omega arith))

pub decode_be_u64-be_u64 :
    (v : ℕ) (rest : ByteBuffer) → IsU64 v → decode_be_u64 (be_u64 v ++ rest) 0 ≡ ok v
unfolding decode_be_u64
decode_be_u64-be_u64 v rest h =
    rw
      (
        or_low_byte 0 (v / 2 ^ 56) (omega arith) (omega arith),
        or_low_byte (v / 2 ^ 56) (v / 2 ^ 48) (omega arith) (omega arith),
        or_low_byte (v / 2 ^ 48) (v / 2 ^ 40) (omega arith) (omega arith),
        or_low_byte (v / 2 ^ 40) (v / 2 ^ 32) (omega arith) (omega arith),
        or_low_byte (v / 2 ^ 32) (v / 2 ^ 24) (omega arith) (omega arith),
        or_low_byte (v / 2 ^ 24) (v / 2 ^ 16) (omega arith) (omega arith),
        or_low_byte (v / 2 ^ 16) (v / 2 ^ 8) (omega arith) (omega arith),
        or_low_byte (v / 2 ^ 8) v (omega arith) (omega arith),
      )
      (ground arith)

-- The bytes that a successful read has seen are those of the word.
pub four_bytes :
    (a b c d : ℕ)
    → IsByte a
    → IsByte b
    → IsByte c
    → IsByte d
    → be_u32 (a * 2 ^ 24 + b * 2 ^ 16 + c * 2 ^ 8 + d) ≡ a ∷ b ∷ c ∷ d ∷ []
four_bytes a b c d ha hb hc hd = ground arith

pub decode_be_u32-inverse :
    (bytes : ByteBuffer) (v : ℕ)
    → All IsByte bytes
    → decode_be_u32 bytes 0 ≡ ok v
    → IsU32 v × (bytes ≡ be_u32 v ++ drop 4 bytes)
decode_be_u32-inverse [] v h e = unfold decode_be_u32 in ground arith
decode_be_u32-inverse (a ∷ []) v h e = unfold decode_be_u32 in ground arith
decode_be_u32-inverse (a ∷ b ∷ []) v h e = unfold decode_be_u32 in ground arith
decode_be_u32-inverse (a ∷ b ∷ c ∷ []) v h e = unfold decode_be_u32 in ground arith
decode_be_u32-inverse (a ∷ b ∷ c ∷ d ∷ rest) v (ha, (hb, (hc, (hd, hr)))) e =
    ground (arith, decode_be_u32_front a b c d rest, four_bytes a b c d)

pub decode_be_u64-drop :
    (bytes : ByteBuffer) (offset : ℕ)
    → decode_be_u64 bytes offset ≡ decode_be_u64 (drop offset bytes) 0
unfolding decode_be_u64
decode_be_u64-drop bytes offset = ground (
  arith,
  length-drop offset bytes,
  get_or-drop offset 0 bytes 0,
  get_or-drop offset 1 bytes 0,
  get_or-drop offset 2 bytes 0,
  get_or-drop offset 3 bytes 0,
  get_or-drop offset 4 bytes 0,
  get_or-drop offset 5 bytes 0,
  get_or-drop offset 6 bytes 0,
  get_or-drop offset 7 bytes 0,
)
