-- ===== src/BigEndian/Wide.antt =====
-- The 64-bit reader on any bytes.
use iso26430_6_asm_prototype.Base.{
  ap, sym, ◌∙◌, All-take, ℕ, ◌+◌, ◌*◌, ◌^◌, ◌≡◌, [], ◌∷◌, ◌++◌, arith, drop, ok, All, IsByte, IsU64,
  ◌<◌,
}
use mathlib.Core.Path.{ap₂}
use iso26430_6_asm_prototype.Common.{ByteBuffer}
use iso26430_6_asm_prototype.BigEndian.{decode_be_u64}
use iso26430_6_asm_prototype.BigEndian.Words.{be_u64, be_u32, or_byte, four_bytes}

-- The two halves of a word: no `be_u64` of a long sum has to be computed.
abbrev word : ℕ → ℕ → ℕ → ℕ → ℕ
word a b c d = a * 2 ^ 24 + b * 2 ^ 16 + c * 2 ^ 8 + d

halves :
    (hi lo : ℕ) → hi < 2 ^ 32 → lo < 2 ^ 32 → be_u64 (hi * 2 ^ 32 + lo) ≡ be_u32 hi ++ be_u32 lo
halves hi lo h l = ground arith

decode_be_u64_front :
    (a b c d e f g h : ℕ) (rest : ByteBuffer)
    → All IsByte (a ∷ b ∷ c ∷ d ∷ e ∷ f ∷ g ∷ h ∷ rest)
    → decode_be_u64 (a ∷ b ∷ c ∷ d ∷ e ∷ f ∷ g ∷ h ∷ rest) 0
      ≡ ok (word a b c d * 2 ^ 32 + word e f g h)
unfolding decode_be_u64
decode_be_u64_front a b c d e f g h rest (ha, (hb, (hc, (hd, (he, (hf, (hg, (hh, hr)))))))) =
    rw
      (
        or_byte 0 a (omega arith) ha,
        or_byte (0 * 256 + a) b (omega arith) hb,
        or_byte ((0 * 256 + a) * 256 + b) c (omega arith) hc,
        or_byte (((0 * 256 + a) * 256 + b) * 256 + c) d (omega arith) hd,
        or_byte ((((0 * 256 + a) * 256 + b) * 256 + c) * 256 + d) e (omega arith) he,
        or_byte (((((0 * 256 + a) * 256 + b) * 256 + c) * 256 + d) * 256 + e) f (omega arith) hf,
        or_byte ((((((0 * 256 + a) * 256 + b) * 256 + c) * 256 + d) * 256 + e) * 256 + f) g
            (omega arith) hg,
        or_byte
            (((((((0 * 256 + a) * 256 + b) * 256 + c) * 256 + d) * 256 + e) * 256 + f) * 256 + g) h
            (omega arith) hh,
      )
      (ground arith)

word_bytes :
    (a b c d e f g h : ℕ)
    → All IsByte (a ∷ b ∷ c ∷ d ∷ e ∷ f ∷ g ∷ h ∷ [])
    → IsU64 (word a b c d * 2 ^ 32 + word e f g h)
      × (be_u64 (word a b c d * 2 ^ 32 + word e f g h) ≡ a ∷ b ∷ c ∷ d ∷ e ∷ f ∷ g ∷ h ∷ [])
word_bytes a b c d e f g h (ha, (hb, (hc, (hd, (he, (hf, (hg, (hh, _)))))))) = (
  omega arith,
  halves (word a b c d) (word e f g h) (omega arith) (omega arith)
      ∙ ap₂ ◌++◌ (four_bytes a b c d ha hb hc hd) (four_bytes e f g h he hf hg hh),
)

-- A read that succeeds has seen the bytes of a 64-bit word.
pub decode_be_u64-inverse :
    (bytes : ByteBuffer) (v : ℕ)
    → All IsByte bytes
    → decode_be_u64 bytes 0 ≡ ok v
    → IsU64 v × (bytes ≡ be_u64 v ++ drop 8 bytes)
decode_be_u64-inverse [] v h e = unfold decode_be_u64 in ground arith
decode_be_u64-inverse (a ∷ []) v h e = unfold decode_be_u64 in ground arith
decode_be_u64-inverse (a ∷ b ∷ []) v h e = unfold decode_be_u64 in ground arith
decode_be_u64-inverse (a ∷ b ∷ c ∷ []) v h e = unfold decode_be_u64 in ground arith
decode_be_u64-inverse (a ∷ b ∷ c ∷ d ∷ []) v h e = unfold decode_be_u64 in ground arith
decode_be_u64-inverse (a ∷ b ∷ c ∷ d ∷ e ∷ []) v h p = unfold decode_be_u64 in ground arith
decode_be_u64-inverse (a ∷ b ∷ c ∷ d ∷ e ∷ f ∷ []) v h p = unfold decode_be_u64 in ground arith
decode_be_u64-inverse (a ∷ b ∷ c ∷ d ∷ e ∷ f ∷ g ∷ []) v h p = unfold decode_be_u64 in ground arith
decode_be_u64-inverse (a ∷ b ∷ c ∷ d ∷ e ∷ f ∷ g ∷ h ∷ rest) v bytes p =
    let value : ok (word a b c d * 2 ^ 32 + word e f g h) ≡ ok v =
      sym (decode_be_u64_front a b c d e f g h rest bytes) ∙ p in
    let same : word a b c d * 2 ^ 32 + word e f g h ≡ v = cc in
    let (fits, spelt) =
      word_bytes a b c d e f g h (All-take IsByte 8 (a ∷ b ∷ c ∷ d ∷ e ∷ f ∷ g ∷ h ∷ rest) bytes) in
    (omega arith, ap (λ l. l ++ rest) (sym spelt) ∙ ap (λ w. be_u64 w ++ rest) same)
