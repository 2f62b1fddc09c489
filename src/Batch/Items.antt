-- ===== src/Batch/Items.antt =====
-- What holds of every item that is read holds of a decoded batch.
use iso26430_6_asm_prototype.Base.{
  ℕ, zero, suc, ◌+◌, ◌*◌, ◌≡◌, List, [], ◌∷◌, ◌++◌, arith, All, All-append, Result, ok,
  Result-cases, inl, inr, ◌>>=◌,
}
use iso26430_6_asm_prototype.BigEndian.{decode_be_u32}
use iso26430_6_asm_prototype.Common.{ByteBuffer}
use iso26430_6_asm_prototype.Batch.{Messages, decode_items, decode_batch}

module _ {A : Type 0} (P : A → Type 0) (read : ByteBuffer → ℕ → Result A) (width : ℕ)
    (bytes : ByteBuffer) (good : (offset : ℕ) (x : A) → read bytes offset ≡ ok x → P x) where
  decode_items-All :
      (n i : ℕ) (out xs : List A)
      → All P out
      → decode_items read width n i bytes out ≡ ok xs
      → All P xs
  unfolding decode_items
  decode_items-All zero i out xs h e = let same : out ≡ xs = ground arith in rw (← same) h
  decode_items-All (suc n) i out xs h e = elim (Result-cases (read bytes (8 + i * width))) [
    | inl (x, r) ↦
        decode_items-All n (i + 1) (out ++ (x ∷ [])) xs
          (All-append P out (x ∷ []) h (good (8 + i * width) x r, tt)) (rw (r, ◌>>=◌) at e)
    | inr (m, r) ↦ absurd (ground arith)
  ]

  pub decode_batch-All :
      (messages : Messages) (xs : List A)
      → decode_batch messages width read bytes ≡ ok xs
      → All P xs
  unfolding decode_batch
  decode_batch-All messages xs e = elim (Result-cases (decode_be_u32 bytes 0)) [
    | inl (count, r) ↦ decode_items-All count 0 [] xs tt (ground (arith, r))
    | inr (m, r) ↦ absurd (ground arith)
  ]
