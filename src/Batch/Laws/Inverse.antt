-- ===== src/Batch/Laws/Inverse.antt =====
-- A buffer that decodes to a batch is the batch, written again.
use iso26430_6_asm_prototype.Base.{
  ℕ, zero, suc, ◌+◌, ◌*◌, ◌≡◌, sym, refl, ap, ◌∙◌, List, [], ◌∷◌, ◌++◌, append-nil, append_assoc,
  arith, length, drop, drop-drop, drop_all, All, All-drop, Result, ok, IsByte, IsU32, Result-cases,
  inl, inr, ◌>>=◌,
}
use iso26430_6_asm_prototype.Common.{ByteBuffer}
use iso26430_6_asm_prototype.BigEndian.{decode_be_u32}
use iso26430_6_asm_prototype.BigEndian.Words.{decode_be_u32-drop, decode_be_u32-inverse}
use iso26430_6_asm_prototype.Batch.{Messages, decode_items, decode_batch}
use iso26430_6_asm_prototype.Batch.Laws.{IsItemCodec, spell_all, spell_batch}

module _ {A : Type 0} (width : ℕ) (append : ByteBuffer → A → ByteBuffer)
    (read : ByteBuffer → ℕ → Result A) (spell : A → ByteBuffer) (Fits : A → Type 0)
    (laws : IsItemCodec width append read spell Fits) where
  -- The items that a run of the loop has read, and the bytes that they stand for.
  record Reads (n i : ℕ) (bytes : ByteBuffer) (out result : List A) : Type 0 where
    items : List A
    appended : result ≡ out ++ items
    counted : length items ≡ n
    fitting : All Fits items
    spelt :
        drop (8 + i * width) bytes ≡ spell_all width spell items ++ drop (8 + (i + n) * width) bytes

  decode_items-Reads :
      (n i : ℕ) (bytes : ByteBuffer) (out result : List A)
      → All IsByte bytes
      → decode_items read width n i bytes out ≡ ok result
      → Reads n i bytes out result
  unfolding decode_items spell_all
  decode_items-Reads zero i bytes out result h e = record {
    items = [];
    appended = ground (arith, append-nil out);
    counted = refl;
    fitting = tt;
    spelt = let same : i + 0 ≡ i = omega arith in rw same;
  }
  decode_items-Reads (suc n) i bytes out result h e =
      elim (Result-cases (read bytes (8 + i * width))) [
        | inl (x, r) ↦
            let (hx, front) =
              laws.read_inverse (drop (8 + i * width) bytes) x
                (All-drop IsByte (8 + i * width) bytes h)
                (sym (laws.read_at bytes (8 + i * width)) ∙ r) in
            let rest =
              decode_items-Reads n (i + 1) bytes (out ++ (x ∷ [])) result h (rw (r, ◌>>=◌) at e) in
            let further : 8 + (i + 1) * width ≡ 8 + i * width + width = omega arith in
            let last : 8 + (i + 1 + n) * width ≡ 8 + (i + suc n) * width = omega arith in
            record {
              items = x ∷ rest.items;
              appended = rest.appended ∙ append_assoc out (x ∷ []) rest.items;
              counted = ap suc rest.counted;
              fitting = (hx, rest.fitting);
              spelt =
                  front
                  ∙ ap (◌++◌ (spell x)) (
                      drop-drop width (8 + i * width) bytes
                      ∙ rw (← further) (
                          rest.spelt
                          ∙ ap (λ k. spell_all width spell rest.items ++ drop k bytes) last))
                  ∙ sym (
                      append_assoc (spell x) (spell_all width spell rest.items)
                        (drop (8 + (i + suc n) * width) bytes));
            }
        | inr (m, r) ↦ ground arith
      ]

  assemble :
      (bytes : ByteBuffer) (items found : List A)
      → items ≡ found
      → IsU32 (length found)
      → All Fits found
      → spell_batch width spell found ≡ bytes
      → IsU32 (length items) × All Fits items × (spell_batch width spell items ≡ bytes)
  assemble bytes items found same counted fitting whole = rw same (counted, fitting, whole)

  -- Bytes that decode are the bytes of the items, whose number fits 32 bits.
  pub decode_batch-inverse :
      (messages : Messages) (bytes : ByteBuffer) (items : List A)
      → All IsByte bytes
      → decode_batch messages width read bytes ≡ ok items
      → IsU32 (length items) × All Fits items × (spell_batch width spell items ≡ bytes)
  unfolding decode_batch spell_batch
  decode_batch-inverse messages bytes items h e = elim (Result-cases (decode_be_u32 bytes 0)) [
    | inl (count, c) ↦ elim (Result-cases (decode_be_u32 bytes 4)) [
      | inl (item_length, l) ↦
          let (count_fits, front) = decode_be_u32-inverse bytes count h c in
          let (_, second) =
            decode_be_u32-inverse (drop 4 bytes) item_length (All-drop IsByte 4 bytes h)
              (sym (decode_be_u32-drop bytes 4) ∙ l) in
          let run : decode_items read width count 0 bytes [] ≡ ok items = ground arith in
          let sized : length bytes ≡ 8 + count * width = ground arith in
          let right : item_length ≡ width = ground arith in
          let all = decode_items-Reads count 0 bytes [] items h run in
          let the_end : drop (8 + (0 + count) * width) bytes ≡ [] =
            drop_all (8 + (0 + count) * width) bytes (omega arith) in
          let body : drop 8 bytes ≡ spell_all width spell all.items =
            ground (arith, all.spelt, the_end, append-nil (spell_all width spell all.items)) in
          let whole : spell_batch width spell all.items ≡ bytes =
            ground (arith, all.counted, drop-drop 4 4 bytes) in
          assemble bytes items all.items all.appended (omega (arith, all.counted)) all.fitting whole
      | inr (m, r) ↦ absurd (ground arith)
    ]
    | inr (m, r) ↦ absurd (ground arith)
  ]
