-- ===== src/Batch/Laws.antt =====
-- A batch is read back as it was written, for any item that is.
pub mod Inverse
use iso26430_6_asm_prototype.Base.{
  ℕ, zero, suc, ◌+◌, ◌*◌, ◌^◌, ◌<◌, ◌≡◌, sym, refl, ap, ◌∙◌, List, [], ◌∷◌, ◌++◌, append-nil,
  append_assoc, arith, length, drop, length-append, drop-append_at, drop-drop, All, All-drop,
  Result, ok, IsByte, IsU32, Result-cases, inl, inr, u32, err, ◌>>=◌,
}
use iso26430_6_asm_prototype.Common.{ByteBuffer}
use iso26430_6_asm_prototype.BigEndian.{append_be_u32, decode_be_u32}
use iso26430_6_asm_prototype.BigEndian.Words.{
  be_u32, append_be_u32-be_u32, decode_be_u32-be_u32, decode_be_u32-drop, decode_be_u32-inverse,
}
use iso26430_6_asm_prototype.Batch.{
  Messages, append_items, encode_batch, decode_items, decode_batch,
}

-- What a batch needs of its items: the bytes of one, and that `read` and `append` go by them.
pub record IsItemCodec {A : Type 0} (width : ℕ) (append : ByteBuffer → A → ByteBuffer)
    (read : ByteBuffer → ℕ → Result A) (spell : A → ByteBuffer) (Fits : A → Type 0) : Type 0 where
  pub append_spells : (out : ByteBuffer) (item : A) → append out item ≡ out ++ spell item
  pub spelt_width : (item : A) → Fits item → length (spell item) ≡ width
  pub read_at : (bytes : ByteBuffer) (offset : ℕ) → read bytes offset ≡ read (drop offset bytes) 0
  pub read_spelt :
      (item : A) (rest : ByteBuffer) → Fits item → read (spell item ++ rest) 0 ≡ ok item
  pub read_inverse :
      (bytes : ByteBuffer) (item : A)
      → All IsByte bytes
      → read bytes 0 ≡ ok item
      → Fits item × (bytes ≡ spell item ++ drop width bytes)

module _ {A : Type 0} (width : ℕ) (spell : A → ByteBuffer) where
  pub spell_all : List A → ByteBuffer
  spell_all [] = []
  spell_all (x ∷ xs) = spell x ++ spell_all xs

  -- The bytes of a batch.
  pub spell_batch : List A → ByteBuffer
  spell_batch items = be_u32 (length items) ++ (be_u32 width ++ spell_all items)

module _ {A : Type 0} (width : ℕ) (append : ByteBuffer → A → ByteBuffer)
    (read : ByteBuffer → ℕ → Result A) (spell : A → ByteBuffer) (Fits : A → Type 0)
    (laws : IsItemCodec width append read spell Fits) where
  append_items-spell_all :
      (items : List A) (out : ByteBuffer)
      → append_items append out items ≡ out ++ spell_all width spell items
  unfolding append_items spell_all
  append_items-spell_all [] out = sym (append-nil out)
  append_items-spell_all (x ∷ xs) out =
      append_items-spell_all xs (append out x)
      ∙ rw (laws.append_spells out x) (append_assoc out (spell x) (spell_all width spell xs))

  length-spell_all :
      (items : List A)
      → All Fits items
      → length (spell_all width spell items) ≡ length items * width
  unfolding spell_all
  length-spell_all [] h = omega arith
  length-spell_all (x ∷ xs) (hx, hxs) = omega (
    arith,
    length-append (spell x) (spell_all width spell xs),
    laws.spelt_width x hx,
    length-spell_all xs hxs,
  )

  -- Each round takes one item off what stands at its place.
  decode_items-spell_all :
      (items : List A) (i : ℕ) (bytes rest : ByteBuffer) (out : List A)
      → All Fits items
      → drop (8 + i * width) bytes ≡ spell_all width spell items ++ rest
      → decode_items read width (length items) i bytes out ≡ ok (out ++ items)
  unfolding decode_items spell_all
  decode_items-spell_all [] i bytes rest out h e = ap ok (sym (append-nil out))
  decode_items-spell_all (x ∷ xs) i bytes rest out (hx, hxs) e =
      rw (found, ◌>>=◌)
        (decode_items-spell_all xs (i + 1) bytes rest (out ++ (x ∷ [])) hxs next
          ∙ ap ok (append_assoc out (x ∷ []) xs))
    where
      found : read bytes (8 + i * width) ≡ ok x
      found =
          rw
            (
              laws.read_at bytes (8 + i * width),
              e,
              append_assoc (spell x) (spell_all width spell xs) rest,
            )
            (laws.read_spelt x (spell_all width spell xs ++ rest) hx)

      further : 8 + (i + 1) * width ≡ 8 + i * width + width
      further = omega arith

      next : drop (8 + (i + 1) * width) bytes ≡ spell_all width spell xs ++ rest
      next =
          rw
            (
              further,
              ← (drop-drop width (8 + i * width) bytes),
              e,
              append_assoc (spell x) (spell_all width spell xs) rest,
            )
            (drop-append_at width (spell x) (spell_all width spell xs ++ rest)
              (laws.spelt_width x hx))

  pub encode_batch-spell_batch :
      (items : List A)
      → IsU32 (length items)
      → encode_batch width append items ≡ spell_batch width spell items
  unfolding encode_batch spell_batch
  encode_batch-spell_batch items h =
      let same : u32 (length items) ≡ length items = omega arith in
      rw
        (
          append_items-spell_all items _,
          same,
          append_be_u32-be_u32 [] (length items),
          append_be_u32-be_u32 (be_u32 (length items)) width,
        )
        refl

  pub decode_batch-spell_batch :
      (messages : Messages) (items : List A)
      → IsU32 (length items)
      → IsU32 width
      → All Fits items
      → decode_batch messages width read (spell_batch width spell items) ≡ ok items
  unfolding decode_batch spell_batch
  decode_batch-spell_batch messages items h w fits = ground (
    arith,
    decode_be_u32-be_u32 (length items) (be_u32 width ++ spell_all width spell items) h,
    decode_be_u32-drop (spell_batch width spell items) 4,
    decode_be_u32-be_u32 width (spell_all width spell items) w,
    length-spell_all items fits,
    decode_items-spell_all items 0 (spell_batch width spell items) [] [] fits,
    append-nil (spell_all width spell items),
  )

  -- Behind a header of eight bytes, each item takes its width.
  pub length-encode_batch :
      (items : List A)
      → IsU32 (length items)
      → All Fits items
      → length (encode_batch width append items) ≡ 8 + length items * width
  unfolding spell_batch
  length-encode_batch items h fits =
      rw (encode_batch-spell_batch items h) (omega (arith, length-spell_all items fits))
