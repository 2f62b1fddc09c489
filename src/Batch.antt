-- ===== src/Batch.antt =====
-- The batches of src/asm/le_key.cpp and src/asm/event_log.cpp: a count, an item length, and that many
-- items. Both files write the same loops out, for ids and for key records; here a loop takes what it
-- appends or reads for each item.
pub mod Laws
pub mod Ids
pub mod Items
use iso26430_6_asm_prototype.Base.{
  ℕ, zero, suc, ◌+◌, ◌*◌, String, List, [], ◌∷◌, ◌++◌, length, Result, ok, err, ◌>>=◌, u32, ltb,
  ◌!=◌, if◌then◌else◌,
}
use iso26430_6_asm_prototype.Common.{ByteBuffer}
use iso26430_6_asm_prototype.BigEndian.{append_be_u32, decode_be_u32}

-- What a decoder throws: too few bytes for the header, a wrong item length, a wrong size.
pub record Messages : Type 0 where
  pub too_short : String
  pub wrong_item : String
  pub wrong_size : String

module _ {A : Type 0} where
  -- `for (const auto& item : items) { append(out, item); }`
  pub append_items : (ByteBuffer → A → ByteBuffer) → ByteBuffer → List A → ByteBuffer
  append_items append out [] = out
  append_items append out (item ∷ items) = append_items append (append out item) items

  unfoldable pub encode_batch : ℕ → (ByteBuffer → A → ByteBuffer) → List A → ByteBuffer
  unfolding append_items
  encode_batch width append items =
      append_items append (append_be_u32 (append_be_u32 [] (u32 (length items))) width) items

  -- `out.push_back(read(bytes, 8U + i * width))`, with the rounds left.
  pub decode_items : (ByteBuffer → ℕ → Result A) → ℕ → ℕ → ℕ → ByteBuffer → List A → Result (List A)
  decode_items read width zero i bytes out = ok out
  decode_items read width (suc n) i bytes out = do
    item ← read bytes (8 + i * width)
    decode_items read width n (i + 1) bytes (out ++ (item ∷ []))

  unfoldable pub decode_batch :
      Messages → ℕ → (ByteBuffer → ℕ → Result A) → ByteBuffer → Result (List A)
  unfolding decode_items
  decode_batch messages width read bytes =
      if ltb (length bytes) 8 then err messages.too_short else do
        count ← decode_be_u32 bytes 0
        item_length ← decode_be_u32 bytes 4
        if item_length != width
            then err messages.wrong_item
            else if length bytes != 8 + count * width
            then err messages.wrong_size
            else decode_items read width count 0 bytes []
