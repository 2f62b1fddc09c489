-- ===== src/Batch/Ids.antt =====
-- Batches of 32-bit ids, and payloads that are one id.
use iso26430_6_asm_prototype.Base.{
  ℕ, ◌+◌, ◌*◌, ◌≡◌, ◌↔◌, refl, ap, ◌∙◌, List, [], append-nil, arith, length, drop_all, All, ok,
  IsByte, IsU32, sym,
}
use iso26430_6_asm_prototype.Common.{ByteBuffer}
use iso26430_6_asm_prototype.BigEndian.{append_be_u32, decode_be_u32}
use iso26430_6_asm_prototype.BigEndian.Words.{
  be_u32, append_be_u32-be_u32, decode_be_u32-drop, decode_be_u32-be_u32, decode_be_u32-inverse,
}
use iso26430_6_asm_prototype.Batch.{Messages, encode_batch, decode_batch}
use iso26430_6_asm_prototype.Batch.Laws.{
  IsItemCodec, encode_batch-spell_batch, decode_batch-spell_batch, length-encode_batch,
}
use iso26430_6_asm_prototype.Batch.Laws.Inverse.{decode_batch-inverse}

word_laws : IsItemCodec 4 append_be_u32 decode_be_u32 be_u32 IsU32
word_laws = record {
  append_spells = append_be_u32-be_u32;
  spelt_width = λ v h. refl;
  read_at = decode_be_u32-drop;
  read_spelt = decode_be_u32-be_u32;
  read_inverse = decode_be_u32-inverse;
}

pub length-encode_ids :
    (ids : List ℕ)
    → IsU32 (length ids)
    → All IsU32 ids
    → length (encode_batch 4 append_be_u32 ids) ≡ 8 + length ids * 4
length-encode_ids ids h fits =
    length-encode_batch 4 append_be_u32 decode_be_u32 be_u32 IsU32 word_laws ids h fits

module _ (messages : Messages) where
  pub decode_ids-encode_ids :
      (ids : List ℕ)
      → IsU32 (length ids)
      → All IsU32 ids
      → decode_batch messages 4 decode_be_u32 (encode_batch 4 append_be_u32 ids) ≡ ok ids
  decode_ids-encode_ids ids h fits =
      rw (encode_batch-spell_batch 4 append_be_u32 decode_be_u32 be_u32 IsU32 word_laws ids h) (
        decode_batch-spell_batch 4 append_be_u32 decode_be_u32 be_u32 IsU32 word_laws messages ids h
          (omega arith) fits)

  pub decode_ids-inverse :
      (bytes : ByteBuffer) (ids : List ℕ)
      → All IsByte bytes
      → decode_batch messages 4 decode_be_u32 bytes ≡ ok ids
      → (encode_batch 4 append_be_u32 ids ≡ bytes) × IsU32 (length ids) × All IsU32 ids
  decode_ids-inverse bytes ids h e =
      let (counted, fits, same) =
        decode_batch-inverse 4 append_be_u32 decode_be_u32 be_u32 IsU32 word_laws messages bytes ids
          h e in
      (
        encode_batch-spell_batch 4 append_be_u32 decode_be_u32 be_u32 IsU32 word_laws ids counted
            ∙ same,
        counted,
        fits,
      )

-- Four bytes are one id.
pub single_id :
    (bytes : ByteBuffer) (id : ℕ)
    → All IsByte bytes
    → ((length bytes ≡ 4) × (decode_be_u32 bytes 0 ≡ ok id))
      ↔ ((append_be_u32 [] id ≡ bytes) × IsU32 id)
single_id bytes id h = (
  λ (four, e).
      let (fits, split) = decode_be_u32-inverse bytes id h e in
      (
        ground (arith, append_be_u32-be_u32 [] id, drop_all 4 bytes four, append-nil (be_u32 id)),
        fits,
      ),
  λ (same, fits).
      let spelt : bytes ≡ be_u32 id = sym same ∙ append_be_u32-be_u32 [] id in
      (ap length spelt, rw spelt (decode_be_u32-be_u32 id [] fits)),
)
