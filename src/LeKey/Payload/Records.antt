-- ===== src/LeKey/Payload/Records.antt =====
-- One key record: 32 bytes.
use iso26430_6_asm_prototype.Base.{
  ℕ, ◌+◌, ◌≤◌, ◌≡◌, sym, ap, ◌∙◌, ◌++◌, append_assoc, arith, length, take, drop, length-append,
  length-drop, length-take, take-append_at, drop-append_at, take-append-drop, drop-drop, All,
  All-drop, ok, IsByte, IsU32, IsU64,
}
use iso26430_6_asm_prototype.Common.{ByteBuffer}
use iso26430_6_asm_prototype.BigEndian.{decode_be_u32, decode_be_u64}
use iso26430_6_asm_prototype.BigEndian.Words.{
  be_u32, be_u64, append_be_u32-be_u32, append_be_u64-be_u64, decode_be_u32-be_u32,
  decode_be_u32-drop, decode_be_u64-drop, decode_be_u64-be_u64, decode_be_u32-inverse,
}
use iso26430_6_asm_prototype.BigEndian.Wide.{decode_be_u64-inverse}
use iso26430_6_asm_prototype.Batch.Laws.{IsItemCodec}
use iso26430_6_asm_prototype.LeKey.{LeKeyRecord}
use iso26430_6_asm_prototype.LeKey.Payload.{append_record, decode_record}

-- A record whose fields fit their types.
pub record IsKeyRecord (k : LeKeyRecord) : Type 0 where
  pub id_fits : IsU32 k.key_id
  pub key_size : length k.key ≡ 16
  pub expire_fits : IsU32 k.expire_time
  pub attribute_fits : IsU64 k.attribute_data

pub spell_record : LeKeyRecord → ByteBuffer
spell_record k = be_u32 k.key_id ++ (k.key ++ (be_u32 k.expire_time ++ be_u64 k.attribute_data))

append_record-spell_record :
    (out : ByteBuffer) (k : LeKeyRecord) → append_record out k ≡ out ++ spell_record k
unfolding append_record spell_record
append_record-spell_record out k = simp (append_be_u32-be_u32, append_be_u64-be_u64, append_assoc)

length-spell_record : (k : LeKeyRecord) → IsKeyRecord k → length (spell_record k) ≡ 32
unfolding spell_record
length-spell_record k h =
    omega (arith, h.key_size, length-append k.key (be_u32 k.expire_time ++ be_u64 k.attribute_data))

decode_record-drop :
    (bytes : ByteBuffer) (offset : ℕ)
    → decode_record bytes offset ≡ decode_record (drop offset bytes) 0
unfolding decode_record
decode_record-drop bytes offset = ground (
  arith,
  length-drop offset bytes,
  decode_be_u32-drop bytes offset,
  decode_be_u32-drop bytes (offset + 20),
  decode_be_u32-drop (drop offset bytes) 20,
  decode_be_u64-drop bytes (offset + 24),
  decode_be_u64-drop (drop offset bytes) 24,
  drop-drop 4 offset bytes,
  drop-drop 20 offset bytes,
  drop-drop 24 offset bytes,
)

-- Where the fields of a written record stand.
module _ (k : LeKeyRecord) (rest : ByteBuffer) (h : IsKeyRecord k) where
  record_bytes :
      spell_record k ++ rest
      ≡ be_u32 k.key_id ++ (k.key ++ (be_u32 k.expire_time ++ (be_u64 k.attribute_data ++ rest)))
  unfolding spell_record
  record_bytes = ap (λ t. be_u32 k.key_id ++ t) (append_assoc k.key _ rest)

  after_id :
      drop 4 (spell_record k ++ rest)
      ≡ k.key ++ (be_u32 k.expire_time ++ (be_u64 k.attribute_data ++ rest))
  after_id = ap (drop 4) record_bytes

  after_key :
      drop 20 (spell_record k ++ rest) ≡ be_u32 k.expire_time ++ (be_u64 k.attribute_data ++ rest)
  after_key =
      sym (drop-drop 16 4 (spell_record k ++ rest))
      ∙ ap (drop 16) after_id
      ∙ drop-append_at 16 k.key _ h.key_size

  after_expire : drop 24 (spell_record k ++ rest) ≡ be_u64 k.attribute_data ++ rest
  after_expire = sym (drop-drop 4 20 (spell_record k ++ rest)) ∙ ap (drop 4) after_key

  decode_record-spell_record : decode_record (spell_record k ++ rest) 0 ≡ ok k
  unfolding decode_record
  decode_record-spell_record = ground (
    arith,
    length-append (spell_record k) rest,
    length-spell_record k h,
    ap (λ b. decode_be_u32 b 0) record_bytes,
    decode_be_u32-be_u32 k.key_id
        (k.key ++ (be_u32 k.expire_time ++ (be_u64 k.attribute_data ++ rest))),
    after_id,
    take-append_at 16 k.key (be_u32 k.expire_time ++ (be_u64 k.attribute_data ++ rest)),
    decode_be_u32-drop (spell_record k ++ rest) 20,
    after_key,
    decode_be_u32-be_u32 k.expire_time (be_u64 k.attribute_data ++ rest),
    decode_be_u64-drop (spell_record k ++ rest) 24,
    after_expire,
    decode_be_u64-be_u64 k.attribute_data rest,
  )

-- What a read that succeeds has seen at the four places.
decode_record_parts :
    (bytes : ByteBuffer) (k : LeKeyRecord)
    → decode_record bytes 0 ≡ ok k
    → (32 ≤ length bytes)
      × (decode_be_u32 bytes 0 ≡ ok k.key_id)
      × (k.key ≡ take 16 (drop 4 bytes))
      × (decode_be_u32 (drop 20 bytes) 0 ≡ ok k.expire_time)
      × (decode_be_u64 (drop 24 bytes) 0 ≡ ok k.attribute_data)
unfolding decode_record
decode_record_parts bytes k e =
    ground (arith, decode_be_u32-drop bytes 20, decode_be_u64-drop bytes 24)

decode_record-inverse :
    (bytes : ByteBuffer) (k : LeKeyRecord)
    → All IsByte bytes
    → decode_record bytes 0 ≡ ok k
    → IsKeyRecord k × (bytes ≡ spell_record k ++ drop 32 bytes)
unfolding spell_record
decode_record-inverse bytes k h e =
    let (enough, read_id, key_is, read_expire, read_attribute) = decode_record_parts bytes k e in
    let (id_fits, at_id) = decode_be_u32-inverse bytes k.key_id h read_id in
    let (expire_fits, at_expire) =
      decode_be_u32-inverse (drop 20 bytes) k.expire_time (All-drop IsByte 20 bytes h)
        read_expire in
    let (attribute_fits, at_attribute) =
      decode_be_u64-inverse (drop 24 bytes) k.attribute_data (All-drop IsByte 24 bytes h)
        read_attribute in
    let sized : length k.key ≡ 16 =
      ap length key_is ∙ length-take 16 (drop 4 bytes) (omega (arith, length-drop 4 bytes)) in
    let from_expire : drop 20 bytes
        ≡ (be_u32 k.expire_time ++ be_u64 k.attribute_data) ++ drop 32 bytes =
      ground (arith, drop-drop 4 20 bytes, drop-drop 8 24 bytes) in
    let from_key : drop 4 bytes
        ≡ k.key ++ ((be_u32 k.expire_time ++ be_u64 k.attribute_data) ++ drop 32 bytes) =
      ground (arith, take-append-drop 16 (drop 4 bytes), drop-drop 16 4 bytes) in
    (
      record {
        id_fits = id_fits;
        key_size = sized;
        expire_fits = expire_fits;
        attribute_fits = attribute_fits;
      },
      at_id
          ∙ ap (λ t. be_u32 k.key_id ++ t)
              (from_key
                ∙ sym (
                    append_assoc k.key (be_u32 k.expire_time ++ be_u64 k.attribute_data)
                      (drop 32 bytes))),
    )

pub record_laws : IsItemCodec 32 append_record decode_record spell_record IsKeyRecord
record_laws = record {
  append_spells = append_record-spell_record;
  spelt_width = length-spell_record;
  read_at = decode_record-drop;
  read_spelt = decode_record-spell_record;
  read_inverse = decode_record-inverse;
}
