-- ===== src/LeKey/Jsonl.antt =====
-- The lines of a JSONL key file, as src/asm/le_key.cpp writes and reads them. The store over such a file is
-- in LeKey/Jsonl/Store.
pub mod Store
pub mod RoundTrip
pub mod Saved
pub mod Operations
pub mod Opened
use iso26430_6_asm_prototype.Base.{
  ℕ, zero, suc, ◌+◌, ◌*◌, Option, none, some, List, [], ◌∷◌, ◌++◌, length, take, drop, Result, ok,
  err, ◌>>=◌, u8, u32, u64, ◌!=◌, if◌then◌else◌, Text, codes,
}
use iso26430_6_asm_prototype.Common.{ByteBuffer}
use iso26430_6_asm_prototype.LeKey.{LeKeyRecord}
use iso26430_6_asm_prototype.Streams.{
  ten, sixteen, digit, hexadecimal, decimal, hex_byte, stoul, stoull,
}
use iso26430_6_asm_prototype.Streams.Regex.{
  Pattern, lit, blanks, group, some_of, exactly, member, match,
}

unfoldable pub bytes_to_hex : ByteBuffer → Text
bytes_to_hex [] = []
bytes_to_hex (byte ∷ bytes) = hex_byte byte ++ bytes_to_hex bytes

-- The rounds left, and the index `i`.
unfoldable pub hex_loop : ℕ → ℕ → Text → Result ByteBuffer
hex_loop zero i hex = ok []
hex_loop (suc n) i hex = do
  value ← stoul sixteen (take 2 (drop (i * 2) hex))
  rest ← hex_loop n (i + 1) hex
  ok (u8 value ∷ rest)

unfoldable pub hex_to_key : Text → Result ByteBuffer
unfolding hex_loop
hex_to_key hex =
    if length hex != 32 then err "LE key hex string must be 32 characters" else hex_loop 16 0 hex

-- The pattern, with the parts of it behind each group.
abbrev pub past_attribute : Pattern
past_attribute = blanks ∷ lit b'}' ∷ blanks ∷ []

abbrev pub past_expire : Pattern
past_expire =
    blanks ∷ lit b',' ∷ (member "attribute_data" ++ (blanks ∷ group digit some_of ∷ past_attribute))

abbrev pub past_key : Pattern
past_key =
    lit b'"'
    ∷ blanks
    ∷ lit b','
    ∷ (member "expire_time" ++ (blanks ∷ group digit some_of ∷ past_expire))

abbrev pub past_id : Pattern
past_id =
    blanks
    ∷ lit b','
    ∷ (member "key" ++ (blanks ∷ lit b'"' ∷ group hexadecimal (exactly 32) ∷ past_key))

abbrev pub key_pattern : Pattern
key_pattern = blanks ∷ lit b'{' ∷ (member "key_id" ++ (blanks ∷ group digit some_of ∷ past_id))

-- The record of the four groups that the pattern has.
unfoldable pub from_groups : Option (List Text) → Result LeKeyRecord
from_groups (some (key_id ∷ key ∷ expire_time ∷ attribute_data ∷ [])) = do
  id ← stoul ten key_id
  bytes ← hex_to_key key
  expire ← stoul ten expire_time
  attribute ← stoull attribute_data
  ok (record {
    key_id = u32 id;
    key = bytes;
    expire_time = u32 expire;
    attribute_data = u64 attribute;
  })
from_groups _ = err "invalid LEKey JSONL line format"

unfoldable pub parse_jsonl_line : Text → Result LeKeyRecord
unfolding from_groups
parse_jsonl_line line = from_groups (match key_pattern line)

-- What `persist` writes for one key, without the newline.
unfoldable pub key_line : LeKeyRecord → Text
key_line key =
    codes "{\"key_id\":"
    ++ (decimal key.key_id
        ++ (codes ",\"key\":\""
            ++ (bytes_to_hex key.key
                ++ (codes "\",\"expire_time\":"
                    ++ (decimal key.expire_time
                        ++ (codes ",\"attribute_data\":"
                            ++ (decimal key.attribute_data ++ codes "}")))))))
