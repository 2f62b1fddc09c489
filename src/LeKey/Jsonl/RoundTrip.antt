-- ===== src/LeKey/Jsonl/RoundTrip.antt =====
-- A line that `persist` writes is read back as the key.
use iso26430_6_asm_prototype.Base.{
  ℕ, ◌+◌, ◌*◌, ◌≡◌, refl, ◌∙◌, some, [], ◌∷◌, ◌++◌, codes, arith, true, All, All-append, IsByte,
  u32, IsU64, length, take, drop, drop-drop, ok, Text,
}
use iso26430_6_asm_prototype.Common.{ByteBuffer}
use iso26430_6_asm_prototype.LeKey.{LeKeyRecord}
use iso26430_6_asm_prototype.LeKey.Jsonl.{
  bytes_to_hex, hex_loop, hex_to_key, past_id, past_key, past_expire, past_attribute, key_pattern,
  from_groups, parse_jsonl_line, key_line,
}
use iso26430_6_asm_prototype.LeKey.Payload.Records.{IsKeyRecord}
use iso26430_6_asm_prototype.Streams.{hexadecimal, is_in, decimal, hex_byte}
use iso26430_6_asm_prototype.Streams.Decimal.{AllIn}
use iso26430_6_asm_prototype.Streams.Hex.{hex_byte-digits, string_to-hex_byte}
use iso26430_6_asm_prototype.Streams.Parsing.{stoul_whole}
use iso26430_6_asm_prototype.Streams.Regex.{exactly, match, allows}
use iso26430_6_asm_prototype.Streams.Regex.Exact.{match-group, match-decimal}

pub bytes_to_hex-digits :
    (bytes : ByteBuffer) → All IsByte bytes → AllIn hexadecimal (bytes_to_hex bytes)
unfolding bytes_to_hex
bytes_to_hex-digits [] h = tt
bytes_to_hex-digits (b ∷ bytes) (hb, h) =
    All-append (λ c. is_in hexadecimal c ≡ true) (hex_byte b) (bytes_to_hex bytes)
      (hex_byte-digits b hb) (bytes_to_hex-digits bytes h)

pub length-bytes_to_hex : (bytes : ByteBuffer) → length (bytes_to_hex bytes) ≡ 2 * length bytes
unfolding bytes_to_hex hex_byte
length-bytes_to_hex [] = refl
length-bytes_to_hex (b ∷ bytes) = omega (arith, length-bytes_to_hex bytes)

-- The loop at its place in the text.
hex_loop-bytes_to_hex :
    (bytes : ByteBuffer) (i : ℕ) (text : Text)
    → All IsByte bytes
    → drop (i * 2) text ≡ bytes_to_hex bytes
    → hex_loop (length bytes) i text ≡ ok bytes
unfolding hex_loop bytes_to_hex
hex_loop-bytes_to_hex [] i text h e = refl
hex_loop-bytes_to_hex (b ∷ bytes) i text (hb, h) e =
    let pair : take 2 (drop (i * 2) text) ≡ hex_byte b = rw e (unfold hex_byte in refl) in
    let next : drop ((i + 1) * 2) text ≡ bytes_to_hex bytes =
      further i text (bytes_to_hex bytes) b e in
    rw (pair, string_to-hex_byte "stoul" b hb, hex_loop-bytes_to_hex bytes (i + 1) text h next)
      (ground arith)
  where
    further :
        (i : ℕ) (text rest : Text) (b : ℕ)
        → drop (i * 2) text ≡ hex_byte b ++ rest
        → drop ((i + 1) * 2) text ≡ rest
    further i text rest b e =
        let same : (i + 1) * 2 ≡ i * 2 + 2 = omega arith in
        rw (same, ← (drop-drop 2 (i * 2) text), e) (unfold hex_byte in refl)

-- Sixteen bytes in hexadecimal are read back.
pub hex_to_key-bytes_to_hex :
    (bytes : ByteBuffer)
    → All IsByte bytes
    → length bytes ≡ 16
    → hex_to_key (bytes_to_hex bytes) ≡ ok bytes
unfolding hex_to_key
hex_to_key-bytes_to_hex bytes h size =
    let counted : length (bytes_to_hex bytes) ≡ 32 =
      omega (arith, length-bytes_to_hex bytes, size) in
    let read : hex_loop 16 0 (bytes_to_hex bytes) ≡ ok bytes =
      rw size at (hex_loop-bytes_to_hex bytes 0 (bytes_to_hex bytes) h refl) in
    rw (counted, read) refl

match-key_line :
    (k : LeKeyRecord)
    → All IsByte k.key
    → length k.key ≡ 16
    → match key_pattern (key_line k)
      ≡ some (
          decimal k.key_id
          ∷ bytes_to_hex k.key
          ∷ decimal k.expire_time
          ∷ decimal k.attribute_data
          ∷ [])
unfolding match key_line is_in allows
match-key_line k h size = match-decimal past_id k.key_id _ _ refl (
    match-group hexadecimal (exactly 32) past_key (bytes_to_hex k.key) _ _
      (bytes_to_hex-digits k.key h) refl (ground (arith, length-bytes_to_hex k.key))
      (match-decimal past_expire k.expire_time _ _ refl
        (match-decimal past_attribute k.attribute_data (codes "}") [] refl refl)))

-- A line in the form that `persist` writes, for a key of 16 bytes and numbers below 2 ^ 64, is read, but the
-- id and the expiry are cut to 32 bits without an error.
pub parse_jsonl_line_cuts :
    (k : LeKeyRecord)
    → All IsByte k.key
    → length k.key ≡ 16
    → IsU64 k.key_id
    → IsU64 k.expire_time
    → IsU64 k.attribute_data
    → parse_jsonl_line (key_line k)
      ≡ ok (record k { key_id = u32 k.key_id; expire_time = u32 k.expire_time })
unfolding parse_jsonl_line from_groups
parse_jsonl_line_cuts k h size id expire attribute =
    rw
      (
        match-key_line k h size,
        from_groups,
        stoul_whole "stoul" k.key_id id,
        hex_to_key-bytes_to_hex k.key h size,
        stoul_whole "stoul" k.expire_time expire,
        stoul_whole "stoull" k.attribute_data attribute,
      )
      (ground arith)

-- A line that `persist` writes for a key of 16 bytes, whose other fields fit their types, is read back as
-- the key.
pub parse_jsonl_line-key_line :
    (k : LeKeyRecord) → IsKeyRecord k → All IsByte k.key → parse_jsonl_line (key_line k) ≡ ok k
parse_jsonl_line-key_line k v h =
    parse_jsonl_line_cuts k h v.key_size (omega (arith, v.id_fits)) (omega (arith, v.expire_fits))
      v.attribute_fits
    ∙ ground (arith, v.id_fits, v.expire_fits)
