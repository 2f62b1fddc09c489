-- ===== src/Streams/Hex.antt =====
-- Bytes in hexadecimal digits.
use iso26430_6_asm_prototype.Base.{
  ℕ, ◌/◌, ◌%◌, ◌<◌, ◌≡◌, false, String, [], ◌∷◌, arith, true, IsByte, ok,
}
use iso26430_6_asm_prototype.Streams.{
  hexadecimal, sixteen, is_in, hex_digit, hex_byte, after, sign, unprefixed, run, number,
  digit_value, from_digits, string_to,
}
use iso26430_6_asm_prototype.Streams.Decimal.{AllIn}

hex_digit_lem :
    (v : ℕ) → v < 16 → (is_in hexadecimal (hex_digit v) ≡ true) × (digit_value (hex_digit v) ≡ v)
unfolding is_in hex_digit digit_value
hex_digit_lem v h = ground arith

pub hex_byte-digits : (b : ℕ) → IsByte b → AllIn hexadecimal (hex_byte b)
unfolding hex_byte
hex_byte-digits b h =
    ((hex_digit_lem (b / 16) (omega arith)).0, ((hex_digit_lem (b % 16) (omega arith)).0, tt))

two_digits :
    (name : String) (c d : ℕ)
    → is_in hexadecimal c ≡ true
    → is_in hexadecimal d ≡ true
    → string_to name sixteen (c ∷ d ∷ []) ≡ from_digits name sixteen false (c ∷ d ∷ [])
unfolding string_to after sign unprefixed run is_in
two_digits name c d hc hd = ground arith

-- The two digits of a byte are read back.
pub string_to-hex_byte :
    (name : String) (b : ℕ) → IsByte b → string_to name sixteen (hex_byte b) ≡ ok b
unfolding hex_byte from_digits number
string_to-hex_byte name b h =
    let (high, high_value) = hex_digit_lem (b / 16) (omega arith) in
    let (low, low_value) = hex_digit_lem (b % 16) (omega arith) in
    rw (two_digits name (hex_digit (b / 16)) (hex_digit (b % 16)) high low)
      (ground (arith, high_value, low_value))
