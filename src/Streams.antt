-- ===== src/Streams.antt =====
-- What the program uses of the text side of the C++ library: numbers written to a stream, `std::stoul`
-- and `std::stoull` on a 64-bit platform, `std::getline`, and the regular expressions of its files, which
-- are in Streams/Regex. A text is the list of its bytes.
pub mod Decimal
pub mod Parsing
pub mod Hex
pub mod Lines
pub mod Regex
pub mod Jsonl
use iso26430_6_asm_prototype.Base.{
  ℕ, zero, suc, ◌+◌, ◌-◌, ◌*◌, ◌/◌, ◌%◌, ◌^◌, String, List, [], ◌∷◌, ◌++◌, Bool, true, false, ◌||◌,
  ◌&&◌, Result, ok, err, leb, ltb, ◌==◌, if◌then◌else◌, Text,
}

-- `out << n` writes a number in decimal: its digits are pushed in front, the lowest first. Twenty rounds
-- are enough for 64 bits.
decimal_loop : ℕ → ℕ → Text → Text
decimal_loop zero n out = out
decimal_loop (suc rounds) n out =
    let digits = (b'0' + n % 10) ∷ out in
    let more = decimal_loop rounds (n / 10) digits in if n / 10 == 0 then digits else more

unfoldable pub decimal : ℕ → Text
unfolding decimal_loop
decimal n = decimal_loop 20 n []

-- A lower-case hexadecimal digit.
unfoldable pub hex_digit : ℕ → ℕ
hex_digit v = if ltb v 10 then b'0' + v else b'a' + (v - 10)

-- `out << std::hex << std::setfill('0') << std::setw(2) << byte`, of a byte.
unfoldable pub hex_byte : ℕ → Text
unfolding hex_digit
hex_byte byte = hex_digit (byte / 16) ∷ hex_digit (byte % 16) ∷ []

-- The classes of characters that the program's patterns and `std::stoul` know, in the C locale.
pub data Class : Type 0 where
  space digit hexadecimal not_quote : Class

unfoldable pub is_in : Class → ℕ → Bool
is_in space c = c == b' ' || leb 9 c && leb c 13
is_in digit c = leb b'0' c && leb c b'9'
is_in hexadecimal c =
    (leb b'0' c && leb c b'9') || (leb b'a' c && leb c b'f') || (leb b'A' c && leb c b'F')
is_in not_quote c = if c == b'"' then false else true

-- The longest front part in a class, and what stands behind it.
unfoldable pub run : Class → Text → Text
run cls [] = []
run cls (c ∷ s) = let rest = run cls s in if is_in cls c then c ∷ rest else []

unfoldable pub after : Class → Text → Text
after cls [] = []
after cls (c ∷ s) = let rest = after cls s in if is_in cls c then rest else c ∷ s

-- The value of a digit.
unfoldable pub digit_value : ℕ → ℕ
digit_value c = if leb c b'9' then c - b'0' else if leb b'a' c then c - b'a' + 10 else c - b'A' + 10

unfoldable pub number : ℕ → ℕ → Text → ℕ
number base n [] = n
number base n (c ∷ s) = number base (n * base + digit_value c) s

pub data Base : Type 0 where
  ten sixteen : Base

abbrev pub radix : Base → ℕ
radix ten = 10
radix sixteen = 16

abbrev pub digits_of : Base → Class
digits_of ten = digit
digits_of sixteen = hexadecimal

-- An optional sign, and the text behind it.
unfoldable pub sign : Text → Bool × Text
sign [] = (false, [])
sign (c ∷ s) = if c == b'-' then (true, s) else if c == b'+' then (false, s) else (false, c ∷ s)

starts_hex : Text → Bool
starts_hex [] = false
starts_hex (c ∷ s) = is_in hexadecimal c

-- `0x` in front of a hexadecimal digit is skipped in base 16.
unfoldable pub unprefixed : Base → Text → Text
unfolding starts_hex
unprefixed sixteen (c ∷ d ∷ s) =
    if c == b'0' && (d == b'x' || d == b'X') && starts_hex s then s else c ∷ d ∷ s
unprefixed base s = s

-- `std::stoul` and `std::stoull` of a text, which may go on behind the number: the name is the function's,
-- and what its two exceptions hold in libstdc++. A number behind a minus sign is negated modulo 2 ^ 64.
from_digits : String → Base → Bool → Text → Result ℕ
from_digits name base negative [] = err name
from_digits name base negative (c ∷ s) =
    let n = number (radix base) 0 (c ∷ s) in
    if ltb n (2 ^ 64) then ok (if negative then (2 ^ 64 - n) % 2 ^ 64 else n) else err name

unfoldable pub string_to : String → Base → Text → Result ℕ
unfolding from_digits sign unprefixed run after
string_to name base text =
    let (negative, rest) = sign (after space text) in
    from_digits name base negative (run (digits_of base) (unprefixed base rest))

abbrev pub stoul : Base → Text → Result ℕ
stoul base text = string_to "stoul" base text

abbrev pub stoull : Text → Result ℕ
stoull text = string_to "stoull" ten text

-- `std::getline` again and again: the texts between the newlines; a newline at the end starts no line.
with_first : ℕ → List Text → List Text
with_first c [] = (c ∷ []) ∷ []
with_first c (line ∷ lines) = (c ∷ line) ∷ lines

unfoldable pub lines_of : Text → List Text
unfolding with_first
lines_of [] = []
lines_of (c ∷ s) = if c == b'\n' then [] ∷ lines_of s else with_first c (lines_of s)
