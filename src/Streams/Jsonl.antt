-- ===== src/Streams/Jsonl.antt =====
-- The constructors of JsonlLeKeyStore and JsonlEventLogProvider read a file of lines in the same way: each
-- line that is not empty is parsed, and a line that cannot be is named by its number.
pub mod Reading
use iso26430_6_asm_prototype.Base.{
  ℕ, suc, zero, ◌+◌, ◌/◌, ◌%◌, String, ◌<>◌, List, [], ◌∷◌, ◌++◌, Result, ok, err, ◌==◌,
  if◌then◌else◌, Text,
}
use iso26430_6_asm_prototype.Streams.{lines_of}

-- The decimal digits of a number, as `std::to_string` gives them.
digit_text : ℕ → String
digit_text d =
    if d == 0
    then "0"
    else if d == 1
    then "1"
    else if d == 2
    then "2"
    else if d == 3
    then "3"
    else if d == 4
    then "4"
    else if d == 5
    then "5"
    else if d == 6
    then "6"
    else if d == 7
    then "7"
    else if d == 8
    then "8"
    else "9"

to_string_loop : ℕ → ℕ → String → String
to_string_loop zero n out = out
to_string_loop (suc rounds) n out =
    let digits = digit_text (n % 10) <> out in
    let more = to_string_loop rounds (n / 10) digits in if n / 10 == 0 then digits else more

unfoldable pub to_string : ℕ → String
unfolding digit_text to_string_loop
to_string n = to_string_loop 20 n ""

-- `prefix + std::to_string(line_number) + ": " + ex.what()`
abbrev pub at_line : String → ℕ → String → String
at_line prefix line_number what = prefix <> to_string line_number <> ": " <> what

module _ {A : Type 0} (prefix : String) (parse : Text → Result A) where
  -- The loop, with the number of lines that were read, and the records.
  read_loop : ℕ → List Text → List A → Result (List A)
  read_loop n [] out = ok out
  read_loop n ([] ∷ lines) out = read_loop (n + 1) lines out
  read_loop n ((c ∷ line) ∷ lines) out = elim (parse (c ∷ line)) [
    | ok item ↦ read_loop (n + 1) lines (out ++ (item ∷ []))
    | err what ↦ err (at_line prefix (n + 1) what)
  ]

  unfoldable pub read_jsonl : Text → Result (List A)
  unfolding read_loop
  read_jsonl text = read_loop 0 (lines_of text) []
