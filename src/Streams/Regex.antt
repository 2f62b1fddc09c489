-- ===== src/Streams/Regex.antt =====
-- The part of `std::regex` that the two file formats need: a pattern is a row of characters, of blanks
-- `\s*`, and of groups over a class. `Matches` says what `std::regex_match` looks for: some way to share
-- the whole text out to the pieces. `match` gives each piece the longest part that it can take.
pub mod Exact
use iso26430_6_asm_prototype.Base.{
  ℕ, suc, ◌≡◌, Bool, true, false, ◌&&◌, Option, none, some, String, List, [], ◌∷◌, ◌++◌, length,
  map, ltb, ◌==◌, if◌then◌else◌, Text, codes,
}
use iso26430_6_asm_prototype.Streams.{
  Class, space, digit, hexadecimal, not_quote, is_in, run, after,
}
use iso26430_6_asm_prototype.Streams.Decimal.{AllIn}

-- How many characters a group holds: `+`, `*`, `{n}`.
pub data Count : Type 0 where
  some_of any_of : Count
  exactly : ℕ → Count

pub data Piece : Type 0 where
  lit : ℕ → Piece
  blanks : Piece
  group : Class → Count → Piece

abbrev pub Pattern : Type 0
Pattern = List Piece

unfoldable pub allows : Count → ℕ → Bool
allows some_of n = ltb 0 n
allows any_of n = true
allows (exactly m) n = m == n

with_group : Bool → Text → Option (List Text) → Option (List Text)
with_group true text (some groups) = some (text ∷ groups)
with_group true text none = none
with_group false text groups = none

-- The groups, if the text matches.
unfoldable pub match : Pattern → Text → Option (List Text)
unfolding with_group allows run after
match [] [] = some []
match [] (c ∷ s) = none
match (lit c ∷ p) [] = none
match (lit c ∷ p) (d ∷ s) = if c == d then match p s else none
match (blanks ∷ p) s = match p (after space s)
match (group cls count ∷ p) s =
    with_group (allows count (length (run cls s))) (run cls s) (match p (after cls s))

-- Any way to share the text out.
pub Matches : Pattern → Text → List Text → Type 0
Matches [] s groups = (s ≡ []) × (groups ≡ [])
Matches (lit c ∷ p) s groups = (rest : Text) × (s ≡ c ∷ rest) × Matches p rest groups
Matches (blanks ∷ p) s groups =
    (front : Text) × (rest : Text) × (s ≡ front ++ rest) × AllIn space front × Matches p rest groups
Matches (group cls count ∷ p) s groups =
    (front : Text) × (rest : Text) × (more : List Text) × (s ≡ front ++ rest)
    × AllIn cls front
    × (allows count (length front) ≡ true)
    × (groups ≡ front ∷ more)
    × Matches p rest more

-- The pieces of a literal, and of `\s*"name"\s*:`.
abbrev pub literal : Text → Pattern
literal [] = []
literal (c ∷ s) = lit c ∷ literal s

abbrev pub member : String → Pattern
member name = blanks ∷ lit b'"' ∷ (literal (codes name) ++ (lit b'"' ∷ blanks ∷ lit b':' ∷ []))
