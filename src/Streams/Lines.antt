-- ===== src/Streams/Lines.antt =====
-- Lines are read back one by one.
use iso26430_6_asm_prototype.Base.{
  ◌≡◌, refl, ap, ◌∙◌, List, [], ◌∷◌, ◌++◌, arith, All, Bool, true, not, ◌&&◌, ◌==◌, Text,
}
use iso26430_6_asm_prototype.Streams.{lines_of, digit, hexadecimal, is_in}
use iso26430_6_asm_prototype.Streams.Decimal.{AllIn}

unfoldable pub no_newline : Text → Bool
no_newline [] = true
no_newline (c ∷ s) = not (c == b'\n') && no_newline s

abbrev pub OneLine : Text → Type 0
OneLine s = no_newline s ≡ true

-- Each line with its newline.
unfoldable pub joined : List Text → Text
joined [] = []
joined (line ∷ lines) = line ++ (b'\n' ∷ joined lines)

lines_of-append :
    (line rest : Text) → OneLine line → lines_of (line ++ (b'\n' ∷ rest)) ≡ line ∷ lines_of rest
unfolding lines_of no_newline
lines_of-append [] rest h = refl
lines_of-append (c ∷ line) rest h = ground (arith, lines_of-append line rest)

pub lines_of-joined : (lines : List Text) → All OneLine lines → lines_of (joined lines) ≡ lines
unfolding joined
lines_of-joined [] h = unfold lines_of in refl
lines_of-joined (line ∷ lines) (hl, h) =
    lines_of-append line (joined lines) hl ∙ ap (◌∷◌ line) (lines_of-joined lines h)

pub no_newline-append : (s t : Text) → no_newline (s ++ t) ≡ (no_newline s && no_newline t)
unfolding no_newline
no_newline-append [] t = refl
no_newline-append (c ∷ s) t = ground (arith, no_newline-append s t)

-- Neither class of digits has the newline.
pub digits-OneLine : (s : Text) → AllIn digit s → OneLine s
unfolding is_in no_newline
digits-OneLine [] h = refl
digits-OneLine (c ∷ s) (hc, h) = ground (arith, digits-OneLine s h)

pub hexadecimals-OneLine : (s : Text) → AllIn hexadecimal s → OneLine s
unfolding is_in no_newline
hexadecimals-OneLine [] h = refl
hexadecimals-OneLine (c ∷ s) (hc, h) = ground (arith, hexadecimals-OneLine s h)
