-- ===== src/Streams/Regex/Exact.antt =====
-- Giving each piece the longest part finds just the matches, for a pattern in which no class is followed
-- by what is in it.
use iso26430_6_asm_prototype.Base.{
  ℕ, ◌≡◌, ◌↔◌, refl, sym, ap, inl, inr, Bool, true, false, ◌&&◌, not, some, List, [], ◌∷◌, ◌++◌,
  arith, length, ltb, ◌==◌, ==_iff, Bool-cases, Option-cases, Text,
}
use iso26430_6_asm_prototype.Streams.{decimal, Class, space, digit, hexadecimal, is_in, run, after}
use iso26430_6_asm_prototype.Streams.Decimal.{AllIn, decimal-digits, decimal-cons}
use iso26430_6_asm_prototype.Streams.Parsing.{Stops, run-append, after-append}
use iso26430_6_asm_prototype.Streams.Regex.{
  Count, some_of, any_of, exactly, lit, blanks, group, Pattern, allows, match, Matches,
}

-- No character is in both classes.
abbrev apart : Class → Class → Bool
apart space digit = true
apart digit space = true
apart space hexadecimal = true
apart hexadecimal space = true
apart _ _ = false

apart_lem : (a b : Class) (c : ℕ) → apart a b ≡ true → is_in b c ≡ true → is_in a c ≡ false
unfolding is_in
apart_lem space digit c h i = ground arith
apart_lem digit space c h i = ground arith
apart_lem space hexadecimal c h i = ground arith
apart_lem hexadecimal space c h i = ground arith
apart_lem _ _ c h i = ground arith

-- A text that the pattern matches does not start in the class.
avoids : Class → Pattern → Bool
unfolding is_in
avoids cls [] = true
avoids cls (lit c ∷ p) = not (is_in cls c)
avoids cls (blanks ∷ p) = apart cls space && avoids cls p
avoids cls (group other some_of ∷ p) = apart cls other
avoids cls (group other count ∷ p) = apart cls other && avoids cls p

-- No class is followed by what is in it.
unfoldable pub is_separated : Pattern → Bool
unfolding avoids
is_separated [] = true
is_separated (lit c ∷ p) = is_separated p
is_separated (blanks ∷ p) = avoids space p && is_separated p
is_separated (group cls count ∷ p) = avoids cls p && is_separated p

Stops-append :
    (cls other : Class) (front rest : Text)
    → apart cls other ≡ true
    → AllIn other front
    → Stops cls rest
    → Stops cls (front ++ rest)
Stops-append cls other [] rest a h s = s
Stops-append cls other (c ∷ front) rest a (hc, h) s = apart_lem cls other c a hc

Stops-some :
    (cls other : Class) (front rest : Text)
    → apart cls other ≡ true
    → AllIn other front
    → ltb 0 (length front) ≡ true
    → Stops cls (front ++ rest)
Stops-some cls other [] rest a h n = absurd (ground arith)
Stops-some cls other (c ∷ front) rest a (hc, h) n = apart_lem cls other c a hc

avoids-Stops :
    (cls : Class) (p : Pattern) (s : Text) (groups : List Text)
    → avoids cls p ≡ true
    → Matches p s groups
    → Stops cls s
unfolding avoids Matches allows
avoids-Stops cls [] [] groups a (e, g) = tt
avoids-Stops cls [] (c ∷ s) groups a (e, g) = absurd (ground arith)
avoids-Stops cls (lit c ∷ p) s groups a (rest, e, m) = rw e (ground arith)
avoids-Stops cls (blanks ∷ p) s groups a (front, rest, e, h, m) = rw e (
    Stops-append cls space front rest (ground arith) h
      (avoids-Stops cls p rest groups (ground arith) m))
avoids-Stops cls (group other some_of ∷ p) s groups a (front, rest, more, e, h, n, g, m) =
    rw e (Stops-some cls other front rest a h n)
avoids-Stops cls (group other any_of ∷ p) s groups a (front, rest, more, e, h, n, g, m) = rw e (
    Stops-append cls other front rest (ground arith) h
      (avoids-Stops cls p rest more (ground arith) m))
avoids-Stops cls (group other (exactly k) ∷ p) s groups a (front, rest, more, e, h, n, g, m) =
    rw e (
      Stops-append cls other front rest (ground arith) h
        (avoids-Stops cls p rest more (ground arith) m))

run-after : (cls : Class) (s : Text) → run cls s ++ after cls s ≡ s
unfolding run after
run-after cls [] = refl
run-after cls (c ∷ s) = ground (arith, run-after cls s)

run-AllIn : (cls : Class) (s : Text) → AllIn cls (run cls s)
unfolding run
run-AllIn cls [] = tt
run-AllIn cls (c ∷ s) = elim (Bool-cases (is_in cls c)) [
  | inl inside ↦ rw inside (inside, run-AllIn cls s)
  | inr outside ↦ rw outside tt
]

sound : (p : Pattern) (s : Text) (groups : List Text) → match p s ≡ some groups → Matches p s groups
unfolding match Matches
sound [] [] groups e = (refl, ground arith)
sound [] (c ∷ s) groups e = absurd (ground arith)
sound (lit c ∷ p) [] groups e = absurd (ground arith)
sound (lit c ∷ p) (d ∷ s) groups e = elim (Bool-cases (c == d)) [
  | inl same ↦ (s, ap (λ x. x ∷ s) (sym ((==_iff c d).0 same)), sound p s groups (rw same at e))
  | inr other ↦ absurd (ground arith)
]
sound (blanks ∷ p) s groups e = (
  run space s,
  after space s,
  sym (run-after space s),
  run-AllIn space s,
  sound p (after space s) groups e,
)
sound (group cls count ∷ p) s groups e = elim (Bool-cases (allows count (length (run cls s)))) [
  | inr refused ↦ absurd (ground arith)
  | inl allowed ↦ elim (Option-cases (match p (after cls s))) [
    | inl fails ↦ absurd (ground arith)
    | inr (more, found) ↦ (
      run cls s,
      after cls s,
      more,
      sym (run-after cls s),
      run-AllIn cls s,
      allowed,
      ground arith,
      sound p (after cls s) more found,
    )
  ]
]

complete :
    (p : Pattern) (s : Text) (groups : List Text)
    → is_separated p ≡ true
    → Matches p s groups
    → match p s ≡ some groups
unfolding match Matches is_separated
complete [] s groups a (e, g) = rw (e, g) refl
complete (lit c ∷ p) s groups a (rest, e, m) =
    rw e (ground (arith, ==_iff c c, complete p rest groups a m))
complete (blanks ∷ p) s groups a (front, rest, e, h, m) =
    rw (e, after-append space front rest h (avoids-Stops space p rest groups (ground arith) m))
      (complete p rest groups (ground arith) m)
complete (group cls count ∷ p) s groups a (front, rest, more, e, h, n, g, m) =
    let stops = avoids-Stops cls p rest more (ground arith) m in
    rw
      (
        e,
        g,
        run-append cls front rest h stops,
        after-append cls front rest h stops,
        n,
        complete p rest more (ground arith) m,
      )
      refl

-- A group takes what it should, if what follows stands outside its class.
pub match-group :
    (cls : Class) (count : Count) (p : Pattern) (front rest : Text) (more : List Text)
    → AllIn cls front
    → Stops cls rest
    → allows count (length front) ≡ true
    → match p rest ≡ some more
    → match (group cls count ∷ p) (front ++ rest) ≡ some (front ∷ more)
unfolding match
match-group cls count p front rest more h stops n m =
    rw (run-append cls front rest h stops, after-append cls front rest h stops, n, m) refl

digit_no_space : (c : ℕ) (s : Text) → is_in digit c ≡ true → after space (c ∷ s) ≡ c ∷ s
unfolding after is_in
digit_no_space c s h = ground arith

-- The same for a number behind blanks.
pub match-decimal :
    (p : Pattern) (n : ℕ) (rest : Text) (more : List Text)
    → Stops digit rest
    → match p rest ≡ some more
    → match (blanks ∷ group digit some_of ∷ p) (decimal n ++ rest) ≡ some (decimal n ∷ more)
unfolding match allows
match-decimal p n rest more stops m =
    let (c, s, e) = decimal-cons n in
    let digits : AllIn digit (c ∷ s) = rw e at (decimal-digits n) in
    rw (e, digit_no_space c (s ++ rest) digits.0)
      (match-group digit some_of p (c ∷ s) rest more digits stops (ground arith) m)

-- For such a pattern `match` finds groups exactly when they share the text out in some way; so there is
-- one way at most.
pub match_iff :
    (p : Pattern) (s : Text) (groups : List Text)
    → is_separated p ≡ true
    → (match p s ≡ some groups) ↔ Matches p s groups
match_iff p s groups a = (sound p s groups, complete p s groups a)
