-- ===== src/Streams/Parsing.antt =====
-- `std::stoul` and `std::stoull` read back what a stream wrote, whatever stands behind the number.
use iso26430_6_asm_prototype.Base.{
  ℕ, ◌≡◌, refl, String, [], ◌∷◌, ◌++◌, append-nil, arith, true, false, IsU64, ok, Text,
}
use iso26430_6_asm_prototype.Streams.{
  Class, space, digit, ten, is_in, run, after, sign, unprefixed, number, from_digits, string_to,
  decimal,
}
use iso26430_6_asm_prototype.Streams.Decimal.{AllIn, number-decimal, decimal-digits, decimal-cons}

-- A text that does not start in the class.
abbrev pub Stops : Class → Text → Type 0
Stops cls [] = Unit {0}
Stops cls (c ∷ s) = is_in cls c ≡ false

pub run-append :
    (cls : Class) (front rest : Text)
    → AllIn cls front
    → Stops cls rest
    → run cls (front ++ rest) ≡ front
unfolding run
run-append cls [] [] h s = refl
run-append cls [] (c ∷ rest) h s = ground arith
run-append cls (c ∷ front) rest (hc, h) s = ground (arith, run-append cls front rest h s)

pub after-append :
    (cls : Class) (front rest : Text)
    → AllIn cls front
    → Stops cls rest
    → after cls (front ++ rest) ≡ rest
unfolding after
after-append cls [] [] h s = refl
after-append cls [] (c ∷ rest) h s = ground arith
after-append cls (c ∷ front) rest (hc, h) s = ground (arith, after-append cls front rest h s)

-- A text that starts with a digit has no blanks and no sign in front.
digit_first :
    (c : ℕ) (s : Text) → is_in digit c ≡ true → sign (after space (c ∷ s)) ≡ (false, c ∷ s)
unfolding sign after is_in
digit_first c s h = ground arith

pub string_to-decimal :
    (name : String) (n : ℕ) (rest : Text)
    → IsU64 n
    → Stops digit rest
    → string_to name ten (decimal n ++ rest) ≡ ok n
unfolding string_to unprefixed
string_to-decimal name n rest fits stops =
    let (c, s, e) = decimal-cons n in
    let digits : AllIn digit (c ∷ s) = rw e at (decimal-digits n) in
    let value : number 10 0 (c ∷ s) ≡ n = rw (← e) (number-decimal n fits) in
    rw (e, digit_first c (s ++ rest) digits.0, run-append digit (c ∷ s) rest digits stops)
      (unfold from_digits in ground arith)

pub stoul_whole : (name : String) (n : ℕ) → IsU64 n → string_to name ten (decimal n) ≡ ok n
stoul_whole name n h = rw (append-nil (decimal n)) at (string_to-decimal name n [] h tt)
