-- ===== src/Streams/Decimal.antt =====
-- Decimal numbers are read back, and consist of digits.
use iso26430_6_asm_prototype.Base.{
  ℕ, zero, suc, ◌+◌, ◌*◌, ◌/◌, ◌%◌, ◌^◌, ◌<◌, ◌≡◌, refl, ap, ◌∙◌, [], ◌∷◌, arith, All, IsU64, true,
  ◌==◌, Text, Bool-cases, inl, inr,
}
use native.Mathlib.Nat.{pow-suc}
use iso26430_6_asm_prototype.Streams.{
  decimal, decimal_loop, number, digit_value, Class, digit, is_in,
}

-- Every character is of a class.
abbrev pub AllIn : Class → Text → Type 0
AllIn cls s = All (λ c. is_in cls c ≡ true) s

number-decimal_loop :
    (rounds n : ℕ) (out : Text)
    → n < 10 ^ rounds
    → number 10 0 (decimal_loop rounds n out) ≡ number 10 n out
unfolding decimal_loop number digit_value
number-decimal_loop zero n out h = let e : n ≡ 0 = omega arith in rw e
number-decimal_loop (suc rounds) n out h = elim (Bool-cases (n / 10 == 0)) [
  | inl last ↦
      let e : 0 * 10 + digit_value (b'0' + n % 10) ≡ n = ground arith in
      rw last (ap (λ m. number 10 m out) e)
  | inr more ↦
      let e : n / 10 * 10 + digit_value (b'0' + n % 10) ≡ n = ground arith in
      rw more (
        number-decimal_loop rounds (n / 10) ((b'0' + n % 10) ∷ out)
          (omega (arith, pow-suc 10 rounds))
        ∙ ap (λ m. number 10 m out) e)
]

pub number-decimal : (n : ℕ) → IsU64 n → number 10 0 (decimal n) ≡ n
unfolding decimal number
number-decimal n h = number-decimal_loop 20 n [] (omega arith)

decimal_loop-digits :
    (rounds n : ℕ) (out : Text) → AllIn digit out → AllIn digit (decimal_loop rounds n out)
unfolding decimal_loop is_in
decimal_loop-digits zero n out h = h
decimal_loop-digits (suc rounds) n out h =
    ground (arith, decimal_loop-digits rounds (n / 10) ((b'0' + n % 10) ∷ out))

pub decimal-digits : (n : ℕ) → AllIn digit (decimal n)
unfolding decimal
decimal-digits n = decimal_loop-digits 20 n [] tt

decimal_loop_more :
    (rounds n : ℕ) (out : Text)
    → 0 < rounds
    → (c : ℕ) × (s : Text) × (decimal_loop rounds n out ≡ c ∷ s)
unfolding decimal_loop
decimal_loop_more zero n out h = absurd (omega arith)
decimal_loop_more (suc zero) n out h = (b'0' + n % 10, out, ground arith)
decimal_loop_more (suc (suc rounds)) n out h = elim (Bool-cases (n / 10 == 0)) [
  | inl last ↦ (b'0' + n % 10, out, rw last refl)
  | inr more ↦
      let (c, s, e) =
        decimal_loop_more (suc rounds) (n / 10) ((b'0' + n % 10) ∷ out) (omega arith) in
      (c, s, rw more e)
]

-- There is a first digit.
pub decimal-cons : (n : ℕ) → (c : ℕ) × (s : Text) × (decimal n ≡ c ∷ s)
unfolding decimal
decimal-cons n = decimal_loop_more 20 n [] (omega arith)
