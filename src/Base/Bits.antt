-- ===== src/Base/Bits.antt =====
-- `|` of disjoint fields and `& 0xff`, as arithmetic. The native operations are stuck at variables,
-- so both laws go through the recursion on binary digits for which the operations stand.
use Prim.Native.Nat.{min, max, digits, bit_and-bitwise, bit_or-bitwise}
use native.Mathlib.Nat.{pow-suc}
use iso26430_6_asm_prototype.Base.Words.{shl}
use Prim.Native.Nat.{ℕ, zero, suc, ◌+◌, ◌*◌, ◌/◌, ◌%◌, ◌^◌, ◌≤◌, ◌<◌, bit_and, bit_or}
use mathlib.Core.Path.{◌≡◌, refl, ap}
use native.Mathlib.Omega.{arith}

-- More fuel than the first operand changes nothing.
module _ (past : ℕ → ℕ) (digit : ℕ → ℕ → ℕ) where
  enough : (n m a b : ℕ) → a ≤ n → a ≤ m → digits past digit n a b ≡ digits past digit m a b
  enough zero zero a b hn hm = refl
  enough zero (suc m) zero b hn hm = refl
  enough zero (suc m) (suc a) b hn hm = absurd (omega arith)
  enough (suc n) zero zero b hn hm = refl
  enough (suc n) zero (suc a) b hn hm = absurd (omega arith)
  enough (suc n) (suc m) zero b hn hm = refl
  enough (suc n) (suc m) (suc a) b hn hm =
      omega (arith, enough n m (suc a / 2) (b / 2) (omega arith) (omega arith))

or_lowest : (a b : ℕ) → bit_or a b ≡ bit_or (a / 2) (b / 2) * 2 + max (a % 2) (b % 2)
or_lowest zero b = omega (arith, bit_or-bitwise 0 b, bit_or-bitwise 0 (b / 2))
or_lowest (suc a) b = omega (
  arith,
  bit_or-bitwise (suc a) b,
  bit_or-bitwise (suc a / 2) (b / 2),
  enough (λ y. y) max a (suc a / 2) (suc a / 2) (b / 2) (omega arith) (omega arith),
)

and_lowest : (a b : ℕ) → bit_and a b ≡ bit_and (a / 2) (b / 2) * 2 + min (a % 2) (b % 2)
and_lowest zero b = omega (arith, bit_and-bitwise 0 b, bit_and-bitwise 0 (b / 2))
and_lowest (suc a) b = omega (
  arith,
  bit_and-bitwise (suc a) b,
  bit_and-bitwise (suc a / 2) (b / 2),
  enough (λ y. zero) min a (suc a / 2) (suc a / 2) (b / 2) (omega arith) (omega arith),
)

or_nothing_below : (n a : ℕ) → a ≤ n → bit_or a 0 ≡ a
or_nothing_below n zero h = refl
or_nothing_below zero (suc a) h = absurd (omega arith)
or_nothing_below (suc n) (suc a) h =
    omega (arith, or_lowest (suc a) 0, or_nothing_below n (suc a / 2) (omega arith))

and_nothing_below : (n a : ℕ) → a ≤ n → bit_and a 0 ≡ 0
and_nothing_below n zero h = refl
and_nothing_below zero (suc a) h = absurd (omega arith)
and_nothing_below (suc n) (suc a) h =
    omega (arith, and_lowest (suc a) 0, and_nothing_below n (suc a / 2) (omega arith))

double_shift : (q k : ℕ) → q * 2 ^ suc k ≡ 2 * (q * 2 ^ k)
double_shift q k = omega (arith, ap (λ (t : ℕ). q * t) (pow-suc 2 k))

-- `(q << k) | r` is a sum when `r` fits in `k` bits.
pub bit_or-shl : (k q r : ℕ) → r < 2 ^ k → bit_or (shl q k) r ≡ q * 2 ^ k + r
bit_or-shl zero q r fits = ground (arith, or_nothing_below q q)
bit_or-shl (suc k) q r fits = ground (
  arith,
  or_lowest (q * 2 ^ suc k) r,
  double_shift q k,
  bit_or-shl k q (r / 2) (omega (arith, pow-suc 2 k)),
)

and_ones : (a m : ℕ) → bit_and a (m * 2 + 1) ≡ bit_and (a / 2) m * 2 + a % 2
and_ones a m = ground (arith, and_lowest a (m * 2 + 1))

-- The low byte.
pub bit_and_low_byte : (a : ℕ) → bit_and a 0xff ≡ a % 2 ^ 8
bit_and_low_byte a = omega (
  arith,
  and_ones a 127,
  and_ones (a / 2) 63,
  and_ones (a / 2 / 2) 31,
  and_ones (a / 2 / 2 / 2) 15,
  and_ones (a / 2 / 2 / 2 / 2) 7,
  and_ones (a / 2 / 2 / 2 / 2 / 2) 3,
  and_ones (a / 2 / 2 / 2 / 2 / 2 / 2) 1,
  and_ones (a / 2 / 2 / 2 / 2 / 2 / 2 / 2) 0,
  and_nothing_below a (a / 2 / 2 / 2 / 2 / 2 / 2 / 2 / 2) (omega arith),
)
