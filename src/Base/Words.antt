-- ===== src/Base/Words.antt =====
-- Fixed-width unsigned words as native numbers: a cast wraps, a shift is written out.
use Prim.Native.Nat.{ℕ, ◌*◌, ◌/◌, ◌%◌, ◌^◌, ◌<◌}

abbrev pub u8 : ℕ → ℕ
u8 n = n % 2 ^ 8

abbrev pub u32 : ℕ → ℕ
u32 n = n % 2 ^ 32

abbrev pub u64 : ℕ → ℕ
u64 n = n % 2 ^ 64

abbrev pub shl : ℕ → ℕ → ℕ
shl n k = n * 2 ^ k

abbrev pub shr : ℕ → ℕ → ℕ
shr n k = n / 2 ^ k

abbrev pub IsByte : ℕ → Type 0
IsByte n = n < 2 ^ 8

abbrev pub IsU32 : ℕ → Type 0
IsU32 n = n < 2 ^ 32

abbrev pub IsU64 : ℕ → Type 0
IsU64 n = n < 2 ^ 64
