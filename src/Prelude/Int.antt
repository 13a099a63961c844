-- ===== src/Prelude/Int.antt =====
-- The C++ `int`: signed integers over the native numbers, and their conversion to unsigned words.
use Prim.Native.Nat.{ℕ, zero, suc, ◌+◌, ◌-◌, ◌*◌, ◌/◌, ◌%◌}
use mathlib.Core.Bool.{Bool}
use fresh_core_native.Prelude.Tests.{ltb, leb, if◌then◌else◌}

-- `negsuc n` is -(n + 1).
pub data ℤ : Type 0 where
  pos : ℕ → ℤ
  negsuc : ℕ → ℤ

abbrev pub pos_part : ℤ → ℕ
pos_part (pos n) = n
pos_part (negsuc n) = 0

abbrev pub neg_part : ℤ → ℕ
neg_part (pos n) = 0
neg_part (negsuc n) = suc n

abbrev pub ltb_ℤ : ℤ → ℤ → Bool
ltb_ℤ a b = ltb (pos_part a + neg_part b) (pos_part b + neg_part a)

abbrev pub leb_ℤ : ℤ → ℤ → Bool
leb_ℤ a b = leb (pos_part a + neg_part b) (pos_part b + neg_part a)

abbrev pub u32 : ℕ → ℕ
u32 n = n % 4294967296

abbrev pub u64 : ℕ → ℕ
u64 n = n % 18446744073709551616

-- (uint64_t)i
abbrev pub int_to_u64 : ℤ → ℕ
int_to_u64 (pos n) = u64 n
int_to_u64 (negsuc n) = 18446744073709551615 - u64 n

-- A 32-bit pattern read as an `int`.
abbrev pub u32_to_int : ℕ → ℤ
u32_to_int w = if ltb w 2147483648 then pos w else negsuc (4294967295 - w)

-- a - b in uint64_t, for operands below 2 ^ 64.
abbrev pub sub64 : ℕ → ℕ → ℕ
sub64 a b = u64 (a + 18446744073709551616 - b)

-- i * k in `int` for a positive constant k, and i / k, which truncates toward zero.
abbrev pub int_scale : ℤ → ℕ → ℤ
int_scale (pos n) k = u32_to_int (u32 (n * k))
int_scale (negsuc n) k = u32_to_int (u32 (4294967296 - u32 (suc n * k)))

abbrev pub int_of_neg : ℕ → ℤ
int_of_neg zero = pos 0
int_of_neg (suc n) = negsuc n

abbrev pub int_quot : ℤ → ℕ → ℤ
int_quot (pos n) k = pos (n / k)
int_quot (negsuc n) k = int_of_neg (suc n / k)
