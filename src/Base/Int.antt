-- ===== src/Base/Int.antt =====
-- C's signed integers, over the native numbers.
use Prim.Native.Nat.{ℕ, ◌+◌, ◌-◌, ◌%◌, ◌^◌, ◌<◌}
use mathlib.Core.Path.{◌≡◌}
use native.Mathlib.Omega.{arith}
use mathlib.Core.Bool.{Bool, true, false}
use riscos64_simple_binaries.Base.Tests.{leb, ltb, if◌then◌else◌}

-- `negsuc n` is -(n + 1).
pub data ℤ : Type 0 where
  pos : ℕ → ℤ
  negsuc : ℕ → ℤ

-- `x < 0`
abbrev pub is_negative : ℤ → Bool
is_negative (pos n) = false
is_negative (negsuc n) = true

-- -n
abbrev pub neg : ℕ → ℤ
neg ℕ.zero = pos 0
neg (ℕ.suc n) = negsuc n

-- a - b
abbrev pub sub_ℕ : ℕ → ℕ → ℤ
sub_ℕ a b = if leb b a then pos (a - b) else negsuc (b - a - 1)

-- n + x for a signed x
abbrev pub add_ℕ : ℕ → ℤ → ℤ
add_ℕ n (pos k) = pos (n + k)
add_ℕ n (negsuc k) = sub_ℕ n (ℕ.suc k)

-- max(x, 0)
abbrev pub pos_part : ℤ → ℕ
pos_part (pos n) = n
pos_part (negsuc n) = 0

-- `x < y`
abbrev pub lt_int : ℤ → ℤ → Bool
lt_int (pos m) (pos n) = ltb m n
lt_int (pos m) (negsuc n) = false
lt_int (negsuc m) (pos n) = true
lt_int (negsuc m) (negsuc n) = ltb n m

-- The `int` with the low 32 bits of a number
abbrev pub as_int : ℕ → ℤ
as_int n = let t = n % 2 ^ 32 in if ltb t (2 ^ 31) then pos t else negsuc (2 ^ 32 - 1 - t)

-- A `long int` as an `int`
abbrev pub long_int : ℤ → ℤ
long_int (pos n) = as_int n
long_int (negsuc n) = as_int (2 ^ 64 - 1 - n)

pub as_int_small : (n : ℕ) → n < 2 ^ 31 → as_int n ≡ pos n
as_int_small n h = ground arith

-- An `int`, of which the low 32 bits are given, as a `size_t`
abbrev pub int_size : ℕ → ℕ
int_size n = let t = n % 2 ^ 32 in if ltb t (2 ^ 31) then t else t + (2 ^ 64 - 2 ^ 32)
