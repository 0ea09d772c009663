-- ===== src/Base/Int.antt =====
-- Go's `int`: the library's ℤ stands on another ℕ, so these are its constructors over the native one.
use Prim.Native.Nat.{ℕ, zero, suc, ◌+◌, ◌-◌, ◌^◌, ◌%◌, ◌<◌}
use mathlib.Core.Path.{◌≡◌}
use native.Mathlib.Omega.{arith}
use mathlib.Core.Bool.{Bool, false}
use falken_core.Base.Tests.{ltb, if◌then◌else◌, ◌==◌}

-- `negsuc n` is -(n + 1).
pub data ℤ : Type 0 where
  pos : ℕ → ℤ
  negsuc : ℕ → ℤ

-- n > 0
unfoldable pub is_positive : ℤ → Bool
is_positive (pos n) = ltb 0 n
is_positive (negsuc n) = false

abbrev pub int_eq : ℤ → ℤ → Bool
int_eq (pos a) (pos b) = a == b
int_eq (negsuc a) (negsuc b) = a == b
int_eq _ _ = false

-- The magnitude of a positive integer, 0 for the others.
abbrev pub pos_part : ℤ → ℕ
pos_part (pos n) = n
pos_part (negsuc n) = 0

-- A natural number as an int64, which wraps around.
unfoldable pub int64 : ℕ → ℤ
int64 n = let m = n % 2 ^ 64 in if ltb m (2 ^ 63) then pos m else negsuc (2 ^ 64 - m - 1)

-- x++ on an int64
unfoldable pub succ_int64 : ℤ → ℤ
unfolding int64
succ_int64 (pos n) = int64 (n + 1)
succ_int64 (negsuc zero) = pos 0
succ_int64 (negsuc (suc n)) = negsuc n

pub int64_small : (n : ℕ) → n < 2 ^ 63 → int64 n ≡ pos n
unfolding int64
int64_small n h = ground arith
