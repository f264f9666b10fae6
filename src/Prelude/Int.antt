-- ===== src/Prelude/Int.antt =====
-- The signed results of the C functions (`int`, `ssize_t`), under the library's names over the
-- native numbers. The code only returns, compares and tests them.
use Prim.Native.Nat.{ℕ, zero, suc}
use mathlib.Core.Bool.{Bool, true, false}

-- `negsuc n` is -(n + 1).
pub data ℤ : Type 0 where
  pos : ℕ → ℤ
  negsuc : ℕ → ℤ

-- The result -1 of a failed call.
abbrev pub minus_one : ℤ
minus_one = negsuc 0

-- r < 0
abbrev pub is_neg : ℤ → Bool
is_neg (pos n) = false
is_neg (negsuc n) = true

-- r == 0
abbrev pub is_zero : ℤ → Bool
is_zero (pos zero) = true
is_zero (pos (suc n)) = false
is_zero (negsuc n) = false
