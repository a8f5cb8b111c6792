-- ===== src/Base/Ints.antt =====
-- Signed integers over the native numbers: `int64` identifiers, durations and amounts.
use Prim.Native.Nat.{ℕ, zero}
use mathlib.Core.Bool.{Bool, true, false}
use revival_integration.Base.Tests.{leb}

-- `negsuc n` is -(n + 1).
pub data ℤ : Type 0 where
  pos : ℕ → ℤ
  negsuc : ℕ → ℤ

-- `m <= n`
abbrev pub at_most_int : ℤ → ℤ → Bool
at_most_int (pos m) (pos n) = leb m n
at_most_int (pos _) (negsuc _) = false
at_most_int (negsuc _) (pos _) = true
at_most_int (negsuc m) (negsuc n) = leb n m

-- `n == 0`
unfoldable pub is_zero : ℤ → Bool
is_zero (pos zero) = true
is_zero _ = false
