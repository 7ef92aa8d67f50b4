-- ===== src/Prelude/Int.antt =====
-- Python's integers over the native numbers, under the library's names.
use Prim.Native.Nat.{ℕ, zero, suc}
use mathlib.Core.Bool.{Bool, true, false}

-- `negsuc n` is -(n + 1).
pub data ℤ : Type 0 where
  pos : ℕ → ℤ
  negsuc : ℕ → ℤ

-- The integer of a sign and a size; a negative zero is zero.
abbrev pub of_sign : Bool → ℕ → ℤ
of_sign true zero = pos 0
of_sign true (suc n) = negsuc n
of_sign false n = pos n
