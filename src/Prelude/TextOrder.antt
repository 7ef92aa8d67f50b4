-- ===== src/Prelude/TextOrder.antt =====
-- The order of texts, which are their code points.
use Prim.Native.Nat.{ℕ, compare, Ordering}
use Prim.Native.Nat.Ordering.{lt, eq, gt}
use mathlib.Core.Path.{◌≡◌, refl, ap₂}
use mathlib.Core.Bool.{true, false}
use mathlib.Core.List.{List, [], ◌∷◌}
use native.Mathlib.Omega.{arith}
use httk_data.Prelude.Comparison.{at_most, flip, numbers, lists}

-- Two texts of which each is at most the other are one.
pub antisymmetric :
    (a b : List ℕ) → at_most (lists numbers) a b ≡ true → at_most (lists numbers) b a ≡ true → a ≡ b
antisymmetric [] [] h k = refl
antisymmetric [] (y ∷ b) h k = cc
antisymmetric (x ∷ a) [] h k = cc
antisymmetric (x ∷ a) (y ∷ b) h k =
    go (compare x y) (compare y x) refl refl (numbers.flips x y) (antisymmetric a b)
  where
    go :
        (o p : Ordering)
        → compare x y ≡ o
        → compare y x ≡ p
        → compare y x ≡ flip (compare x y)
        → (at_most (lists numbers) a b ≡ true → at_most (lists numbers) b a ≡ true → a ≡ b)
        → x ∷ a ≡ y ∷ b
    go lt p d e f r = let no : false ≡ true = rw (f, d) at k in cc
    go gt p d e f r = let no : false ≡ true = rw d at h in cc
    go eq p d e f r = ap₂ (λ z c. z ∷ c) (ground (arith, d)) (r (rw d at h) (rw (f, d) at k))
