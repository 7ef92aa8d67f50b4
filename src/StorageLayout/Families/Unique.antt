-- ===== src/StorageLayout/Families/Unique.antt =====
-- Whether the values of a list are unique does not depend on their order.
use mathlib.Core.List.{Perm, Permᴰ}
use mathlib.Core.Logic.{∥∥₁_elim}
use mathlib.Core.Bool.{Bool-set}
use httk_data.Prelude.{◌≡◌, refl, ap, ap₂, ◌∙◌, Bool, not, ◌&&◌, ◌||◌, List, ◌∷◌, any, arith}
use httk_data.StorageLayout.Families.{unique}

module _ {A : Type 0} (test : A → Bool) where
  steps_any : {xs ys : List A} → Permᴰ xs ys → any test xs ≡ any test ys
  steps_any Permᴰ.nil = refl
  steps_any (Permᴰ.cons e d) = ap₂ (λ x b. test x || b) e (steps_any d)
  steps_any (Permᴰ.swap {a} {b} {l} e f) =
      swapped (test a) (test b) (any test l) ∙ ap₂ (λ x y. test x || (test y || any test l)) f e
    where
      swapped : (p q r : Bool) → p || (q || r) ≡ q || (p || r)
      swapped p q r = ground arith
  steps_any (Permᴰ.trans d e) = steps_any d ∙ steps_any e

module _ {A : Type 0} (same : A → A → Bool) (symmetric : (a b : A) → same a b ≡ same b a) where
  unique-swap : (a b : A) (l : List A) → unique same (a ∷ b ∷ l) ≡ unique same (b ∷ a ∷ l)
  unfolding unique
  unique-swap a b l =
      rw (symmetric a b) (swapped (same b a) (any (same a) l) (any (same b) l) (unique same l))
    where
      swapped : (p q r u : Bool) → not (p || q) && (not r && u) ≡ not (p || r) && (not q && u)
      swapped p q r u = ground arith

  pub steps_unique : {xs ys : List A} → Permᴰ xs ys → unique same xs ≡ unique same ys
  unfolding unique
  steps_unique Permᴰ.nil = refl
  steps_unique (Permᴰ.cons {a} {b} {l₁} {l₂} e d) =
      ap₂ (λ p q. not p && q) (steps_any (same a) d ∙ ap (λ x. any (same x) l₂) e) (steps_unique d)
  steps_unique (Permᴰ.swap {a} {b} {l} e f) =
      unique-swap a b l ∙ ap₂ (λ x y. unique same (x ∷ y ∷ l)) f e
  steps_unique (Permᴰ.trans d e) = steps_unique d ∙ steps_unique e

  pub unique-Perm : {xs ys : List A} → Perm xs ys → unique same xs ≡ unique same ys
  unique-Perm p = ∥∥₁_elim p (Bool-set _ _) steps_unique
