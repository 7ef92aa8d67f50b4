-- ===== src/Prelude/Permutations.antt =====
-- What a permutation keeps: the length, and the elements that pass a test.
use mathlib.Core.List.{Perm, Permᴰ, Perm-prop, perm_middle}
use mathlib.Core.List.Perm
use mathlib.Core.Path.{◌≡◌, refl, ap, ap₂, ◌∙◌, subst}
use mathlib.Core.Logic.{inl, inr}
use mathlib.Core.Bool.{Bool, true, false}
use mathlib.Core.List.{List, [], ◌∷◌, ◌++◌}
use mathlib.Core.Logic.{∥∥₁_elim}
use native.Mathlib.Nat.{ℕ_set}
use Prim.Native.Nat.{suc}
use httk_data.Prelude.Lists.{length}
use httk_data.Prelude.Tests.{if◌then◌else◌, Bool-cases}

module _ {A : Type 0} where
  -- Two lists change places.
  pub swap_blocks : (xs ys zs : List A) → Perm (xs ++ (ys ++ zs)) (ys ++ (xs ++ zs))
  swap_blocks [] ys zs = Perm.rfl
  swap_blocks (x ∷ xs) ys zs =
      Perm.trans (Perm.cons x (swap_blocks xs ys zs)) (Perm.symm (perm_middle ys (xs ++ zs)))

  steps_length : {xs ys : List A} → Permᴰ xs ys → length xs ≡ length ys
  steps_length Permᴰ.nil = refl
  steps_length (Permᴰ.cons e d) = ap suc (steps_length d)
  steps_length (Permᴰ.swap e f) = refl
  steps_length (Permᴰ.trans d e) = steps_length d ∙ steps_length e

  pub length-Perm : {xs ys : List A} → Perm xs ys → length xs ≡ length ys
  length-Perm p = ∥∥₁_elim p (ℕ_set _ _) steps_length

  -- The elements that pass a test.
  unfoldable pub select : (A → Bool) → List A → List A
  select p [] = []
  select p (x ∷ xs) = let later = select p xs in if p x then x ∷ later else later

  select-swap :
      (p : A → Bool) (x y : A) (xs : List A) (b c : Bool)
      → p x ≡ b
      → p y ≡ c
      → Perm (select p (x ∷ y ∷ xs)) (select p (y ∷ x ∷ xs))
  unfolding select
  select-swap p x y xs true true h k = rw (h, k) (Perm.swap y x (select p xs))
  select-swap p x y xs true false h k = rw (h, k) Perm.rfl
  select-swap p x y xs false true h k = rw (h, k) Perm.rfl
  select-swap p x y xs false false h k = rw (h, k) Perm.rfl

  select-cons :
      (p : A → Bool) (x : A) (xs ys : List A)
      → Perm (select p xs) (select p ys)
      → Perm (select p (x ∷ xs)) (select p (x ∷ ys))
  unfolding select
  select-cons p x xs ys h = elim (Bool-cases (p x)) [
    | inl e ↦ rw e (Perm.cons x h)
    | inr e ↦ rw e h
  ]

  steps_select : (p : A → Bool) {xs ys : List A} → Permᴰ xs ys → Perm (select p xs) (select p ys)
  steps_select p Permᴰ.nil = Perm.rfl
  steps_select p (Permᴰ.cons {a} {l₁} {l₂} e d) =
      subst (λ b. Perm (select p (a ∷ l₁)) (select p (b ∷ l₂))) e
        (select-cons p a l₁ l₂ (steps_select p d))
  steps_select p (Permᴰ.swap {a} {b} {l} e f) =
      subst (λ zs. Perm (select p (a ∷ b ∷ l)) (select p zs)) (ap₂ (λ x y. x ∷ y ∷ l) f e)
        (select-swap p a b l _ _ refl refl)
  steps_select p (Permᴰ.trans d e) = Perm.trans (steps_select p d) (steps_select p e)

  pub select-Perm : (p : A → Bool) {xs ys : List A} → Perm xs ys → Perm (select p xs) (select p ys)
  select-Perm p h = ∥∥₁_elim h Perm-prop (steps_select p)
