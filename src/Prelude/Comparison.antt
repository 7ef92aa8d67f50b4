-- ===== src/Prelude/Comparison.antt =====
-- Total comparisons, as Python orders the values of one type, and the comparison of tuples.
use Prim.Native.Nat.{ℕ, compare, Ordering}
use Prim.Native.Nat.Ordering.{lt, eq, gt}
use mathlib.Core.Path.{◌≡◌, refl, sym, ap, ap₂, ◌∙◌}
use mathlib.Core.Bool.{Bool, true, false}
use mathlib.Core.List.{List, [], ◌∷◌}
use native.Mathlib.Omega.{arith}

abbrev pub flip : Ordering → Ordering
flip lt = gt
flip eq = eq
flip gt = lt

-- The first difference decides.
abbrev pub and_then : Ordering → Ordering → Ordering
and_then lt o = lt
and_then eq o = o
and_then gt o = gt

pub record Comparison (A : Type 0) : Type 0 where
  pub cmp : A → A → Ordering
  pub flips : (a b : A) → cmp b a ≡ flip (cmp a b)
  pub chain : (a b c : A) → cmp a b ≡ lt → cmp b c ≡ lt → cmp a c ≡ lt
  pub same : (a b c : A) → cmp a b ≡ eq → cmp a c ≡ cmp b c

flip-flip : (o : Ordering) → flip (flip o) ≡ o
flip-flip lt = refl
flip-flip eq = refl
flip-flip gt = refl

flip-and_then : (o p : Ordering) → and_then (flip o) (flip p) ≡ flip (and_then o p)
flip-and_then lt p = refl
flip-and_then eq p = refl
flip-and_then gt p = refl

abbrev pub at_most_order : Ordering → Bool
at_most_order gt = false
at_most_order lt = true
at_most_order eq = true

module _ {A : Type 0} (o : Comparison A) where
  abbrev pub at_most : A → A → Bool
  at_most a b = at_most_order (o.cmp a b)

  pub reflexive : (a : A) → at_most a a ≡ true
  reflexive a = go (o.cmp a a) (o.flips a a)
    where
      go : (r : Ordering) → r ≡ flip r → at_most_order r ≡ true
      go lt e = refl
      go eq e = refl
      go gt e = ap at_most_order e

  pub same_right : (a b c : A) → o.cmp b c ≡ eq → o.cmp a c ≡ o.cmp a b
  same_right a b c e =
      o.flips c a ∙ ap flip (o.same c b a (o.flips b c ∙ ap flip e)) ∙ sym (o.flips b a)

  pub transitive : (a b c : A) → at_most a b ≡ true → at_most b c ≡ true → at_most a c ≡ true
  transitive a b c h k = go (o.cmp a b) (o.cmp b c) refl refl h k
    where
      go :
          (r s : Ordering)
          → o.cmp a b ≡ r
          → o.cmp b c ≡ s
          → at_most_order r ≡ true
          → at_most_order s ≡ true
          → at_most a c ≡ true
      go lt lt d e h k = ap at_most_order (o.chain a b c d e)
      go lt eq d e h k = ap at_most_order (same_right a b c e ∙ d)
      go eq s d e h k = ap at_most_order (o.same a b c d ∙ e) ∙ k
      go gt s d e h k = cc
      go lt gt d e h k = cc

  pub not_at_most : (a b : A) → at_most a b ≡ false → at_most b a ≡ true
  not_at_most a b h = ap at_most_order (o.flips a b) ∙ go (o.cmp a b) h
    where
      go : (r : Ordering) → at_most_order r ≡ false → at_most_order (flip r) ≡ true
      go gt e = refl
      go lt e = cc
      go eq e = cc

pub numbers-flips : (a b : ℕ) → compare b a ≡ flip (compare a b)
numbers-flips a b = ground arith

pub numbers-chain : (a b c : ℕ) → compare a b ≡ lt → compare b c ≡ lt → compare a c ≡ lt
numbers-chain a b c h k = ground arith

pub numbers-same : (a b c : ℕ) → compare a b ≡ eq → compare a c ≡ compare b c
numbers-same a b c h = ground arith

abbrev pub numbers : Comparison ℕ
numbers = record {
  cmp = compare;
  flips = numbers-flips;
  chain = numbers-chain;
  same = numbers-same;
}

and_then-eq : (r s : Ordering) → and_then r s ≡ eq → (r ≡ eq) × (s ≡ eq)
and_then-eq eq s h = (refl, h)
and_then-eq lt s h = cc
and_then-eq gt s h = cc

module _ {A : Type 0} (o : Comparison A) where
  -- How the chain of two comparisons by `o`, each followed by another, goes on.
  and_then-chain :
      (a b c : A) (s t u : Ordering)
      → (s ≡ lt → t ≡ lt → u ≡ lt)
      → and_then (o.cmp a b) s ≡ lt
      → and_then (o.cmp b c) t ≡ lt
      → and_then (o.cmp a c) u ≡ lt
  and_then-chain a b c s t u rest h k = go (o.cmp a b) (o.cmp b c) refl refl h k
    where
      go :
          (q r : Ordering)
          → o.cmp a b ≡ q
          → o.cmp b c ≡ r
          → and_then q s ≡ lt
          → and_then r t ≡ lt
          → and_then (o.cmp a c) u ≡ lt
      go lt lt d e h k = ap (λ r. and_then r u) (o.chain a b c d e)
      go lt eq d e h k = ap (λ r. and_then r u) (same_right o a b c e ∙ d)
      go eq lt d e h k = ap (λ r. and_then r u) (o.same a b c d ∙ e)
      go eq eq d e h k = ap (λ r. and_then r u) (o.same a b c d ∙ e) ∙ rest h k
      go gt r d e h k = cc
      go lt gt d e h k = cc
      go eq gt d e h k = cc

-- The order of pairs, by their first components and and_then by their second.
module _ {A B : Type 0} (o : Comparison A) (p : Comparison B) where
  abbrev pairs-cmp : A × B → A × B → Ordering
  pairs-cmp (a, b) (c, d) = and_then (o.cmp a c) (p.cmp b d)

  pub pairs-flips : (x y : A × B) → pairs-cmp y x ≡ flip (pairs-cmp x y)
  pairs-flips (a, b) (c, d) = rw (o.flips a c, p.flips b d) (flip-and_then (o.cmp a c) (p.cmp b d))

  pub pairs-chain : (x y z : A × B) → pairs-cmp x y ≡ lt → pairs-cmp y z ≡ lt → pairs-cmp x z ≡ lt
  pairs-chain (a, b) (c, d) (e, f) = and_then-chain o a c e _ _ _ (p.chain b d f)

  pub pairs-same : (x y z : A × B) → pairs-cmp x y ≡ eq → pairs-cmp x z ≡ pairs-cmp y z
  pairs-same (a, b) (c, d) (e, f) h =
      let (k, l) = and_then-eq (o.cmp a c) (p.cmp b d) h in
      ap₂ and_then (o.same a c e k) (p.same b d f l)

  abbrev pub pairs : Comparison (A × B)
  pairs = record { cmp = pairs-cmp; flips = pairs-flips; chain = pairs-chain; same = pairs-same }

at_most-and_then : (r s : Ordering) → at_most_order (and_then r s) ≡ true → at_most_order r ≡ true
at_most-and_then lt s h = refl
at_most-and_then eq s h = refl
at_most-and_then gt s h = h

module _ {A B : Type 0} (o : Comparison A) (p : Comparison B) where
  pub at_most-pairs :
      (a c : A) (b d : B) → at_most (pairs o p) (a, b) (c, d) ≡ true → at_most o a c ≡ true
  at_most-pairs a c b d h = at_most-and_then (o.cmp a c) (p.cmp b d) h

-- The order of lists: the first difference decides, and a list is below its continuations.
module _ {A : Type 0} (o : Comparison A) where
  abbrev lists-cmp : List A → List A → Ordering
  lists-cmp [] [] = eq
  lists-cmp [] (b ∷ ys) = lt
  lists-cmp (a ∷ xs) [] = gt
  lists-cmp (a ∷ xs) (b ∷ ys) = and_then (o.cmp a b) (lists-cmp xs ys)

  pub lists-flips : (x y : List A) → lists-cmp y x ≡ flip (lists-cmp x y)
  lists-flips [] [] = refl
  lists-flips [] (b ∷ ys) = refl
  lists-flips (a ∷ xs) [] = refl
  lists-flips (a ∷ xs) (b ∷ ys) =
      ap₂ and_then (o.flips a b) (lists-flips xs ys) ∙ flip-and_then (o.cmp a b) (lists-cmp xs ys)

  pub lists-chain : (x y z : List A) → lists-cmp x y ≡ lt → lists-cmp y z ≡ lt → lists-cmp x z ≡ lt
  lists-chain [] [] [] h k = h
  lists-chain [] (b ∷ ys) [] h k = cc
  lists-chain [] y (c ∷ zs) h k = refl
  lists-chain (a ∷ xs) [] z h k = cc
  lists-chain (a ∷ xs) (b ∷ ys) [] h k = cc
  lists-chain (a ∷ xs) (b ∷ ys) (c ∷ zs) h k =
      and_then-chain o a b c _ _ _ (lists-chain xs ys zs) h k

  pub lists-same : (x y z : List A) → lists-cmp x y ≡ eq → lists-cmp x z ≡ lists-cmp y z
  lists-same [] [] z h = refl
  lists-same [] (b ∷ ys) z h = cc
  lists-same (a ∷ xs) [] z h = cc
  lists-same (a ∷ xs) (b ∷ ys) [] h = refl
  lists-same (a ∷ xs) (b ∷ ys) (c ∷ zs) h =
      let (k, l) = and_then-eq (o.cmp a b) (lists-cmp xs ys) h in
      ap₂ and_then (o.same a b c k) (lists-same xs ys zs l)

  abbrev pub lists : Comparison (List A)
  lists = record { cmp = lists-cmp; flips = lists-flips; chain = lists-chain; same = lists-same }
