-- ===== src/StoredFederation/Merge/Order.antt =====
-- The merge of sorted streams is sorted, and has the candidates of the streams.
use mathlib.Core.Bool.{Bool-set}
use mathlib.Core.Logic.Or
use mathlib.Core.List.{
  Mem, Perm, Pairwise, Pairwise-cons, mem-append, mem-append_left, mem-append_right,
  forall_mem-cons,
}
use mathlib.Core.List.Perm
use httk_data.Prelude.{
  ℕ, zero, suc, ◌+◌, ◌≤◌, ◌≡◌, true, false, List, [], ◌∷◌, ◌++◌, length, All, arith, Bool-cases,
  inl, inr, append_assoc, append-nil,
}
use httk_data.Prelude.Permutations.{length-Perm, swap_blocks}
use httk_data.Prelude.Comparison.{
  Comparison, numbers, pairs, at_most, at_most-pairs, transitive, not_at_most,
}
use httk_data.StoredFederation.Merge.{
  Entry, rank, first_of, push, push_next, start_heap, merged, contents, union,
}

module _ {A K : Type 0} (o : Comparison K) (key : A → K) where
  -- In the order of their keys.
  abbrev pub Before : A → A → Type 0
  Before x y = at_most o (key x) (key y) ≡ true

  abbrev pub IsSorted : List A → Type 0
  IsSorted = Pairwise Before

  abbrev pub Below : A → List A → Type 0
  Below x ys = (y : A) → Mem y ys → Before x y

  Below-cons : (x y : A) {ys : List A} → Before x y → Below x ys → Below x (y ∷ ys)
  Below-cons x y h k = (forall_mem-cons (λ _. Bool-set _ _)).1 (h, k)

  Below-append : (x : A) {ys zs : List A} → Below x ys → Below x zs → Below x (ys ++ zs)
  Below-append x h k y m = Or.elim (Bool-set _ _) (mem-append.0 m) (h y) (k y)

  Below-split : (x : A) (ys : List A) {zs : List A} → Below x (ys ++ zs) → Below x ys × Below x zs
  Below-split x ys {zs} h = (λ y m. h y (mem-append_left zs m), λ y m. h y (mem-append_right ys m))

  Below-perm : (x : A) {ys zs : List A} → Perm ys zs → Below x zs → Below x ys
  Below-perm x p h y m = h y ((Perm.mem_iff p).0 m)

  Below-trans : (x y : A) {zs : List A} → Before x y → Below y zs → Below x zs
  Below-trans x y h k z m = transitive o _ _ _ h (k z m)

  push-perm :
      (e : Entry A) (heap : List (Entry A))
      → Perm (contents (push o key e heap)) (contents (e ∷ heap))
  unfolding push
  push-perm e [] = Perm.rfl
  push-perm e (f ∷ heap) = elim (Bool-cases (first_of o key e f)) [
    | inl h ↦ rw h Perm.rfl
    | inr h ↦ rw h (
        Perm.trans (Perm.cons f.candidate (Perm.append_left f.following (push-perm e heap)))
          (swap_blocks (f.candidate ∷ f.following) (e.candidate ∷ e.following) (contents heap)))
  ]

  push_next-perm :
      (i : ℕ) (xs : List A) (heap : List (Entry A))
      → Perm (contents (push_next o key i xs heap)) (xs ++ contents heap)
  push_next-perm i [] heap = Perm.rfl
  push_next-perm i (x ∷ xs) heap = push-perm _ heap

  first_of-Before : (e f : Entry A) → first_of o key e f ≡ true → Before e.candidate f.candidate
  first_of-Before e f h = at_most-pairs o numbers _ _ e.index f.index h

  not_first-Before : (e f : Entry A) → first_of o key e f ≡ false → Before f.candidate e.candidate
  not_first-Before e f h =
      first_of-Before f e (not_at_most (pairs o numbers) (rank o key e) (rank o key f) h)

  -- Each candidate of the heap comes before those behind it.
  abbrev pub Ready : List (Entry A) → Type 0
  Ready [] = Unit
  Ready (e ∷ heap) =
      Below e.candidate (e.following ++ contents heap)
      × IsSorted (e.candidate ∷ e.following)
      × Ready heap

  push-Ready :
      (e : Entry A) (heap : List (Entry A))
      → IsSorted (e.candidate ∷ e.following)
      → Ready heap
      → Ready (push o key e heap)
  unfolding push
  push-Ready e [] s r = (rw (append-nil e.following) (Pairwise-cons.0 s).0, s, tt)
  push-Ready e (f ∷ heap) s (b, t, r) =
      let own = (Pairwise-cons.0 s).0 in
      elim (Bool-cases (first_of o key e f)) [
        | inl h ↦
            let before = first_of-Before e f h in
            rw h (
              Below-append e.candidate own
                  (Below-cons _ _ before (Below-trans _ f.candidate before b)),
              s,
              (b, t, r),
            )
        | inr h ↦
            let before = not_first-Before e f h in
            let (mine, others) = Below-split f.candidate f.following b in
            rw h (
              Below-perm f.candidate (Perm.append_left f.following (push-perm e heap)) (
                  Below-append _ mine (
                    Below-cons _ e.candidate before
                      (Below-append _ (Below-trans _ e.candidate before own) others))),
              t,
              push-Ready e heap s r,
            )
      ]

  push_next-Ready :
      (i : ℕ) (xs : List A) (heap : List (Entry A))
      → IsSorted xs
      → Ready heap
      → Ready (push_next o key i xs heap)
  push_next-Ready i [] heap s r = r
  push_next-Ready i (x ∷ xs) heap s r = push-Ready _ heap s r

  -- The rounds left are enough for the candidates left.
  pub remaining :
      (n : ℕ) (e : Entry A) (heap : List (Entry A))
      → length (contents (e ∷ heap)) ≤ suc n
      → length (contents (push_next o key e.index e.following heap)) ≤ n
  remaining n e heap h = omega (arith, length-Perm (push_next-perm e.index e.following heap))

  -- As many rounds as there are candidates return them all.
  pub merged-perm :
      (n : ℕ) (heap : List (Entry A))
      → length (contents heap) ≤ n
      → Perm (merged o key n heap) (contents heap)
  unfolding merged
  merged-perm zero [] h = Perm.rfl
  merged-perm (suc n) [] h = Perm.rfl
  merged-perm zero (e ∷ heap) h = absurd (omega arith)
  merged-perm (suc n) (e ∷ heap) h =
      let p = push_next-perm e.index e.following heap in
      Perm.cons e.candidate (
        Perm.trans (merged-perm n (push_next o key e.index e.following heap) (remaining n e heap h))
          p)

  pub merged-IsSorted :
      (n : ℕ) (heap : List (Entry A))
      → length (contents heap) ≤ n
      → Ready heap
      → IsSorted (merged o key n heap)
  unfolding merged
  merged-IsSorted zero heap h r = Pairwise.nil
  merged-IsSorted (suc n) [] h r = Pairwise.nil
  merged-IsSorted (suc n) (e ∷ heap) h (b, s, r) =
      let q = push_next-Ready e.index e.following heap (Pairwise-cons.0 s).1 r in
      let p = push_next-perm e.index e.following heap in
      Pairwise.cons
        (Below-perm e.candidate (Perm.trans (merged-perm n _ (remaining n e heap h)) p) b)
        (merged-IsSorted n _ (remaining n e heap h) q)

  pub start_heap-perm :
      (i : ℕ) (streams : List (List A)) (heap : List (Entry A))
      → Perm (contents (start_heap o key i streams heap)) (union streams ++ contents heap)
  unfolding start_heap
  start_heap-perm i [] heap = Perm.rfl
  start_heap-perm i (xs ∷ streams) heap =
      Perm.trans (start_heap-perm (i + 1) streams (push_next o key i xs heap)) (
        Perm.trans (Perm.append_left (union streams) (push_next-perm i xs heap))
          (rw (append_assoc xs) (swap_blocks (union streams) xs (contents heap))))

  pub start_heap-Ready :
      (i : ℕ) (streams : List (List A)) (heap : List (Entry A))
      → All IsSorted streams
      → Ready heap
      → Ready (start_heap o key i streams heap)
  unfolding start_heap
  start_heap-Ready i [] heap s r = r
  start_heap-Ready i (xs ∷ streams) heap (s, ss) r =
      start_heap-Ready (i + 1) streams _ ss (push_next-Ready i xs heap s r)
