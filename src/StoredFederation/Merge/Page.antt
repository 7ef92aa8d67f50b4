-- ===== src/StoredFederation/Merge/Page.antt =====
-- A page needs no more of each stream than the number of candidates up to its end.
use httk_data.Prelude.{
  ℕ, zero, suc, ◌+◌, ◌≤◌, ◌≡◌, refl, sym, ap, ap₂, ◌∙◌, Bool-cases, inl, inr, List, [], ◌∷◌, map,
  length, take, arith,
}
use httk_data.Prelude.Comparison.{Comparison}
use httk_data.Prelude.Slices.{take-take, take_again}
use httk_data.StoredFederation.Merge.{
  Entry, first_of, push, push_next, start_heap, merged, contents,
}
use httk_data.StoredFederation.Merge.Order.{remaining}

module _ {A K : Type 0} (o : Comparison K) (key : A → K) where
  -- An entry with at most `k` of what follows.
  abbrev cut : ℕ → Entry A → Entry A
  cut k e = record { index = e.index; candidate = e.candidate; following = take k e.following }

  map-cut-push :
      (k : ℕ) (e : Entry A) (heap : List (Entry A))
      → map (cut k) (push o key e heap) ≡ push o key (cut k e) (map (cut k) heap)
  unfolding push
  map-cut-push k e [] = refl
  map-cut-push k e (f ∷ heap) = elim (Bool-cases (first_of o key e f)) [
    | inl h ↦ rw h refl
    | inr h ↦ rw h (ap (λ later. cut k f ∷ later) (map-cut-push k e heap))
  ]

  map-cut-cut :
      (k : ℕ) (heap : List (Entry A)) → map (cut k) (map (cut (suc k)) heap) ≡ map (cut k) heap
  map-cut-cut k [] = refl
  map-cut-cut k (e ∷ heap) =
      ap₂
        (λ (xs : List A) later.
          record { index = e.index; candidate = e.candidate; following = xs } ∷ later)
        (take-take k e.following) (map-cut-cut k heap)

  map-cut-push_next :
      (k i : ℕ) (xs : List A) (heap : List (Entry A))
      → map (cut k) (push_next o key i xs heap)
        ≡ push_next o key i (take (suc k) xs) (map (cut k) heap)
  map-cut-push_next k i [] heap = refl
  map-cut-push_next k i (x ∷ xs) heap = map-cut-push k _ heap

  -- Cutting a heap below what the remaining rounds can reach changes nothing.
  merged-cut :
      (n k : ℕ) (heap : List (Entry A))
      → n ≤ suc k
      → merged o key n (map (cut k) heap) ≡ merged o key n heap
  unfolding merged
  merged-cut zero k heap h = refl
  merged-cut (suc n) k [] h = refl
  merged-cut (suc zero) zero (e ∷ heap) h = refl
  merged-cut (suc (suc n)) zero (e ∷ heap) h = absurd (omega arith)
  merged-cut (suc n) (suc k) (e ∷ heap) h =
      ap (λ later. e.candidate ∷ later)
        (sym (merged-cut n k _ (omega arith))
          ∙ ap (merged o key n) (
              map-cut-push_next k e.index (take (suc k) e.following) (map (cut (suc k)) heap)
              ∙ ap₂ (push_next o key e.index) (take_again (suc k) e.following) (map-cut-cut k heap)
              ∙ sym (map-cut-push_next k e.index e.following heap))
          ∙ merged-cut n k _ (omega arith))

  start_heap-cut :
      (k i : ℕ) (streams : List (List A)) (heap : List (Entry A))
      → start_heap o key i (map (take (suc k)) streams) (map (cut k) heap)
        ≡ map (cut k) (start_heap o key i streams heap)
  unfolding start_heap
  start_heap-cut k i [] heap = refl
  start_heap-cut k i (xs ∷ streams) heap =
      ap (start_heap o key (i + 1) (map (take (suc k)) streams))
        (sym (map-cut-push_next k i xs heap))
      ∙ start_heap-cut k (i + 1) streams (push_next o key i xs heap)

  -- Fewer rounds return a first part of the candidates.
  merged-take :
      (n m : ℕ) (heap : List (Entry A))
      → length (contents heap) ≤ m
      → merged o key n heap ≡ take n (merged o key m heap)
  unfolding merged
  merged-take zero m heap h = refl
  merged-take (suc n) zero [] h = refl
  merged-take (suc n) (suc m) [] h = refl
  merged-take (suc n) zero (e ∷ heap) h = absurd (omega arith)
  merged-take (suc n) (suc m) (e ∷ heap) h =
      ap (λ later. e.candidate ∷ later) (merged-take n m _ (remaining o key m e heap h))

  -- The first candidates of the merge, from as many of each stream.
  pub merged-page :
      (k m : ℕ) (streams : List (List A))
      → length (contents (start_heap o key 0 streams [])) ≤ m
      → merged o key (suc k) (start_heap o key 0 (map (take (suc k)) streams) [])
        ≡ take (suc k) (merged o key m (start_heap o key 0 streams []))
  merged-page k m streams h =
      ap (merged o key (suc k)) (start_heap-cut k 0 streams [])
      ∙ merged-cut (suc k) k (start_heap o key 0 streams []) (omega arith)
      ∙ merged-take (suc k) m (start_heap o key 0 streams []) h
