-- ===== src/StoredFederation/Audit/Outcome.antt =====
-- The audit finds a repeated public id exactly if there is one.
use mathlib.Core.List.{
  Perm, Mem, Pairwise, Pairwise-cons, mem-cons_self, mem-cons_of_mem, append-nil,
}
use mathlib.Core.List.Perm
use httk_data.Prelude.{
  ℕ, zero, ◌≤◌, ◌≡◌, refl, ap, ap₂, ◌∙◌, ◌⊎◌, false, List, [], ◌∷◌, map, length, All, arith, inl,
  inr, if◌then◌else◌, Result, ok, err, suc,
}
use httk_data.StoredFederation.Merge.{Entry, push_next, start_heap, merged, contents, union}
use httk_data.StoredFederation.Merge.Order.{
  merged-perm, merged-IsSorted, start_heap-perm, start_heap-Ready, remaining,
}
use httk_data.StoredFederation.Candidates.{Candidate, public_id, origin, texts}
use httk_data.StoredFederation.Sources.{StoredError, duplicate_entry_id}
use httk_data.StoredFederation.Bounds.{is_empty}
use httk_data.Prelude.Permutations.{select, select-Perm}
use httk_data.StoredFederation.Audit.Ids.{
  Different, Sorted, leading, none_leading, select-leading, same_id_refl, same_id-sym,
}
use mathlib.Core.Bool.{Bool-set}
use httk_data.StoredFederation.Audit.{same_id, same_group, audit_loop, audit_iterators}

module _ {V : Type 0} where
  same_group-merged :
      (n : ℕ) (c : Candidate V) (heap : List (Entry (Candidate V)))
      → length (contents heap) ≤ n
      → same_group n c heap ≡ leading c (merged texts public_id n heap)
  unfolding same_group merged
  same_group-merged zero c heap h = refl
  same_group-merged (suc n) c [] h = refl
  same_group-merged (suc n) c (e ∷ heap) h =
      ap (λ later. if same_id c e.candidate then e.candidate ∷ later else [])
        (same_group-merged n c _ (remaining texts public_id n e heap h))

  select-later :
      (c d : Candidate V) (cs : List (Candidate V))
      → same_id c d ≡ false
      → select (same_id c) (d ∷ cs) ≡ select (same_id c) cs
  unfolding select
  select-later c d cs h = rw h refl

  select-here :
      (c : Candidate V) (cs group : List (Candidate V))
      → Sorted (c ∷ cs)
      → leading c cs ≡ group
      → select (same_id c) (c ∷ cs) ≡ c ∷ group
  unfolding select
  select-here c cs group s h =
      rw (same_id_refl c) (ap (λ later. c ∷ later) (select-leading c cs s ∙ h))

module _ {V E : Type 0} where
  -- A round of the audit, by the candidates with the same id that it found.
  abbrev answer :
      Candidate V → List (Candidate V) → Result (StoredError E) Unit → Result (StoredError E) Unit
  answer c group later =
      if is_empty group
      then later
      else err (duplicate_entry_id (public_id c) (map origin (c ∷ group)))

  -- The audit of a list of candidates.
  abbrev audit_list : List (Candidate V) → Result (StoredError E) Unit
  audit_list [] = ok tt
  audit_list (c ∷ cs) = let later = audit_list cs in answer c (leading c cs) later

  audit_loop-list :
      (n : ℕ) (heap : List (Entry (Candidate V)))
      → length (contents heap) ≤ n
      → audit_loop {E = E} n heap ≡ audit_list (merged texts public_id n heap)
  unfolding audit_loop merged
  audit_loop-list zero heap h = refl
  audit_loop-list (suc n) [] h = refl
  audit_loop-list (suc n) (e ∷ heap) h =
      let next_heap = push_next texts public_id e.index e.following heap in
      let left = remaining texts public_id n e heap h in
      ap₂ (answer e.candidate) (same_group-merged n e.candidate next_heap left)
        (audit_loop-list n next_heap left)

  -- The audit passes, and all ids are different; or it names one id with all of its origins, of
  -- which there are two or more.
  abbrev pub Audited : List (Candidate V) → Result (StoredError E) Unit → Type 0
  Audited all outcome =
      ((outcome ≡ ok tt) × Pairwise Different all)
      ⊎ ((c : Candidate V) × (d : Candidate V) × (group : List (Candidate V)) × (outcome
            ≡ err (duplicate_entry_id (public_id c) (map origin (c ∷ d ∷ group))))
          × Mem c all
          × Perm (c ∷ d ∷ group) (select (same_id c) all))

  audit_list-outcome : (all : List (Candidate V)) → Sorted all → Audited all (audit_list all)
  audit_list-outcome [] s = inl (refl, Pairwise.nil)
  audit_list-outcome (c ∷ cs) s =
      go (leading c cs) refl (audit_list-outcome cs (Pairwise-cons.0 s).1)
    where
      go :
          (group : List (Candidate V))
          → leading c cs ≡ group
          → Audited cs (audit_list cs)
          → Audited (c ∷ cs) (answer c group (audit_list cs))
      go [] h (inl (passed, rest)) = inl (passed, Pairwise.cons (none_leading c cs s h) rest)
      go [] h (inr (d, e, group, found, m, perm)) =
          let apart = same_id-sym c d (none_leading c cs s h d m) in
          inr (d, e, group, found, mem-cons_of_mem c m, rw (select-later d c cs apart) perm)
      go (d ∷ group) h rest =
          inr (c, d, group, refl, mem-cons_self, rw (select-here c cs (d ∷ group) s h) Perm.rfl)

  Audited-perm :
      (xs ys : List (Candidate V)) (outcome : Result (StoredError E) Unit)
      → Perm xs ys
      → Audited xs outcome
      → Audited ys outcome
  Audited-perm xs ys outcome p (inl (passed, different)) =
      inl (passed, Perm.pairwise (λ _ _. Bool-set _ _) (λ c d h. same_id-sym c d h) p different)
  Audited-perm xs ys outcome p (inr (c, d, group, found, m, perm)) =
      inr (c, d, group, found, (Perm.mem_iff p).0 m, Perm.trans perm (select-Perm (same_id c) p))

  -- On streams in the order of their public ids, the audit passes and all ids are different, or it
  -- names an id with exactly the origins of the candidates that have it, two or more.
  pub audit_iterators-Audited :
      (iterators : List (List (Candidate V)))
      → All Sorted iterators
      → Audited (union iterators) (audit_iterators iterators)
  audit_iterators-Audited iterators sorted =
      let heap = start_heap texts public_id 0 iterators [] in
      let n = length (contents heap) in
      let ready = start_heap-Ready texts public_id 0 iterators [] sorted tt in
      let whole =
        rw (append-nil (union iterators)) at
          (start_heap-perm {A = Candidate V} texts public_id 0 iterators []) in
      rw (audit_loop-list n heap (omega arith)) (
        Audited-perm _ _ _ (Perm.trans (merged-perm texts public_id n heap (omega arith)) whole)
          (audit_list-outcome _ (merged-IsSorted texts public_id n heap (omega arith) ready)))
