-- ===== src/StoredFederation/Audit/Ids.antt =====
-- Equal public ids, and what the order of public ids says of them.
use mathlib.Core.List.{
  Mem, Pairwise, Pairwise-cons, forall_mem-cons, mem-cons_self, mem-cons_of_mem, not-mem-nil,
}
use mathlib.Core.Bool.{Bool-set}
use httk_data.Prelude.{
  ◌≡◌, refl, sym, ap, ◌∙◌, subst, true, false, List, [], ◌∷◌, Bool-cases, inl, inr, if◌then◌else◌,
}
use httk_data.Prelude.Permutations.{select}
use httk_data.Prelude.TextOrder.{antisymmetric}
use httk_data.Prelude.Comparison.{at_most}
use httk_data.Filters.Texts.{same_codes_refl, same_codes→eq}
use httk_data.StoredFederation.Merge.Order.{Before, IsSorted}
use httk_data.StoredFederation.Candidates.{Candidate, public_id, texts}
use httk_data.StoredFederation.Audit.{same_id}

module _ {V : Type 0} where
  same_id→eq : (c d : Candidate V) → same_id c d ≡ true → public_id d ≡ public_id c
  same_id→eq c d h = same_codes→eq (public_id d) (public_id c) h

  eq→same_id : (c d : Candidate V) → public_id d ≡ public_id c → same_id c d ≡ true
  eq→same_id c d e = rw e (same_codes_refl (public_id c))

  pub same_id-sym : (c d : Candidate V) → same_id c d ≡ false → same_id d c ≡ false
  same_id-sym c d h = elim (Bool-cases (same_id d c)) [
    | inl e ↦ let no : true ≡ false = sym (eq→same_id c d (sym (same_id→eq d c e))) ∙ h in cc
    | inr e ↦ e
  ]

  pub same_id_refl : (c : Candidate V) → same_id c c ≡ true
  same_id_refl c = same_codes_refl (public_id c)

  -- What comes after a different candidate is different.
  later_different :
      (c d e : Candidate V)
      → Before texts public_id c d
      → Before texts public_id d e
      → same_id c d ≡ false
      → same_id c e ≡ false
  later_different c d e h k n = elim (Bool-cases (same_id c e)) [
    | inl s ↦
        let back = subst (λ id. at_most texts (public_id d) id ≡ true) (same_id→eq c e s) k in
        let no : true ≡ false =
          sym (eq→same_id c d (antisymmetric (public_id d) (public_id c) back h)) ∙ n in
        cc
    | inr s ↦ s
  ]

  -- The candidates at the front that have the id.
  abbrev pub leading : Candidate V → List (Candidate V) → List (Candidate V)
  leading c [] = []
  leading c (d ∷ ds) = let later = leading c ds in if same_id c d then d ∷ later else []

  abbrev pub Different : Candidate V → Candidate V → Type 0
  Different c d = same_id c d ≡ false

  abbrev pub Sorted : List (Candidate V) → Type 0
  Sorted = IsSorted texts public_id

  all_different :
      (c d : Candidate V) (ds : List (Candidate V))
      → Sorted (c ∷ d ∷ ds)
      → same_id c d ≡ false
      → (e : Candidate V) → Mem e (d ∷ ds)
      → same_id c e ≡ false
  all_different c d ds s n =
      let (first, rest) = Pairwise-cons.0 s in
      (forall_mem-cons (λ _. Bool-set _ _)).1
        (n, λ e m. later_different c d e (first d mem-cons_self) ((Pairwise-cons.0 rest).0 e m) n)

  -- Without the id at the front it does not occur.
  pub none_leading :
      (c : Candidate V) (cs : List (Candidate V))
      → Sorted (c ∷ cs)
      → leading c cs ≡ []
      → (e : Candidate V) → Mem e cs
      → same_id c e ≡ false
  none_leading c [] s h = λ e m. absurd (not-mem-nil m)
  none_leading c (d ∷ ds) s h = elim (Bool-cases (same_id c d)) [
    | inl n ↦ let no : d ∷ leading c ds ≡ [] = rw n at h in cc
    | inr n ↦ all_different c d ds s n
  ]

  select-none :
      (c : Candidate V) (cs : List (Candidate V))
      → ((e : Candidate V) → Mem e cs → same_id c e ≡ false)
      → select (same_id c) cs ≡ []
  unfolding select
  select-none c [] h = refl
  select-none c (d ∷ ds) h =
      rw (h d mem-cons_self) (select-none c ds (λ e m. h e (mem-cons_of_mem d m)))

  -- The candidates with the id stand at the front.
  pub select-leading :
      (c : Candidate V) (cs : List (Candidate V))
      → Sorted (c ∷ cs)
      → select (same_id c) cs ≡ leading c cs
  unfolding select
  select-leading c [] s = refl
  select-leading c (d ∷ ds) s =
      let (first, rest) = Pairwise-cons.0 s in
      elim (Bool-cases (same_id c d)) [
        | inl n ↦ rw n (
            ap (λ later. d ∷ later)
              (select-leading c ds
                (Pairwise.cons (λ e m. first e (mem-cons_of_mem d m)) (Pairwise-cons.0 rest).1)))
        | inr n ↦ rw n (select-none c ds (λ e m. all_different c d ds s n e (mem-cons_of_mem d m)))
      ]
