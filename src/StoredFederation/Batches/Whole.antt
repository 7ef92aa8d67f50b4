-- ===== src/StoredFederation/Batches/Whole.antt =====
-- The batches of an iterator make up the whole stream, and each call ends.
use mathlib.Core.List.{
  Mem, Pairwise, Pairwise-cons, mem-cons_self, mem-cons_of_mem, mem-append_right,
}
use httk_data.Prelude.{
  ℕ, zero, suc, ◌≤◌, ◌≡◌, refl, sym, ap, ◌∙◌, subst, Bool, true, false, Option, none, some, List,
  [], ◌∷◌, ◌++◌, append_assoc, length, take, drop, ltb, arith, if◌then◌else◌,
}
use httk_data.Prelude.Slices.{take-append_drop}
use httk_data.Prelude.Comparison.{at_most, reflexive, not_at_most}
use httk_data.StoredFederation.Candidates.{Text, Candidate, public_id, texts}
use httk_data.StoredFederation.Batches.{
  BatchedCandidateIterator, yielded, stop_iteration, unfinished, ends, fresh_iterator, last_id,
  next_candidate, drained,
}

module _ {V : Type 0} where
  -- In the strict order of their public ids.
  abbrev pub Ascending : List (Candidate V) → Type 0
  Ascending = Pairwise (λ c d. at_most texts (public_id d) (public_id c) ≡ false)

  -- The candidates of a list whose ids are after an id.
  unfoldable pub rows_after : Text → List (Candidate V) → List (Candidate V)
  rows_after id [] = []
  rows_after id (c ∷ cs) =
      let later = rows_after id cs in if at_most texts (public_id c) id then later else c ∷ later

  -- The answer of a plan to `id > text`, or without a filter, on a stream of these candidates.
  abbrev pub answered : List (Candidate V) → Option Text → List (Candidate V)
  answered all none = all
  answered all (some id) = rows_after id all

  rows_after-all :
      (id : Text) (cs : List (Candidate V))
      → ((d : Candidate V) → Mem d cs → at_most texts (public_id d) id ≡ false)
      → rows_after id cs ≡ cs
  unfolding rows_after
  rows_after-all id [] h = refl
  rows_after-all id (c ∷ cs) h =
      rw (h c mem-cons_self)
        (ap (λ ds. c ∷ ds) (rows_after-all id cs (λ d m. h d (mem-cons_of_mem c m))))

  rows_after-rest :
      (before : List (Candidate V)) (c : Candidate V) (cs : List (Candidate V))
      → Ascending (before ++ c ∷ cs)
      → rows_after (public_id c) (before ++ c ∷ cs) ≡ cs
  unfolding rows_after
  rows_after-rest [] c cs s =
      rw (reflexive texts (public_id c)) (rows_after-all (public_id c) cs (Pairwise-cons.0 s).0)
  rows_after-rest (b ∷ before) c cs s =
      let (first, rest) = Pairwise-cons.0 s in
      rw (not_at_most texts _ _ (first c (mem-append_right before mem-cons_self)))
        (rows_after-rest before c cs rest)

module _ {V : Type 0} (search : Option Text → List (Candidate V)) where
  refilled-ends :
      (b : ℕ) (last : Option Text) (values : List (Candidate V)) (done : Bool)
      → ltb (length values) (suc b) ≡ done
      → ends (
          next_candidate search
            (suc b)
            1
            (record { last_public_id = last; rows = values; done = done }))
        ≡ true
  unfolding next_candidate
  refilled-ends b last (c ∷ cs) done h = refl
  refilled-ends b last [] true h = refl
  refilled-ends b last [] false h = absurd (ground arith)

  rounds_of :
      (b : ℕ) (last : Option Text) (rows : List (Candidate V)) (done : Bool)
      → ends (
          next_candidate search
            (suc b)
            2
            (record { last_public_id = last; rows = rows; done = done }))
        ≡ true
  unfolding next_candidate
  rounds_of b last (c ∷ cs) done = refl
  rounds_of b last [] true = refl
  rounds_of b last [] false = refilled-ends b _ (take (suc b) (search last)) _ refl

  -- Two rounds are enough for a call with a positive batch size.
  pub next_candidate-ends :
      (batch_size : ℕ) (it : BatchedCandidateIterator V)
      → 1 ≤ batch_size
      → ends (next_candidate search batch_size 2 it) ≡ true
  next_candidate-ends zero it h = absurd (omega arith)
  next_candidate-ends (suc b) it h = rounds_of b it.last_public_id it.rows it.done

module _ {V : Type 0} (all : List (Candidate V)) (ascending : Ascending all) where
  -- The search after the last of a batch returns what follows the batch.
  search_on :
      (before : List (Candidate V)) (last : Option Text) (values rest : List (Candidate V))
      → all ≡ before ++ (values ++ rest)
      → answered all last ≡ values ++ rest
      → answered all (last_id last values) ≡ rest
  search_on before last [] rest e s = s
  search_on before last (c ∷ cs) rest e s =
      search_on (before ++ c ∷ []) (some (public_id c)) cs rest
        (e ∙ sym (append_assoc before (c ∷ []) (cs ++ rest)))
        (ap (rows_after (public_id c)) e
          ∙ rows_after-rest before c (cs ++ rest) (subst Ascending e ascending))

  -- What an iterator has still to search for.
  abbrev Pending : Option Text → Bool → List (Candidate V) → Type 0
  Pending last true rest = rest ≡ []
  Pending last false rest =
      (before : List (Candidate V)) × (all ≡ before ++ rest) × (answered all last ≡ rest)

  short_batch :
      (b : ℕ) (cs : List (Candidate V))
      → ltb (suc (length (take b cs))) (suc b) ≡ true
      → drop b cs ≡ []
  short_batch zero [] h = refl
  short_batch zero (c ∷ cs) h = ground arith
  short_batch (suc b) [] h = refl
  short_batch (suc b) (c ∷ cs) h = short_batch b cs (ground arith)

  refilled :
      (b : ℕ) (last : Option Text) (c : Candidate V) (cs before : List (Candidate V)) (short : Bool)
      → ltb (suc (length (take b cs))) (suc b) ≡ short
      → all ≡ before ++ c ∷ cs
      → answered all last ≡ c ∷ cs
      → Pending (last_id last (c ∷ take b cs)) short (drop b cs)
  refilled b last c cs before true h e s = short_batch b cs h
  refilled b last c cs before false h e s =
      let split = ap (λ ds. c ∷ ds) (sym (take-append_drop b cs)) in
      (
        before ++ c ∷ take b cs,
        e ∙ ap (λ ds. before ++ ds) split ∙ sym (append_assoc before (c ∷ take b cs) (drop b cs)),
        search_on before last (c ∷ take b cs) (drop b cs) (e ∙ ap (λ ds. before ++ ds) split)
            (s ∙ split),
      )

  -- The next calls when the search of an empty iterator has found these candidates.
  abbrev after_search : ℕ → ℕ → Option Text → List (Candidate V) → List (Candidate V) × Bool
  after_search b n last found =
      let values = take (suc b) found in
      let it : BatchedCandidateIterator V = record {
        last_public_id = last_id last values;
        rows = values;
        done = ltb (length values) (suc b);
      } in
      elim (next_candidate (answered all) (suc b) 1 it) [
        | unfinished ↦ ([], false)
        | stop_iteration ↦ ([], true)
        | yielded c rest ↦
            let later = drained (answered all) (suc b) n rest in (c ∷ later.0, later.1)
      ]

  after_search-nil : (b n : ℕ) (last : Option Text) → after_search b n last [] ≡ ([], true)
  unfolding next_candidate
  after_search-nil b n last = spent (ltb 0 (suc b)) (ground arith)
    where
      spent :
          (done : Bool)
          → done ≡ true
          → elim (next_candidate
                (answered all)
                (suc b)
                1
                (record { last_public_id = last; rows = []; done = done }))
              as (λ _. List (Candidate V) × Bool) [
                | unfinished ↦ ([], false)
                | stop_iteration ↦ ([], true)
                | yielded c rest ↦
                    let later = drained (answered all) (suc b) n rest in (c ∷ later.0, later.1)
              ]
            ≡ ([], true)
      spent true h = refl
      spent false h = cc

  drained-Pending :
      (b n : ℕ) (last : Option Text) (rows rest : List (Candidate V)) (done : Bool)
      → suc (length (rows ++ rest)) ≤ n
      → Pending last done rest
      → drained
          (answered all)
          (suc b)
          n
          (record { last_public_id = last; rows = rows; done = done })
        ≡ (rows ++ rest, true)
  unfolding drained next_candidate
  drained-Pending b zero last rows rest done h p = absurd (omega arith)
  drained-Pending b (suc n) last (c ∷ cs) rest done h p =
      ap (λ r. (c ∷ r.0, r.1)) (drained-Pending b n last cs rest done (omega arith) p)
  drained-Pending b (suc n) last [] rest true h p = ap (λ ds. (ds, true)) (sym p)
  drained-Pending b (suc n) last [] [] false h (before, e, s) =
      ap (after_search b n last) s ∙ after_search-nil b n last
  drained-Pending b (suc n) last [] (c ∷ cs) false h (before, e, s) =
      let left : suc (length (take b cs ++ drop b cs)) ≤ n =
        omega (arith, ap (length {A = Candidate V}) (take-append_drop b cs)) in
      ap (after_search b n last) s
      ∙ ap (λ r. (c ∷ r.0, r.1))
          (drained-Pending b n _ (take b cs) (drop b cs) _ left
              (refilled b last c cs before _ refl e s)
            ∙ ap (λ ds. (ds, true)) (take-append_drop b cs))

  -- On a stream in the strict order of its ids, and with a positive batch size, every call of the
  -- iterator, whatever its state, yields a candidate or raises StopIteration within two rounds of
  -- its loop, and one call more than there are candidates yields the whole stream, in its order,
  -- and then StopIteration.
  pub drained-whole :
      (batch_size calls : ℕ)
      → 1 ≤ batch_size
      → suc (length all) ≤ calls
      → (drained (answered all) batch_size calls fresh_iterator ≡ (all, true))
        × ((it : BatchedCandidateIterator V)
            → ends (next_candidate (answered all) batch_size 2 it) ≡ true)
  drained-whole zero calls h k = absurd (omega arith)
  drained-whole (suc b) calls h k = (
    drained-Pending b calls none [] all false k ([], refl, refl),
    λ it. next_candidate-ends (answered all) (suc b) it h,
  )
