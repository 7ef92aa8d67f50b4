-- ===== src/StoredFederation/Audit/Batched.antt =====
-- The audit in batches.
use mathlib.Core.List.{Pairwise, Pairwise-cons}
use httk_data.Prelude.{
  ℕ, ◌≤◌, ◌≡◌, refl, ap, ap₂, ◌∙◌, false, List, [], ◌∷◌, map, length, All, arith, ok, fun_ext,
  Option, none, some, ltb, suc,
}
use httk_data.Prelude.Comparison.{not_at_most}
use httk_data.StoredFederation.Candidates.{public_id, Place, Text, Candidate, texts}
use httk_data.StoredFederation.Sources.{StoredEntryFederation, everything}
use httk_data.StoredFederation.Bounds.{id_text, is_empty}
use httk_data.StoredFederation.Streams.{streams}
use httk_data.StoredFederation.Select.{CandidateStream, candidates, all_candidates}
use httk_data.StoredFederation.Batches.{fresh_iterator, drained}
use httk_data.StoredFederation.Batches.Whole.{Ascending, answered, drained-whole}
use httk_data.StoredFederation.Audit.Ids.{Sorted}
use httk_data.StoredFederation.Audit.{all_keys, batched, audit_duplicate_ids}
use httk_data.StoredFederation.Audit.Outcome.{Audited, audit_iterators-Audited}

module _ {V : Type 0} where
  Ascending-Sorted : (all : List (Candidate V)) → Ascending all → Sorted all
  Ascending-Sorted [] a = Pairwise.nil
  Ascending-Sorted (c ∷ cs) a =
      let (first, rest) = Pairwise-cons.0 a in
      Pairwise.cons (λ d m. not_at_most texts (public_id d) (public_id c) (first d m))
        (Ascending-Sorted cs rest)

module _ {V F T E : Type 0} (search : Place → Option Text → List (Candidate V))
    (federation : StoredEntryFederation V F T E) (batch_size : ℕ) where
  -- The searches of a stream's iterator answer with the stream, whose ids ascend strictly.
  abbrev pub Searches : CandidateStream V → Type 0
  Searches stream =
      ((after : Option Text) → search stream.place after ≡ answered (candidates stream) after)
      × Ascending (candidates stream)

  batched-candidates :
      (found : List (CandidateStream V))
      → 1 ≤ batch_size
      → All Searches found
      → map (batched search batch_size) found ≡ map candidates found
  batched-candidates [] positive h = refl
  batched-candidates (stream ∷ found) positive ((answers, ascending), hs) =
      let all = candidates stream in
      let whole =
        drained-whole all ascending batch_size (suc (length all)) positive (omega arith) in
      ap₂ ◌∷◌
        (ap
            (λ (s : Option Text → List (Candidate V)).
              (drained s batch_size (suc (length (s none))) fresh_iterator).0)
            (fun_ext answers)
          ∙ ap (λ r. r.0) whole.0)
        (batched-candidates found positive hs)

  All-Sorted :
      (found : List (CandidateStream V)) → All Searches found → All Sorted (map candidates found)
  All-Sorted [] h = tt
  All-Sorted (stream ∷ found) ((answers, ascending), hs) =
      (Ascending-Sorted (candidates stream) ascending, All-Sorted found hs)

  -- If some streams share a prefix, and each of these is in the strict order of its ids, the audit
  -- in batches of any positive size passes and the ids of all these streams are different, or it
  -- names an id with exactly the origins of the candidates that have it, two or more.
  pub audit_duplicate_ids-Audited :
      (found : List (CandidateStream V))
      → 1 ≤ batch_size
      → is_empty (all_keys federation.audit_streams) ≡ false
      → streams federation everything
          ((id_text, false) ∷ [])
          (some (all_keys federation.audit_streams))
          none
        ≡ ok found
      → All Searches found
      → Audited (all_candidates found) (audit_duplicate_ids search federation batch_size)
  unfolding audit_duplicate_ids
  audit_duplicate_ids-Audited found positive some_keys f h =
      let b : ltb batch_size 1 ≡ false = ground arith in
      rw (b, some_keys, f, batched-candidates found positive h)
        (audit_iterators-Audited (map candidates found) (All-Sorted found h))
