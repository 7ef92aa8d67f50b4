-- ===== src/StoredFederation/Tests.antt =====
-- Two sources with one prefix and a stream each, and an instance of each theorem about them.
use mathlib.Core.Bool.{Bool-set}
use mathlib.Core.List.{Perm, Pairwise, Pairwise-pair}
use httk_data.Prelude.{
  ℕ, zero, suc, ◌≡◌, refl, ◌↔◌, Bool, true, false, Option, none, some, List, [], ◌∷◌, ◌++◌, length,
  map, All, arith, if◌then◌else◌, ok, err, pos,
}
use httk_data.Prelude.Comparison.{numbers}
use httk_data.Filters.Texts.{same_codes}
use httk_data.StoredFederation.Merge.{push, start_heap, merged}
use httk_data.StoredFederation.Candidates.{Text, Place, CandidateRow, Candidate, public_id}
use httk_data.StoredFederation.Select.{
  CandidateStream, all_candidates, unsorted_loop, unsorted_candidates, sorted_candidates,
}
use httk_data.StoredFederation.Select.Sorted.{InOrder}
use httk_data.StoredFederation.Sources.{
  Condition, everything, user_filter, id_equals, id_after, Plan, StoredEntrySource,
  StoredEntryFederation, grouped, new_federation, duplicate_entry_id,
}
use httk_data.StoredFederation.Bounds.{validate_page_bounds, normalized_sort}
use httk_data.StoredFederation.Probes.{probe_candidate, probe_all}
use httk_data.StoredFederation.Query.{query}
use httk_data.StoredFederation.Query.Page.{page, bound, query-union, query-InOrder}
use httk_data.StoredFederation.Batches.{
  BatchedCandidateIterator, fresh_iterator, ends, next_candidate, drained,
}
use httk_data.StoredFederation.Batches.Whole.{answered, rows_after, drained-whole}
use httk_data.StoredFederation.Audit.{same_group, audit_loop, audit_duplicate_ids}
use httk_data.StoredFederation.Audit.Outcome.{Audited}
use httk_data.StoredFederation.Audit.Batched.{audit_duplicate_ids-Audited}
use httk_data.StoredFederation.Cutoff.{snapshot_cutoff_ns}
use httk_data.StoredFederation.Cutoff.Latest.{Within, Ended, snapshot_cutoff_ns-Ended}

-- A row with an id and the value of the property `p`.
abbrev row : ℕ → Text → Option ℕ → CandidateRow ℕ
row sid content_id value = record {
  sid = sid;
  content_id = content_id;
  sort_values = value ∷ [];
  timestamp = none;
}

abbrev matching : Text → Text → List (CandidateRow ℕ) → List (CandidateRow ℕ)
matching prefix id [] = []
matching prefix id (r ∷ rows) =
    let later = matching prefix id rows in
    if same_codes (prefix ++ r.content_id) id then r ∷ later else later

-- The plan of a source whose only backing has these rows, in the order of `p`, the highest first.
abbrev found_rows : List (CandidateRow ℕ) → Condition ℕ → Text → List (CandidateRow ℕ)
found_rows rows everything prefix = rows
found_rows rows (user_filter f) prefix = rows
found_rows rows (id_equals id) prefix = matching prefix id rows
found_rows rows (id_after id) prefix = rows

abbrev plan_of : List (CandidateRow ℕ) → Plan ℕ ℕ ℕ Unit
plan_of rows = record {
  entry_type = 115 ∷ [];
  definition_id = none;
  extends_id = some (100 ∷ []);
  backings = 1;
  candidate_searchers = λ condition sort prefix as_of.
      let found = found_rows rows condition prefix in
      ok (record { backing_name = 98 ∷ []; rows = found; count = length found } ∷ []);
}

abbrev source_of : Text → ℕ → List (CandidateRow ℕ) → StoredEntrySource ℕ ℕ ℕ Unit
source_of name resolution rows = record {
  name = name;
  entry_family = 0;
  public_id_prefix = 112 ∷ [];
  store_timestamps = true;
  store_timestamp_resolution = resolution;
  plan = plan_of rows;
}

abbrev first_rows : List (CandidateRow ℕ)
first_rows = row 1 (49 ∷ []) (some 7) ∷ row 2 (51 ∷ []) (some 3) ∷ []

abbrev second_rows : List (CandidateRow ℕ)
second_rows = row 1 (50 ∷ []) (some 5) ∷ row 2 (52 ∷ []) none ∷ []

abbrev federation : StoredEntryFederation ℕ ℕ ℕ Unit
federation = grouped (source_of (65 ∷ []) 10 first_rows ∷ source_of (66 ∷ []) 1000 second_rows ∷ [])

abbrev place_of : Text → ℕ → Place
place_of name index = record {
  source = name;
  source_index = index;
  public_id_prefix = 112 ∷ [];
  backing_name = 98 ∷ [];
  backing_index = 0;
}

abbrev found : List (CandidateStream ℕ)
found =
    record { place = place_of (65 ∷ []) 0; rows = first_rows; count = 2 }
    ∷ record { place = place_of (66 ∷ []) 1; rows = second_rows; count = 2 }
    ∷ []

abbrev by_value : Text × Bool
by_value = (112 ∷ [], true)

abbrev shown_id : Unit {0} → Candidate ℕ → Text
shown_id fields c = public_id c

in_order :
    {test : Candidate ℕ → Candidate ℕ → Bool} {b : Bool} {c d : Candidate ℕ}
    → test c d ≡ b
    → Pairwise (λ x y. test x y ≡ b) (c ∷ d ∷ [])
in_order h = (Pairwise-pair (λ _ _. Bool-set _ _)).1 h

accepted :
    new_federation (source_of (65 ∷ []) 10 first_rows ∷ source_of (66 ∷ []) 1000 second_rows ∷ [])
    ≡ ok federation
unfolding new_federation
accepted = refl

-- The second and third of the four, by descending value.
sorted_page :
    query numbers shown_id federation none (by_value ∷ []) (pos 1) (some (pos 2)) none tt
    ≡ ok (record {
      rows = (112 ∷ 50 ∷ []) ∷ (112 ∷ 51 ∷ []) ∷ [];
      total_count = 4;
      more_data_available = true;
    })
unfolding query validate_page_bounds normalized_sort sorted_candidates start_heap push merged
    probe_all probe_candidate
sorted_page = refl

unsorted_page :
    query numbers shown_id federation none [] (pos 1) (some (pos 3)) none tt
    ≡ ok (record {
      rows = (112 ∷ 51 ∷ []) ∷ (112 ∷ 50 ∷ []) ∷ (112 ∷ 52 ∷ []) ∷ [];
      total_count = 4;
      more_data_available = false;
    })
unfolding query validate_page_bounds normalized_sort unsorted_candidates unsorted_loop probe_all
    probe_candidate
unsorted_page = refl

query-union_example :
    query numbers shown_id federation none [] (pos 1) (bound (some 3)) none tt
    ≡ page numbers shown_id federation none tt (all_candidates found) 1 (some 3)
query-union_example =
    query-union numbers shown_id federation none tt none found 1 (some 3) (refl, (refl, (refl, tt)))

keys_accepted : normalized_sort {E = Unit {0}} [] (by_value ∷ []) ≡ ok (by_value ∷ [])
unfolding normalized_sort
keys_accepted = refl

query-InOrder_example :
    (all : List (Candidate ℕ)) × Perm all (all_candidates found)
    × InOrder numbers (by_value ∷ []) all
    × ((offset : ℕ) (limit : Option ℕ)
        → query numbers shown_id federation none (by_value ∷ []) (pos offset) (bound limit) none tt
          ≡ page numbers shown_id federation none tt all offset limit)
query-InOrder_example =
    query-InOrder numbers shown_id federation none tt none found by_value [] keys_accepted
      (refl, (refl, (refl, tt))) (in_order refl, (in_order refl, tt))

-- The answers of two streams of ids to the searches of an audit.
abbrev searched :
    List (CandidateRow ℕ) → List (CandidateRow ℕ) → Place → Option Text → List (Candidate ℕ)
searched rows others place after =
    let mine : List (CandidateRow ℕ) = elim place.source_index [ zero ↦ rows | suc _ ↦ others ] in
    let all : List (Candidate ℕ) = map (λ r. record { place = place; row = r }) mine in
    answered all after

audit_passes : audit_duplicate_ids (searched first_rows second_rows) federation 1 ≡ ok tt
unfolding audit_duplicate_ids drained next_candidate rows_after start_heap push audit_loop
    same_group
audit_passes = refl

-- The id `p1` of both sources is found.
audit_fails :
    audit_duplicate_ids
      (searched first_rows first_rows)
      (grouped (source_of (65 ∷ []) 10 first_rows ∷ source_of (66 ∷ []) 1000 first_rows ∷ []))
      2
    ≡ err (
        duplicate_entry_id (112 ∷ 49 ∷ []) (
          record { source = 65 ∷ []; source_index = 0; backing = 98 ∷ []; content_id = 49 ∷ [] }
          ∷ record { source = 66 ∷ []; source_index = 1; backing = 98 ∷ []; content_id = 49 ∷ [] }
          ∷ []))
unfolding audit_duplicate_ids drained next_candidate rows_after start_heap push audit_loop
    same_group
audit_fails = refl

audit_duplicate_ids-Audited_example :
    Audited
      (all_candidates found)
      (audit_duplicate_ids (searched first_rows second_rows) federation 1)
audit_duplicate_ids-Audited_example =
    audit_duplicate_ids-Audited (searched first_rows second_rows) federation 1 found (omega arith)
      refl refl ((λ _. refl, in_order refl), ((λ _. refl, in_order refl), tt))

abbrev first_candidates : List (Candidate ℕ)
first_candidates = map (λ r. record { place = place_of (65 ∷ []) 0; row = r }) first_rows

drained-whole_example :
    (drained (answered first_candidates) 1 3 fresh_iterator ≡ (first_candidates, true))
    × ((it : BatchedCandidateIterator ℕ)
        → ends (next_candidate (answered first_candidates) 1 2 it) ≡ true)
drained-whole_example =
    drained-whole first_candidates (in_order refl) 1 3 (omega arith) (omega arith)

cutoff : snapshot_cutoff_ns federation 54321 ≡ some (pos 53999)
unfolding snapshot_cutoff_ns
cutoff = refl

snapshot_cutoff_ns-Ended_example :
    Within 53999 (snapshot_cutoff_ns federation 54321) ↔ All (Ended 54321 53999) federation.sources
snapshot_cutoff_ns-Ended_example =
    snapshot_cutoff_ns-Ended 54321 53999 federation ((λ _. omega arith), ((λ _. omega arith), tt))
