-- ===== src/StoredFederation/Query.antt =====
-- `query` and `fetch` of `StoredEntryFederation`. The rendering of a candidate's record is a
-- parameter.
pub mod Page
use httk_data.Prelude.{
  ℕ, ◌+◌, Bool, false, Option, none, some, List, [], ◌∷◌, map, length, take, ltb, min,
  if◌then◌else◌, Result, ok, ◌>>=◌, ℤ,
}
use httk_data.Prelude.Comparison.{Comparison}
use httk_data.StoredFederation.Candidates.{Text, Candidate}
use httk_data.StoredFederation.Select.{CandidateStream, unsorted_candidates, sorted_candidates}
use httk_data.StoredFederation.Sources.{
  StoredError, Condition, user_filter, everything, StoredEntryFederation,
}
use httk_data.StoredFederation.Streams.{streams}
use httk_data.StoredFederation.Bounds.{validate_page_bounds, normalized_sort, stream_sort, is_empty}
use httk_data.StoredFederation.Probes.{probe_all, probe_public_id}

-- One immutable page.
pub record StoredEntryPage (R : Type 0) : Type 0 where
  pub rows : List R
  pub total_count : ℕ
  pub more_data_available : Bool

abbrev pub visible_count : Option ℕ → ℕ → ℕ
visible_count none found = found
visible_count (some limit) found = min limit found

abbrev pub more_than : Option ℕ → ℕ → ℕ → Bool
more_than none visible found = false
more_than (some limit) visible found = ltb visible found

abbrev pub total : {V : Type 0} → List (CandidateStream V) → ℕ
total [] = 0
total (stream ∷ rest) = stream.count + total rest

abbrev pub condition_of : {F : Type 0} → Option F → Condition F
condition_of none = everything
condition_of (some filter) = user_filter filter

abbrev pub chosen :
    {V : Type 0}
    → Comparison V
    → List (Text × Bool)
    → List (CandidateStream V)
    → ℕ
    → Option ℕ
    → List (Candidate V)
chosen values sort found offset limit =
    if is_empty sort
    then unsorted_candidates found offset limit
    else sorted_candidates values found sort offset limit

module _ {V F T E R Fields : Type 0} (values : Comparison V)
    (render : Fields → Candidate V → R) where
  -- The page of the candidates that the merge returned.
  abbrev pub page_of :
      StoredEntryFederation V F T E
      → Option T
      → Fields
      → Option ℕ
      → ℕ
      → List (Candidate V)
      → Result (StoredError E) (StoredEntryPage R)
  page_of federation as_of fields limit total_count found =
      let shown = visible_count limit (length found) in
      let visible = take shown found in
      probe_all federation visible as_of >>= λ _. ok (record {
        rows = map (render fields) visible;
        total_count = total_count;
        more_data_available = more_than limit shown (length found);
      })

  unfoldable pub query :
      StoredEntryFederation V F T E
      → Option F
      → List (Text × Bool)
      → ℤ
      → Option ℤ
      → Option T
      → Fields
      → Result (StoredError E) (StoredEntryPage R)
  query federation filter sort offset limit as_of fields =
      validate_page_bounds offset limit >>= λ (bounds : ℕ × Option ℕ).
      normalized_sort [] sort >>= λ ordered.
      streams federation (condition_of filter)
        (if is_empty ordered then [] else stream_sort ordered) none as_of
      >>= λ found.
          page_of federation as_of fields bounds.1 (total found)
            (chosen values ordered found bounds.0 bounds.1)

  -- The public id's row, or None.
  unfoldable pub fetch :
      StoredEntryFederation V F T E → Text → Option T → Fields → Result (StoredError E) (Option R)
  fetch federation id as_of fields = probe_public_id federation id as_of >>= λ matches.
      elim matches [ [] ↦ ok none | c ∷ cs ↦ ok (some (render fields c)) ]
