-- ===== src/StoredFederation/Select.antt =====
-- `_candidates`, `_unsorted_candidates` and `_sorted_candidates`.
pub mod Sorted
pub mod Unsorted
use httk_data.Prelude.{
  ℕ, zero, suc, ◌+◌, ◌-◌, Bool, false, Option, none, some, List, [], ◌∷◌, ◌++◌, map, length, take,
  drop, min, take_limit, leb, ◌==◌, if◌then◌else◌,
}
use httk_data.Prelude.Comparison.{Comparison}
use httk_data.StoredFederation.Merge.{start_heap, merged, contents, union}
use httk_data.StoredFederation.Candidates.{
  Text, Place, CandidateRow, Candidate, Part, sort_key, keys,
}

-- A `_Stream`: `rows` are what its searcher yields before it has an offset or a limit, and `count`
-- is what the searcher's `count` returns then.
pub record CandidateStream (V : Type 0) : Type 0 where
  pub place : Place
  pub rows : List (CandidateRow V)
  pub count : ℕ

abbrev pub with_sentinel : Option ℕ → Option ℕ
with_sentinel none = none
with_sentinel (some limit) = some (suc limit)

-- The number of candidates of each stream up to the page's end and its sentinel.
abbrev pub needed : ℕ → Option ℕ → Option ℕ
needed offset none = none
needed offset (some limit) = some (suc (offset + limit))

-- The rounds of the loop of a merge: up to its target, or until the heap is empty.
abbrev pub rounds : Option ℕ → ℕ → ℕ
rounds none all = all
rounds (some target) all = target

abbrev pub take_count : ℕ → Option ℕ → ℕ
take_count left none = left
take_count left (some remaining) = min left remaining

abbrev pub remaining_after : Option ℕ → ℕ → Option ℕ
remaining_after none fetched = none
remaining_after (some remaining) fetched = some (remaining - fetched)

abbrev pub exhausted : Option ℕ → Bool
exhausted none = false
exhausted (some remaining) = remaining == 0

module _ {V : Type 0} where
  abbrev pub candidate_of : Place → CandidateRow V → Candidate V
  candidate_of place row = record { place = place; row = row }

  abbrev pub candidates : CandidateStream V → List (Candidate V)
  candidates stream = map (candidate_of stream.place) stream.rows

  -- The candidates of the streams, one stream after the other.
  abbrev pub all_candidates : List (CandidateStream V) → List (Candidate V)
  all_candidates streams = union (map candidates streams)

  -- `add_offset` and `set_limit` of the stream's searcher, and then `_candidates`.
  abbrev pub candidates_between : ℕ → ℕ → CandidateStream V → List (Candidate V)
  candidates_between offset limit stream =
      map (candidate_of stream.place) (take limit (drop offset stream.rows))

  -- The loop over the streams, with `remaining` and `skipped`.
  unfoldable pub unsorted_loop : Option ℕ → ℕ → List (CandidateStream V) → List (Candidate V)
  unsorted_loop remaining skipped [] = []
  unsorted_loop remaining skipped (stream ∷ streams) =
      let wanted = take_count (stream.count - skipped) remaining in
      let fetched = candidates_between skipped wanted stream in
      let left = remaining_after remaining (length fetched) in
      let past = unsorted_loop remaining (skipped - stream.count) streams in
      let later = unsorted_loop left 0 streams in
      if leb stream.count skipped
      then past
      else if wanted == 0
      then []
      else fetched ++ (if exhausted left then [] else later)

  unfoldable pub unsorted_candidates : List (CandidateStream V) → ℕ → Option ℕ → List (Candidate V)
  unsorted_candidates streams offset limit = unsorted_loop (with_sentinel limit) offset streams

module _ {V : Type 0} (values : Comparison V) where
  unfoldable pub sorted_candidates :
      List (CandidateStream V) → List (Text × Bool) → ℕ → Option ℕ → List (Candidate V)
  sorted_candidates streams sort offset limit =
      let key : Candidate V → List (Part V) × (Text × (ℕ × Text)) = sort_key sort in
      let cut = map (λ stream. take_limit (needed offset limit) (candidates stream)) streams in
      let heap = start_heap (keys values) key 0 cut [] in
      drop offset
        (merged (keys values) key (rounds (needed offset limit) (length (contents heap))) heap)
