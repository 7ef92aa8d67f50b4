-- ===== src/StoredFederation/Select/Sorted.antt =====
-- The sorted candidates of every page come from one order of the union.
use mathlib.Core.List.{Perm, append-nil, map-map}
use mathlib.Core.List.Perm
use httk_data.Prelude.{
  ℕ, suc, ◌+◌, ◌≡◌, refl, sym, ap, ◌∙◌, Bool, Option, none, some, List, [], map, length, drop, take,
  take_limit, All, arith,
}
use httk_data.Prelude.Comparison.{Comparison}
use httk_data.StoredFederation.Merge.{Entry, start_heap, merged, contents}
use httk_data.StoredFederation.Merge.Order.{
  IsSorted, merged-perm, merged-IsSorted, start_heap-perm, start_heap-Ready,
}
use httk_data.StoredFederation.Merge.Page.{merged-page}
use httk_data.StoredFederation.Candidates.{Text, Candidate, sort_key, keys}
use httk_data.StoredFederation.Select.{
  CandidateStream, candidates, all_candidates, needed, sorted_candidates,
}

module _ {V : Type 0} (values : Comparison V) where
  abbrev pub InOrder : List (Text × Bool) → List (Candidate V) → Type 0
  InOrder sort = IsSorted (keys values) (sort_key sort)

  abbrev whole_heap : List (Text × Bool) → List (CandidateStream V) → List (Entry (Candidate V))
  whole_heap sort streams = start_heap (keys values) (sort_key sort) 0 (map candidates streams) []

  -- The merge without a limit.
  abbrev merge_all : List (Text × Bool) → List (CandidateStream V) → List (Candidate V)
  merge_all sort streams =
      merged (keys values) (sort_key sort) (length (contents (whole_heap sort streams)))
        (whole_heap sort streams)

  sorted_candidates-merge_all :
      (sort : List (Text × Bool)) (streams : List (CandidateStream V)) (offset : ℕ)
      (limit : Option ℕ)
      → sorted_candidates values streams sort offset limit
        ≡ drop offset (take_limit (needed offset limit) (merge_all sort streams))
  unfolding sorted_candidates
  sorted_candidates-merge_all sort streams offset none = refl
  sorted_candidates-merge_all sort streams offset (some limit) =
      let n = suc (offset + limit) in
      ap
        (λ cut. drop offset (
          merged (keys values) (sort_key sort) n
            (start_heap (keys values) (sort_key sort) 0 cut [])))
        (sym (map-map (take n) candidates streams))
      ∙ ap (drop offset) (
          merged-page (keys values) (sort_key sort) (offset + limit)
            (length (contents (whole_heap sort streams))) (map candidates streams) (omega arith))

  -- If each stream is in the order of the sort keys, there is one list of the candidates of all
  -- streams, in that order, from which the sorted candidates of every page are cut.
  pub sorted_candidates-order :
      (sort : List (Text × Bool)) (streams : List (CandidateStream V))
      → All (InOrder sort) (map candidates streams)
      → (all : List (Candidate V)) × Perm all (all_candidates streams)
        × InOrder sort all
        × ((offset : ℕ) (limit : Option ℕ)
            → sorted_candidates values streams sort offset limit
              ≡ drop offset (take_limit (needed offset limit) all))
  sorted_candidates-order sort streams h =
      let key = sort_key {V = V} sort in
      let heap = whole_heap sort streams in
      let ready = start_heap-Ready (keys values) key 0 (map candidates streams) [] h tt in
      let whole = start_heap-perm (keys values) key 0 (map candidates streams) [] in
      (
        merge_all sort streams,
        Perm.trans (merged-perm (keys values) key _ heap (omega arith))
            (rw (append-nil (all_candidates streams)) at whole),
        merged-IsSorted (keys values) key _ heap (omega arith) ready,
        sorted_candidates-merge_all sort streams,
      )
