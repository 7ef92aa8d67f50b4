-- ===== src/StoredFederation/Query/Page.antt =====
-- A page of the federation is the page of one list of all candidates.
use mathlib.Core.List.{Perm}
use httk_data.Prelude.{
  ℕ, suc, ◌+◌, ◌-◌, ◌≡◌, refl, sym, ap, ap₂, ◌∙◌, Bool, false, Option, none, some, List, [], ◌∷◌,
  map, length, drop, take, take_limit, min, All, arith, ltb, length-map, length-drop, length-take,
  length-append, Result, ok, ◌>>=◌, ℤ, pos,
}
use httk_data.Prelude.Comparison.{Comparison}
use httk_data.Prelude.Permutations.{length-Perm}
use httk_data.Prelude.Slices.{take-drop, take-take, take-min, take-all}
use httk_data.StoredFederation.Candidates.{Text, Candidate}
use httk_data.StoredFederation.Select.{
  CandidateStream, sorted_candidates, candidate_of, candidates, all_candidates, needed,
}
use httk_data.StoredFederation.Select.Sorted.{InOrder, sorted_candidates-order}
use httk_data.StoredFederation.Select.Unsorted.{Counts, unsorted_candidates-union}
use httk_data.StoredFederation.Sources.{StoredError, StoredEntryFederation}
use httk_data.StoredFederation.Streams.{streams}
use httk_data.StoredFederation.Bounds.{validate_page_bounds, normalized_sort, stream_sort}
use httk_data.StoredFederation.Probes.{probe_all}
use httk_data.StoredFederation.Query.{
  StoredEntryPage, visible_count, more_than, total, condition_of, page_of, query,
}

-- Python's integer, and its absent limit.
abbrev pub bound : Option ℕ → Option ℤ
bound none = none
bound (some limit) = some (pos limit)

-- Whether a list goes on after a page.
abbrev pub goes_on : ℕ → Option ℕ → ℕ → Bool
goes_on offset none size = false
goes_on offset (some limit) size = ltb (offset + limit) size

module _ {A : Type 0} where
  visible-cut :
      (offset : ℕ) (limit : Option ℕ) (all : List A)
      → take
          (visible_count limit (length (drop offset (take_limit (needed offset limit) all))))
          (drop offset (take_limit (needed offset limit) all))
        ≡ take_limit limit (drop offset all)
  visible-cut offset none all = take-all (drop offset all)
  visible-cut offset (some limit) all =
      let zs = drop offset (take (suc (offset + limit)) all) in
      let m : min limit (length zs) ≡ min (length zs) limit = omega arith in
      let e : offset + suc limit ≡ suc (offset + limit) = omega arith in
      ap (λ k. take k zs) m
      ∙ take-min limit zs
      ∙ ap (λ k. take limit (drop offset (take k all))) (sym e)
      ∙ ap (take limit) (sym (take-drop (suc limit) offset all))
      ∙ take-take limit (drop offset all)

  more-cut :
      (offset : ℕ) (limit : Option ℕ) (all : List A)
      → more_than limit
          (visible_count limit (length (drop offset (take_limit (needed offset limit) all))))
          (length (drop offset (take_limit (needed offset limit) all)))
        ≡ goes_on offset limit (length all)
  more-cut offset none all = refl
  more-cut offset (some limit) all =
      let n : length (drop offset (take (suc (offset + limit)) all))
          ≡ min (suc (offset + limit)) (length all) - offset =
        omega (
          arith,
          length-drop offset (take (suc (offset + limit)) all),
          length-take (suc (offset + limit)) all,
        ) in
      rw n (ground arith)

module _ {V : Type 0} where
  total-length :
      (found : List (CandidateStream V))
      → All Counts found
      → total found ≡ length (all_candidates found)
  total-length [] h = refl
  total-length (stream ∷ found) (h, hs) = omega (
    arith,
    h,
    total-length found hs,
    length-map (candidate_of stream.place) stream.rows,
    length-append (candidates stream) (all_candidates found),
  )

module _ {V F T E R Fields : Type 0} (values : Comparison V) (render : Fields → Candidate V → R)
    (federation : StoredEntryFederation V F T E) (as_of : Option T) (fields : Fields) where
  abbrev answer : List (Candidate V) → ℕ → Bool → Result (StoredError E) (StoredEntryPage R)
  answer visible total_count more = probe_all federation visible as_of >>= λ _. ok (record {
    rows = map (render fields) visible;
    total_count = total_count;
    more_data_available = more;
  })

  -- The page at `offset` of a list of all candidates, unless an id that it shows is not unique.
  abbrev pub page : List (Candidate V) → ℕ → Option ℕ → Result (StoredError E) (StoredEntryPage R)
  page all offset limit =
      answer (take_limit limit (drop offset all)) (length all) (goes_on offset limit (length all))

  page_of-cut :
      (n offset : ℕ) (limit : Option ℕ) (all found : List (Candidate V))
      → n ≡ length all
      → found ≡ drop offset (take_limit (needed offset limit) all)
      → page_of values render federation as_of fields limit n found ≡ page all offset limit
  page_of-cut n offset limit all found e f =
      let zs = drop offset (take_limit (needed offset limit) all) in
      let shown = visible_count limit (length zs) in
      ap (page_of values render federation as_of fields limit n) f
      ∙ ap (λ visible. answer visible n (more_than limit shown (length zs)))
          (visible-cut offset limit all)
      ∙ ap₂ (answer (take_limit limit (drop offset all))) e (more-cut offset limit all)

  module _ (filter : Option F) (found : List (CandidateStream V)) where
    -- The search finds these streams, whose searchers count their rows.
    abbrev pub Finds : List (Text × Bool) → Type 0
    Finds keys =
        (streams federation (condition_of filter) keys none as_of ≡ ok found) × All Counts found

    -- Without sort keys every page is cut from the candidates of the streams, one stream after the
    -- other.
    pub query-union :
        (offset : ℕ) (limit : Option ℕ)
        → Finds []
        → query values render federation filter [] (pos offset) (bound limit) as_of fields
          ≡ page (all_candidates found) offset limit
    unfolding query validate_page_bounds normalized_sort
    query-union offset none (f, counts) = rw f (
        page_of-cut _ offset none _ _ (total-length found counts)
          (unsorted_candidates-union found offset none counts))
    query-union offset (some limit) (f, counts) = rw f (
        page_of-cut _ offset (some limit) _ _ (total-length found counts)
          (unsorted_candidates-union found offset (some limit) counts))

    query-sorted :
        (key : Text × Bool) (keys : List (Text × Bool)) (all : List (Candidate V)) (offset : ℕ)
        (limit : Option ℕ)
        → normalized_sort {E = E} [] (key ∷ keys) ≡ ok (key ∷ keys)
        → Finds (stream_sort (key ∷ keys))
        → length (all_candidates found) ≡ length all
        → sorted_candidates values found (key ∷ keys) offset limit
          ≡ drop offset (take_limit (needed offset limit) all)
        → query values render federation filter (key ∷ keys) (pos offset) (bound limit) as_of fields
          ≡ page all offset limit
    unfolding query validate_page_bounds
    query-sorted key keys all offset none n (f, counts) e cut =
        rw (n, f) (page_of-cut _ offset none all _ (total-length found counts ∙ e) cut)
    query-sorted key keys all offset (some limit) n (f, counts) e cut =
        rw (n, f) (page_of-cut _ offset (some limit) all _ (total-length found counts ∙ e) cut)

    -- If the sort keys are accepted, and each stream that the search finds is in their order and
    -- is counted rightly, there is one list of the candidates of all streams, in that order, from
    -- which every page is cut: its rows, the total and whether more follow, unless a shown id
    -- is found in another stream too.
    pub query-InOrder :
        (key : Text × Bool) (keys : List (Text × Bool))
        → normalized_sort {E = E} [] (key ∷ keys) ≡ ok (key ∷ keys)
        → Finds (stream_sort (key ∷ keys))
        → All (InOrder values (key ∷ keys)) (map candidates found)
        → (all : List (Candidate V)) × Perm all (all_candidates found)
          × InOrder values (key ∷ keys) all
          × ((offset : ℕ) (limit : Option ℕ)
              → query values render federation filter
                  (key ∷ keys)
                  (pos offset)
                  (bound limit)
                  as_of
                  fields
                ≡ page all offset limit)
    query-InOrder key keys n finds sorted =
        let (all, perm, in_order, cut) = sorted_candidates-order values (key ∷ keys) found sorted in
        (
          all,
          perm,
          in_order,
          λ offset limit.
              query-sorted key keys all offset limit n finds (sym (length-Perm perm))
                (cut offset limit),
        )
