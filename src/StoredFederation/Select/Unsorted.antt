-- ===== src/StoredFederation/Select/Unsorted.antt =====
-- The unsorted candidates of every page are cut from the union of the streams.
use httk_data.Prelude.{
  ℕ, zero, suc, ◌+◌, ◌-◌, ◌<◌, ◌≡◌, refl, sym, ap, ◌∙◌, true, Option, none, some, List, [], ◌∷◌,
  ◌++◌, length, drop, take, take_limit, All, arith, length-map, length-drop, Bool-cases, inl, inr,
  leb, ◌==◌, if◌then◌else◌,
}
use httk_data.Prelude.Slices.{
  take-drop, drop-append_past, drop-append_within, take-append, take-nil, take-min, take-all,
  map-take, map-drop,
}
use httk_data.StoredFederation.Candidates.{Candidate}
use httk_data.StoredFederation.Select.{
  CandidateStream, candidate_of, candidates, all_candidates, candidates_between, needed,
  with_sentinel, take_count, remaining_after, exhausted, unsorted_loop, unsorted_candidates,
}

take_limit-append :
    {A : Type 0} (r : Option ℕ) (xs ys : List A)
    → take_limit r (xs ++ ys)
      ≡ take_limit r xs ++ take_limit (remaining_after r (length (take_limit r xs))) ys
take_limit-append none xs ys = refl
take_limit-append (some r) xs ys = take-append r xs ys

take_limit-exhausted :
    {A : Type 0} (r : Option ℕ) (xs : List A) → exhausted r ≡ true → take_limit r xs ≡ []
take_limit-exhausted none xs h = cc
take_limit-exhausted (some r) xs h = let e : r ≡ 0 = ground arith in rw e refl

take-take_count :
    {A : Type 0} (r : Option ℕ) (xs : List A) → take (take_count (length xs) r) xs ≡ take_limit r xs
take-take_count none xs = take-all xs
take-take_count (some r) xs = take-min r xs

take_limit-drop :
    {A : Type 0} (l : Option ℕ) (m : ℕ) (xs : List A)
    → take_limit (with_sentinel l) (drop m xs) ≡ drop m (take_limit (needed m l) xs)
take_limit-drop none m xs = refl
take_limit-drop (some l) m xs =
    let e : m + suc l ≡ suc (m + l) = omega arith in rw (← e) (take-drop (suc l) m xs)

nothing_wanted :
    (r : Option ℕ) (left : ℕ) → 0 < left → (take_count left r == 0) ≡ true → exhausted r ≡ true
nothing_wanted none left h e = ground arith
nothing_wanted (some r) left h e = ground arith

module _ {V : Type 0} where
  -- The searcher counts the rows that it yields.
  abbrev pub Counts : CandidateStream V → Type 0
  Counts stream = stream.count ≡ length stream.rows

  between :
      (skipped wanted : ℕ) (stream : CandidateStream V)
      → candidates_between skipped wanted stream ≡ take wanted (drop skipped (candidates stream))
  between skipped wanted stream =
      map-take (candidate_of stream.place) wanted (drop skipped stream.rows)
      ∙ ap (take wanted) (map-drop (candidate_of stream.place) skipped stream.rows)

  -- What the loop fetches from a stream that it does not skip.
  fetched-rest :
      (r : Option ℕ) (skipped : ℕ) (stream : CandidateStream V)
      → Counts stream
      → candidates_between skipped (take_count (stream.count - skipped) r) stream
        ≡ take_limit r (drop skipped (candidates stream))
  fetched-rest r skipped stream c =
      let zs = drop skipped (candidates stream) in
      let e : stream.count - skipped ≡ length zs = omega (
        arith,
        c,
        length-drop skipped (candidates stream),
        length-map (candidate_of stream.place) stream.rows,
      ) in
      between skipped (take_count (stream.count - skipped) r) stream
      ∙ ap (λ k. take (take_count k r) zs) e
      ∙ take-take_count r zs

  later-rest :
      (r : Option ℕ) (ys later : List (Candidate V))
      → later ≡ take_limit r ys
      → (if exhausted r then [] else later) ≡ take_limit r ys
  later-rest r ys later h = elim (Bool-cases (exhausted r)) [
    | inl e ↦ rw e (sym (take_limit-exhausted r ys e))
    | inr e ↦ rw e h
  ]

  take_limit-nothing : (r : Option ℕ) (n : ℕ) → take_limit r (drop {A = Candidate V} n []) ≡ []
  take_limit-nothing none zero = refl
  take_limit-nothing none (suc n) = refl
  take_limit-nothing (some r) zero = take-nil r
  take_limit-nothing (some r) (suc n) = take-nil r

  unsorted_loop_pages :
      (r : Option ℕ) (skipped : ℕ) (streams : List (CandidateStream V))
      → All Counts streams
      → unsorted_loop r skipped streams ≡ take_limit r (drop skipped (all_candidates streams))
  unfolding unsorted_loop
  unsorted_loop_pages r skipped [] h = sym (take_limit-nothing r skipped)
  unsorted_loop_pages r skipped (stream ∷ streams) (c, cs) =
      let xs = candidates stream in
      let ys = all_candidates streams in
      let n : length xs ≡ stream.count =
        omega (arith, c, length-map (candidate_of stream.place) stream.rows) in
      elim (Bool-cases (leb stream.count skipped)) [
        | inl h ↦ rw h (
            unsorted_loop_pages r (skipped - stream.count) streams cs
            ∙ ap (take_limit r) (
                ap (λ k. drop (skipped - k) ys) (sym n)
                ∙ sym (drop-append_past skipped xs ys (ground arith))))
        | inr h ↦
            let w = take_count (stream.count - skipped) r in
            let fetched = candidates_between skipped w stream in
            let left = remaining_after r (length fetched) in
            elim (Bool-cases (w == 0)) [
              | inl e ↦
                  rw (h, e) (sym (take_limit-exhausted r _ (nothing_wanted r _ (ground arith) e)))
              | inr e ↦
                  rw (h, e)
                    (ap (λ zs. fetched ++ zs)
                        (later-rest left ys _ (unsorted_loop_pages left 0 streams cs))
                      ∙ ap (λ zs. zs ++ take_limit (remaining_after r (length zs)) ys)
                          (fetched-rest r skipped stream c)
                      ∙ sym (take_limit-append r (drop skipped xs) ys)
                      ∙ ap (take_limit r) (sym (drop-append_within skipped xs ys (ground arith))))
            ]
      ]

  -- When the searchers count the rows that they yield, the unsorted candidates of every page are
  -- cut from the candidates of the streams, one stream after the other.
  pub unsorted_candidates-union :
      (streams : List (CandidateStream V)) (offset : ℕ) (limit : Option ℕ)
      → All Counts streams
      → unsorted_candidates streams offset limit
        ≡ drop offset (take_limit (needed offset limit) (all_candidates streams))
  unfolding unsorted_candidates
  unsorted_candidates-union streams offset limit h =
      unsorted_loop_pages (with_sentinel limit) offset streams h
      ∙ take_limit-drop limit offset (all_candidates streams)
