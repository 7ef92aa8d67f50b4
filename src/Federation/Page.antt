-- ===== src/Federation/Page.antt =====
-- A result set as a page of the union that its sources serve.
use httk_data.Prelude.{
  ℕ, zero, suc, ◌+◌, ◌-◌, ◌≡◌, refl, sym, ◌∙◌, ap, min, true, String, Option, none, some, List, [],
  ◌∷◌, take, drop, All, arith, Result, ok, err,
}
use httk_data.Federation.Stream.{of_list}
use httk_data.Federation.Child.{Types}
use httk_data.Federation.Plan.{Cell, FederatedPlan, Sources}
use httk_data.Federation.Execute.{effective_limit, execute_plan}
use httk_data.Federation.Results.{
  remaining, Bound, slice, unit_step, start_of, stop_of, get_item, sliced_plan, first, first_of,
  one, one_of, ResultError, no_result, multiple_results,
}
use httk_data.Federation.Limits.{take_limit, drop-nil}
use httk_data.Federation.Union.{Serves, union, execute_plan-union}

module _ {A : Type 0} where
  take-nil : (n : ℕ) → take {A = A} n [] ≡ []
  take-nil zero = refl
  take-nil (suc n) = refl

  drop-drop : (m n : ℕ) (xs : List A) → drop (m + n) xs ≡ drop n (drop m xs)
  drop-drop zero n xs = let e : 0 + n ≡ n = omega arith in ap (λ k. drop k xs) e
  drop-drop (suc m) n [] = drop-nil (suc m + n) ∙ sym (drop-nil n)
  drop-drop (suc m) n (x ∷ xs) =
      let e : suc m + n ≡ suc (m + n) = omega arith in
      ap (λ k. drop k (x ∷ xs)) e ∙ drop-drop m n xs

  take-take : (m n : ℕ) (xs : List A) → take (min m n) xs ≡ take n (take m xs)
  take-take m n [] = take-nil (min m n) ∙ sym (ap (take n) (take-nil m) ∙ take-nil n)
  take-take zero n (x ∷ xs) =
      let e : min 0 n ≡ 0 = omega arith in ap (λ k. take k (x ∷ xs)) e ∙ sym (take-nil n)
  take-take (suc m) zero (x ∷ xs) =
      let e : min (suc m) 0 ≡ 0 = omega arith in ap (λ k. take k (x ∷ xs)) e
  take-take (suc m) (suc n) (x ∷ xs) =
      let e : min (suc m) (suc n) ≡ suc (min m n) = omega arith in
      ap (λ k. take k (x ∷ xs)) e ∙ ap (λ zs. x ∷ zs) (take-take m n xs)

  drop-take : (m n : ℕ) (xs : List A) → take (m - n) (drop n xs) ≡ drop n (take m xs)
  drop-take m zero xs = let e : m - 0 ≡ m = omega arith in ap (λ k. take k xs) e
  drop-take m (suc n) [] = take-nil (m - suc n) ∙ sym (ap (drop (suc n)) (take-nil m))
  drop-take zero (suc n) (x ∷ xs) =
      let e : 0 - suc n ≡ 0 = omega arith in ap (λ k. take k (drop n xs)) e
  drop-take (suc m) (suc n) (x ∷ xs) =
      let e : suc m - suc n ≡ m - n = omega arith in
      ap (λ k. take k (drop n xs)) e ∙ drop-take m n xs

  -- `xs[start:stop]`
  abbrev pub slice_of : ℕ → Option ℕ → List A → List A
  slice_of start none xs = drop start xs
  slice_of start (some end) xs = take (end - start) (drop start xs)

  limited-page :
      (n offset start : ℕ) (xs : List A)
      → take (n - start) (drop (offset + start) xs) ≡ drop start (take n (drop offset xs))
  limited-page n offset start xs =
      ap (take (n - start)) (drop-drop offset start xs) ∙ drop-take n start (drop offset xs)

  slice-page :
      (limit : Option ℕ) (offset start : ℕ) (end : Option ℕ) (xs : List A)
      → take_limit (remaining limit start end) (drop (offset + start) xs)
        ≡ slice_of start end (take_limit limit (drop offset xs))
  slice-page none offset start none xs = drop-drop offset start xs
  slice-page none offset start (some end) xs = ap (take (end - start)) (drop-drop offset start xs)
  slice-page (some n) offset start none xs = limited-page n offset start xs
  slice-page (some n) offset start (some end) xs =
      take-take (n - start) (end - start) (drop (offset + start) xs)
      ∙ ap (take (end - start)) (limited-page n offset start xs)

  take_limit-effective_limit :
      (limit : Option ℕ) (maximum : ℕ) (xs : List A)
      → take_limit (effective_limit limit (some maximum)) xs ≡ take maximum (take_limit limit xs)
  take_limit-effective_limit none maximum xs = refl
  take_limit-effective_limit (some n) maximum xs = take-take n maximum xs

-- `None` for no row, and the first row else.
abbrev pub head : {A : Type 0} → List A → Option A
head [] = none
head (x ∷ xs) = some x

-- What `one()` is to return.
abbrev pub sole_of : {A : Type 0} → List A → Result ResultError A
sole_of [] = err no_result
sole_of (x ∷ []) = ok x
sole_of (x ∷ y ∷ xs) = err multiple_results

module _ (t : Types) where
  open t use {Target, Value}

  -- The rows that a plan shows of what its sources serve.
  abbrev pub shown : FederatedPlan t → (String → Target → List (List Value)) → List (List (Cell t))
  shown p rows = take_limit p.limit (drop p.offset (union t p.outputs rows p.sources))

  -- Iterating over the result set yields the rows that it shows, and no error.
  pub execute_plan-shown :
      (stores : Sources t) (p : FederatedPlan t) (rows : String → Target → List (List Value))
      → All (Serves t stores p rows) p.sources
      → execute_plan t stores p none ≡ of_list (shown p rows)
  execute_plan-shown stores p rows hs = execute_plan-union t stores p rows none hs

  execute_plan-maximum :
      (stores : Sources t) (p : FederatedPlan t) (rows : String → Target → List (List Value))
      (maximum : ℕ)
      → All (Serves t stores p rows) p.sources
      → execute_plan t stores p (some maximum) ≡ of_list (take maximum (shown p rows))
  execute_plan-maximum stores p rows maximum hs =
      execute_plan-union t stores p rows (some maximum) hs
      ∙ ap of_list (
          take_limit-effective_limit p.limit maximum
            (drop p.offset (union t p.outputs rows p.sources)))

  first_of-of_list : (xs : List (List (Cell t))) → first_of t (of_list (take 1 xs)) ≡ ok (head xs)
  first_of-of_list [] = refl
  first_of-of_list (x ∷ xs) = refl

  one_of-of_list : (xs : List (List (Cell t))) → one_of t (of_list (take 2 xs)) ≡ sole_of xs
  one_of-of_list [] = refl
  one_of-of_list (x ∷ []) = refl
  one_of-of_list (x ∷ y ∷ xs) = refl

  -- When every source serves its rows, `first()` returns the first row shown, or `None`.
  pub first-shown :
      (stores : Sources t) (p : FederatedPlan t) (rows : String → Target → List (List Value))
      → All (Serves t stores p rows) p.sources
      → first t stores p ≡ ok (head (shown p rows))
  unfolding first
  first-shown stores p rows hs =
      ap (first_of t) (execute_plan-maximum stores p rows 1 hs) ∙ first_of-of_list (shown p rows)

  -- When every source serves its rows, `one()` returns the row shown if there is exactly one, and
  -- raises `NoResultError` or `MultipleResultsError` otherwise.
  pub one-shown :
      (stores : Sources t) (p : FederatedPlan t) (rows : String → Target → List (List Value))
      → All (Serves t stores p rows) p.sources
      → one t stores p ≡ sole_of (shown p rows)
  unfolding one
  one-shown stores p rows hs =
      ap (one_of t) (execute_plan-maximum stores p rows 2 hs) ∙ one_of-of_list (shown p rows)

  -- A slice with a step of one and nonnegative bounds shows the slice of the rows, from the same
  -- sources and with the same count cache.
  pub get_item-shown :
      (p : FederatedPlan t) (rows : String → Target → List (List Value)) (start end step : Bound)
      (m : ℕ) (n : Option ℕ)
      → unit_step step ≡ true
      → start_of start ≡ some m
      → stop_of end ≡ some n
      → (q : FederatedPlan t) × (get_item t p (slice start end step) ≡ ok q)
        × (shown q rows ≡ slice_of m n (shown p rows))
        × (q.count_cache ≡ p.count_cache)
  unfolding get_item
  get_item-shown p rows start end step m n unit first last = (
    sliced_plan t p m n,
    rw (unit, first, last),
    slice-page p.limit p.offset m n (union t p.outputs rows p.sources),
    refl,
  )
