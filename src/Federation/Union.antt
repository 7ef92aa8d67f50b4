-- ===== src/Federation/Union.antt =====
-- The paging of the federation is the paging of the union.
use httk_data.Prelude.{
  ℕ, suc, ◌+◌, ◌-◌, ◌≤◌, ◌≡◌, sym, ◌∙◌, ap, ap₂, true, false, String, Option, List, [], ◌∷◌, ◌++◌,
  map, length, drop, All, ltb, arith, Bool-cases, inl, inr, if◌then◌else◌, ok,
}
use httk_data.Federation.Stream.{Stream, stop, yield_, of_list}
use httk_data.Federation.Child.{Failure, Output, Types}
use httk_data.Federation.Plan.{FederatedError, Cell, FederatedPlan, Sources, open_source}
use httk_data.Federation.Execute.{
  plan_row, reached, width, emit, child_limit_of, run_sources, effective_limit, execute_plan,
}
use httk_data.Federation.Limits.{
  take_limit, rest_of, sub-zero, rest_of-zero, drop-nil, take_limit-nil, take_limit-reached,
  take_limit-rest_of, page-take_limit, map-take_limit, All-take_limit,
}

module _ (t : Types) where
  open t use {Target, Value}

  -- A row that fits the declared projection.
  abbrev pub Fits : List Output → List Value → Type 0
  Fits outputs row = length row ≡ width outputs

  -- The page of a union of which `s` rows are skipped and `y` rows are shown.
  abbrev page : ℕ → Option ℕ → ℕ → ℕ → List (List (Cell t)) → Stream FederatedError (List (Cell t))
  page m l s y rows = of_list (take_limit (rest_of l y) (drop (m - s) rows))

  page-nil : (m : ℕ) (l : Option ℕ) (s y : ℕ) → page m l s y [] ≡ stop
  page-nil m l s y =
      ap (λ zs. of_list (take_limit (rest_of l y) zs)) (drop-nil (m - s))
      ∙ ap of_list (take_limit-nil (rest_of l y))

  page-skipped :
      (m : ℕ) (l : Option ℕ) (s y : ℕ) (z : List (Cell t)) (zs : List (List (Cell t)))
      → ltb s m ≡ true
      → page m l (s + 1) y zs ≡ page m l s y (z ∷ zs)
  page-skipped m l s y z zs h =
      let e : suc (m - (s + 1)) ≡ m - s = ground arith in
      ap (λ k. of_list (take_limit (rest_of l y) (drop k (z ∷ zs)))) e

  page-shown :
      (m : ℕ) (l : Option ℕ) (s y : ℕ) (z : List (Cell t)) (zs : List (List (Cell t)))
      → ltb s m ≡ false
      → reached l y ≡ false
      → page m l s y (z ∷ zs) ≡ yield_ z (page m l s (y + 1) zs)
  page-shown m l s y z zs h r =
      let e : m - s ≡ 0 = ground arith in
      ap (λ k. of_list (take_limit (rest_of l y) (drop k (z ∷ zs)))) e
      ∙ ap of_list (take_limit-rest_of l y z zs r)
      ∙ ap (λ k. yield_ z (of_list (take_limit (rest_of l (y + 1)) (drop k zs)))) (sym e)

  page-reached :
      (m : ℕ) (l : Option ℕ) (s y : ℕ) (zs : List (List (Cell t)))
      → reached l y ≡ true
      → page m l s y zs ≡ stop
  page-reached m l s y zs r = ap of_list (take_limit-reached l y (drop (m - s) zs) r)

  emit-skipped :
      (m : ℕ) (l : Option ℕ) (outputs : List Output) (source : String)
      (next : ℕ → ℕ → Stream FederatedError (List (Cell t))) (row : List Value)
      (rows : List (List Value)) (s y : ℕ)
      → Fits outputs row
      → ltb s m ≡ true
      → emit t m l outputs source next (of_list (row ∷ rows)) s y
        ≡ emit t m l outputs source next (of_list rows) (s + 1) y
  unfolding emit
  emit-skipped m l outputs source next row rows s y fit h = ground arith

  emit-shown :
      (m : ℕ) (l : Option ℕ) (outputs : List Output) (source : String)
      (next : ℕ → ℕ → Stream FederatedError (List (Cell t))) (row : List Value)
      (rows : List (List Value)) (s y : ℕ)
      → Fits outputs row
      → ltb s m ≡ false
      → emit t m l outputs source next (of_list (row ∷ rows)) s y
        ≡ yield_ (plan_row t source outputs row) (
            if reached l (y + 1)
            then stop
            else emit t m l outputs source next (of_list rows) s (y + 1))
  unfolding emit
  emit-shown m l outputs source next row rows s y fit h = ground arith

  emit-page :
      (m : ℕ) (l : Option ℕ) (outputs : List Output) (source : String)
      (next : ℕ → ℕ → Stream FederatedError (List (Cell t))) (ys : List (List (Cell t)))
      (rows : List (List Value)) (s y : ℕ)
      → All (Fits outputs) rows
      → ((s' y' : ℕ) → s' ≤ m → next s' y' ≡ page m l s' y' ys)
      → s ≤ m
      → reached l y ≡ false
      → emit t m l outputs source next (of_list rows) s y
        ≡ page m l s y (map (plan_row t source outputs) rows ++ ys)
  unfolding emit
  emit-page m l outputs source next ys [] s y fits rest le r = rest s y le
  emit-page m l outputs source next ys (row ∷ rows) s y (fit, fits) rest le r =
      elim (Bool-cases (ltb s m)) [
        | inl h ↦
            emit-skipped m l outputs source next row rows s y fit h
            ∙ emit-page m l outputs source next ys rows (s + 1) y fits rest (ground arith) r
            ∙ page-skipped m l s y _ _ h
        | inr h ↦
            emit-shown m l outputs source next row rows s y fit h
            ∙ ap (yield_ (plan_row t source outputs row)) (
                let tail : Stream FederatedError (List (Cell t)) =
                  emit t m l outputs source next (of_list rows) s (y + 1) in
                elim (Bool-cases (reached l (y + 1))) [
                  | inl full ↦
                      ap (λ b. if b then stop else tail) full
                      ∙ sym (page-reached m l s (y + 1) _ full)
                  | inr more ↦
                      ap (λ b. if b then stop else tail) more
                      ∙ emit-page m l outputs source next ys rows s (y + 1) fits rest le more
                ])
            ∙ sym (page-shown m l s y _ _ h r)
      ]

  -- The source answers the plan's query, and a pushed limit only cuts its rows.
  abbrev pub Serves :
      Sources t → FederatedPlan t → (String → Target → List (List Value)) → String × Target → Type 0
  Serves stores p rows (source, x) =
      ((l : Option ℕ)
        → open_source t stores p source x l ≡ ok (of_list (take_limit l (rows source x))))
      × All (Fits p.outputs) (rows source x)

  -- The rows of the sources one after the other, in the plan's layout.
  abbrev pub union :
      List Output
      → (String → Target → List (List Value))
      → List (String × Target)
      → List (List (Cell t))
  union outputs rows [] = []
  union outputs rows ((source, x) ∷ rest) =
      map (plan_row t source outputs) (rows source x) ++ union outputs rows rest

  module _ (stores : Sources t) (p : FederatedPlan t) (l : Option ℕ) where
    run_sources-reached :
        (source : String) (x : Target) (rest : List (String × Target)) (s y : ℕ)
        → reached l y ≡ true
        → run_sources t stores p l ((source, x) ∷ rest) s y ≡ stop
    unfolding run_sources
    run_sources-reached source x rest s y full = rw full

    run_sources-opened :
        (source : String) (x : Target) (rest : List (String × Target)) (s y : ℕ)
        (rows : Stream Failure (List Value))
        → reached l y ≡ false
        → open_source t stores p source x (child_limit_of p.offset l) ≡ ok rows
        → run_sources t stores p l ((source, x) ∷ rest) s y
          ≡ emit t p.offset l p.outputs source (run_sources t stores p l rest) rows s y
    unfolding run_sources
    run_sources-opened source x rest s y rows more h = rw (more, h)

    run_sources-page :
        (rows : String → Target → List (List Value)) (sources : List (String × Target)) (s y : ℕ)
        → All (Serves stores p rows) sources
        → s ≤ p.offset
        → run_sources t stores p l sources s y ≡ page p.offset l s y (union p.outputs rows sources)
    unfolding run_sources
    run_sources-page rows [] s y hs le = sym (page-nil p.offset l s y)
    run_sources-page rows ((source, x) ∷ rest) s y ((serves, fits), hs) le =
        let cut : List (List Value) = take_limit (child_limit_of p.offset l) (rows source x) in
        let others : List (List (Cell t)) = union p.outputs rows rest in
        elim (Bool-cases (reached l y)) [
          | inl full ↦
              run_sources-reached source x rest s y full ∙ sym (page-reached p.offset l s y _ full)
          | inr more ↦
              run_sources-opened source x rest s y (of_list cut) more
                (serves (child_limit_of p.offset l))
              ∙ emit-page p.offset l p.outputs source (run_sources t stores p l rest) others cut s y
                  (All-take_limit (Fits p.outputs) (child_limit_of p.offset l) (rows source x) fits)
                  (λ s' y' le'. run_sources-page rows rest s' y' hs le') le more
              ∙ ap (λ zs. page p.offset l s y (zs ++ others))
                  (map-take_limit (plan_row t source p.outputs) (child_limit_of p.offset l)
                    (rows source x))
              ∙ ap of_list (
                  page-take_limit l p.offset s y (map (plan_row t source p.outputs) (rows source x))
                    others)
        ]

  -- When every source serves its rows, the stream is the page of the union that the offset and
  -- the effective limit select.
  pub execute_plan-union :
      (stores : Sources t) (p : FederatedPlan t) (rows : String → Target → List (List Value))
      (maximum : Option ℕ)
      → All (Serves stores p rows) p.sources
      → execute_plan t stores p maximum
        ≡ of_list (
            take_limit
              (effective_limit p.limit maximum)
              (drop p.offset (union p.outputs rows p.sources)))
  unfolding execute_plan
  execute_plan-union stores p rows maximum hs =
      let l : Option ℕ = effective_limit p.limit maximum in
      let all_rows : List (List (Cell t)) = union p.outputs rows p.sources in
      let run : Stream FederatedError (List (Cell t)) = run_sources t stores p l p.sources 0 0 in
      let whole : page p.offset l 0 0 all_rows ≡ of_list (take_limit l (drop p.offset all_rows)) =
        ap₂ (λ k n. of_list (take_limit k (drop n all_rows))) (rest_of-zero l)
          (sub-zero p.offset) in
      elim (Bool-cases (reached l 0)) [
        | inl full ↦
            ap (λ b. if b then stop else run) full
            ∙ sym (page-reached p.offset l 0 0 all_rows full)
            ∙ whole
        | inr more ↦
            ap (λ b. if b then stop else run) more
            ∙ run_sources-page stores p l rows p.sources 0 0 hs (omega arith)
            ∙ whole
      ]
