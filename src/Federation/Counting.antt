-- ===== src/Federation/Counting.antt =====
-- `__len__` and its cache against the rows that the sources serve.
use httk_data.Prelude.{
  ℕ, ◌+◌, ◌≡◌, refl, sym, ◌∙◌, ap, true, false, String, Option, none, some, List, [], ◌∷◌, length,
  drop, length-take, length-drop, length-append, length-map, map, All, ==_iff, arith, if◌then◌else◌,
  ok, ◌>>=◌, ◌⊎◌, inl, inr, Bool-cases,
}
use httk_data.Federation.Child.{Types}
use httk_data.Federation.Plan.{FederatedPlan, Sources}
use httk_data.Federation.Execute.{plan_row}
use httk_data.Federation.Count.{Caches, write, count_plan, count_source, count_sources}
use httk_data.Federation.Results.{len, available, limited_to_none}
use httk_data.Federation.Limits.{take_limit}
use httk_data.Federation.Union.{union}
use httk_data.Federation.Page.{shown}

length-page :
    {A : Type 0} (l : Option ℕ) (m : ℕ) (xs : List A)
    → length (take_limit l (drop m xs)) ≡ available l m (length xs)
length-page none m xs = length-drop m xs
length-page (some n) m xs = omega (arith, length-take n (drop m xs), length-drop m xs)

length-empty_page :
    {A : Type 0} (l : Option ℕ) (xs : List A)
    → limited_to_none l ≡ true
    → 0 ≡ length (take_limit l xs)
length-empty_page none xs h = cc
length-empty_page (some n) xs h =
    let e : n ≡ 0 = (==_iff n 0).0 h in omega (arith, length-take n xs)

module _ (t : Types) where
  open t use {Target, Value}

  -- The source counts the rows that it serves.
  abbrev pub Counts :
      Sources t → FederatedPlan t → (String → Target → List (List Value)) → String × Target → Type 0
  Counts stores p rows (source, x) = count_source t stores p source x ≡ ok (length (rows source x))

  -- The plan's cache is empty, or holds the size of the union.
  abbrev pub Cached : FederatedPlan t → (String → Target → List (List Value)) → Caches t → Type 0
  Cached p rows caches =
      (caches p.count_cache ≡ none)
      ⊎ (caches p.count_cache ≡ some (length (union t p.outputs rows p.sources)))

  module _ (stores : Sources t) (p : FederatedPlan t)
      (rows : String → Target → List (List Value)) where
    count_sources-union :
        (sources : List (String × Target)) (total : ℕ)
        → All (Counts stores p rows) sources
        → count_sources t stores p sources total
          ≡ ok (total + length (union t p.outputs rows sources))
    unfolding count_sources
    count_sources-union [] total hs = ap ok (omega arith)
    count_sources-union ((source, x) ∷ rest) total (h, hs) =
        let sizes : (total + length (rows source x)) + length (union t p.outputs rows rest)
            ≡ total + length (union t p.outputs rows ((source, x) ∷ rest)) =
          omega (
            arith,
            length-append (map (plan_row t source p.outputs) (rows source x))
                (union t p.outputs rows rest),
            length-map (plan_row t source p.outputs) (rows source x),
          ) in
        ap (λ m. m >>= (λ n. count_sources t stores p rest (total + n))) h
        ∙ count_sources-union rest (total + length (rows source x)) hs
        ∙ ap ok sizes

  module _ (stores : Sources t) (p : FederatedPlan t) where
    count_plan-counted :
        (caches : Caches t) (total : ℕ)
        → caches p.count_cache ≡ none
        → count_sources t stores p p.sources 0 ≡ ok total
        → count_plan t stores p caches ≡ (ok total, write t p.count_cache total caches)
    unfolding count_plan
    count_plan-counted caches total empty counted = rw (empty, counted)

    pub count_plan-cached :
        (caches : Caches t) (total : ℕ)
        → caches p.count_cache ≡ some total
        → count_plan t stores p caches ≡ (ok total, caches)
    unfolding count_plan
    count_plan-cached caches total full = rw full

    len-limited :
        (caches : Caches t)
        → limited_to_none p.limit ≡ true
        → len t stores p caches ≡ (ok 0, caches)
    unfolding len
    len-limited caches h = rw h

    len-counted :
        (caches after : Caches t) (total : ℕ)
        → limited_to_none p.limit ≡ false
        → count_plan t stores p caches ≡ (ok total, after)
        → len t stores p caches ≡ (ok (available p.limit p.offset total), after)
    unfolding len
    len-counted caches after total h counted = rw (h, counted)

  pub write-cache : (i total : ℕ) (caches : Caches t) → write t i total caches i ≡ some total
  write-cache i total caches = ap (λ b. if b then some total else caches i) ((==_iff i i).1 refl)

  module _ (stores : Sources t) (p : FederatedPlan t)
      (rows : String → Target → List (List Value)) where
    -- The total is that of the union, and the cache keeps it.
    count_plan-union :
        (caches : Caches t)
        → All (Counts stores p rows) p.sources
        → Cached p rows caches
        → (after : Caches t) × (count_plan t stores p caches
            ≡ (ok (length (union t p.outputs rows p.sources)), after))
          × Cached p rows after
    count_plan-union caches hs (inl empty) =
        let total : ℕ = length (union t p.outputs rows p.sources) in
        let zero_plus : 0 + total ≡ total = omega arith in
        (
          write t p.count_cache total caches,
          count_plan-counted stores p caches total empty
              (count_sources-union stores p rows p.sources 0 hs ∙ ap ok zero_plus),
          inr (write-cache p.count_cache total caches),
        )
    count_plan-union caches hs (inr full) =
        (caches, count_plan-cached stores p caches _ full, inr full)

    -- When every source counts the rows that it serves, the length of a result set is the number of
    -- rows that it shows, and its cache stays empty or right.
    pub len-shown :
        (caches : Caches t)
        → All (Counts stores p rows) p.sources
        → Cached p rows caches
        → (after : Caches t) × (len t stores p caches ≡ (ok (length (shown t p rows)), after))
          × Cached p rows after
    len-shown caches hs cached = elim (Bool-cases (limited_to_none p.limit)) [
      | inl nothing ↦ (
        caches,
        len-limited stores p caches nothing
            ∙ ap (λ n. (ok n, caches)) (length-empty_page p.limit _ nothing),
        cached,
      )
      | inr something ↦
          let (after, counted, kept) = count_plan-union caches hs cached in
          (
            after,
            len-counted stores p caches after _ something counted
                ∙ ap (λ n. (ok n, after))
                    (sym (length-page p.limit p.offset (union t p.outputs rows p.sources))),
            kept,
          )
    ]
