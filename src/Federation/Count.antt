-- ===== src/Federation/Count.antt =====
-- `_count_plan` and its cache.
use httk_data.Prelude.{
  ℕ, ◌+◌, String, Option, none, some, List, [], ◌∷◌, ◌==◌, if◌then◌else◌, Result, ok, err, ◌>>=◌,
}
use httk_data.Federation.Child.{Failure, count_unavailable, Types}
use httk_data.Federation.Plan.{
  count_searcher_construction, count_expression_replay, count_stage, FederatedError,
  count_not_available, source_failure, at_stage, FederatedPlan, Sources, bind_source, add_all,
  find_source,
}

module _ (t : Types) where
  open t use {Expression, Argument, Target, Value, Cutoff}

  -- The heap of count caches.
  abbrev pub Caches : Type 0
  Caches = ℕ → Option ℕ

  -- Of the errors of the last step, a count that is not available keeps its kind.
  abbrev count_failure : {A : Type 0} → String → Result Failure A → Result FederatedError A
  count_failure source (ok a) = ok a
  count_failure source (err count_unavailable) = err (count_not_available source)
  count_failure source (err e) = err (source_failure source count_stage e)

  unfoldable pub count_source :
      Sources t → FederatedPlan t → String → Target → Result FederatedError ℕ
  unfolding add_all source_failure
  count_source stores p source x = do
    (c, q) ←
        at_stage source count_searcher_construction (bind_source t (find_source source stores) p x)
    q1 ← at_stage source count_expression_replay (add_all t c x q p.expressions)
    count_failure source (c.count q1)

  unfoldable pub count_sources :
      Sources t → FederatedPlan t → List (String × Target) → ℕ → Result FederatedError ℕ
  unfolding count_source
  count_sources stores p [] total = ok total
  count_sources stores p ((source, x) ∷ rest) total = do
    n ← count_source stores p source x
    count_sources stores p rest (total + n)

  abbrev pub write : ℕ → ℕ → Caches → Caches
  write i total caches j = if i == j then some total else caches j

  abbrev pub remember : ℕ → Caches → Result FederatedError ℕ → Result FederatedError ℕ × Caches
  remember i caches (err e) = (err e, caches)
  remember i caches (ok total) = (ok total, write i total caches)

  abbrev pub cached :
      Option ℕ → Result FederatedError ℕ × Caches → Caches → Result FederatedError ℕ × Caches
  cached (some total) counted caches = (ok total, caches)
  cached none counted caches = counted

  unfoldable pub count_plan :
      Sources t → FederatedPlan t → Caches → Result FederatedError ℕ × Caches
  unfolding count_sources
  count_plan stores p caches =
      cached (caches p.count_cache)
        (remember p.count_cache caches (count_sources stores p p.sources 0)) caches
