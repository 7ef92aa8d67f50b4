-- ===== src/Federation/Caching.antt =====
-- What the cache of `_count_plan` keeps.
use httk_data.Prelude.{ℕ, ◌≡◌, refl, ◌∙◌, ap, Option, none, some, Result, ok, err}
use httk_data.Federation.Child.{Types}
use httk_data.Federation.Plan.{FederatedError, FederatedPlan, Sources}
use httk_data.Federation.Count.{Caches, remember, cached, count_sources, count_plan}
use httk_data.Federation.Counting.{count_plan-cached, write-cache}

module _ (t : Types) where
  module _ (i : ℕ) (caches : Caches t) where
    cached-failed :
        (c : Option ℕ) (r : Result FederatedError ℕ) (e : FederatedError)
        → (cached t c (remember t i caches r) caches).0 ≡ err e
        → (cached t c (remember t i caches r) caches).1 ≡ caches
    cached-failed (some total) r e h = cc
    cached-failed none (err e') e h = refl
    cached-failed none (ok total) e h = cc

    cached-counted :
        (c : Option ℕ) (r : Result FederatedError ℕ) (n : ℕ)
        → caches i ≡ c
        → (cached t c (remember t i caches r) caches).0 ≡ ok n
        → (cached t c (remember t i caches r) caches).1 i ≡ some n
    cached-counted (some total) r n h k = cc
    cached-counted none (err e) n h k = cc
    cached-counted none (ok total) n h k =
        let e : total ≡ n = cc in write-cache t i total caches ∙ ap some e

  -- A count that fails leaves the caches as they were. After one that succeeds, the plan's cache
  -- holds the total, and counting the plan again gives it without an error, whatever the sources
  -- then do.
  pub count_plan-again :
      (stores : Sources t) (p : FederatedPlan t) (caches : Caches t)
      → ((e : FederatedError)
          → (count_plan t stores p caches).0 ≡ err e
          → (count_plan t stores p caches).1 ≡ caches)
        × ((n : ℕ) (changed : Sources t)
            → (count_plan t stores p caches).0 ≡ ok n
            → count_plan t changed p ((count_plan t stores p caches).1)
              ≡ (ok n, (count_plan t stores p caches).1))
  unfolding count_plan
  count_plan-again stores p caches =
      let r : Result FederatedError ℕ = count_sources t stores p p.sources 0 in
      (
        λ e h. cached-failed p.count_cache caches (caches p.count_cache) r e h,
        λ n changed h.
            count_plan-cached t changed p _ n
              (cached-counted p.count_cache caches (caches p.count_cache) r n refl h),
      )
