-- ===== src/Federation/SharedCache.antt =====
-- Plans that share a count cache are the same unpaged query.
use httk_data.Prelude.{
  ◌≤◌, ◌<◌, ◌≡◌, refl, sym, ◌∙◌, ap, Option, none, some, List, [], ◌∷◌, All, Result, ok, err, arith,
}
use httk_data.Federation.Child.{Types}
use httk_data.Federation.Plan.{FederatedPlan, Sources}
use httk_data.Federation.Builder.{BuilderError, Prototype, Searcher, sources_of}
use httk_data.Federation.Calls.{Call, call, call_plan, with_plan, plans}
use httk_data.Federation.Progress.{Goes, call-Goes}
use httk_data.Federation.Frozen.{FrozenFrom, call_plan-FrozenFrom}

-- Every two members are related, the earlier one first.
abbrev pub Pairwise : {A : Type 0} → (A → A → Type 0) → List A → Type 0
Pairwise R [] = Unit
Pairwise R (x ∷ xs) = All (R x) xs × Pairwise R xs

All-map :
    {A : Type 0} (P Q : A → Type 0) → ((x : A) → P x → Q x) → (xs : List A) → All P xs → All Q xs
All-map P Q f [] h = tt
All-map P Q f (x ∷ xs) (h, hs) = (f x h, All-map P Q f xs hs)

module _ (t : Types) where
  open t use {Argument, Target}

  -- Plans with one cache count the same: the sources, the conditions and the cutoff are the same.
  pub record SameCount (p q : FederatedPlan t) : Type 0 where
    pub same_sources : q.sources ≡ p.sources
    pub same_expressions : q.expressions ≡ p.expressions
    pub same_cutoff : q.as_of ≡ p.as_of
    pub same_latest : q.only_latest ≡ p.only_latest

  abbrev pub SharesCache : FederatedPlan t → FederatedPlan t → Type 0
  SharesCache p q = q.count_cache ≡ p.count_cache → SameCount p q

  -- What a plan of a later state has of a searcher.
  record Later (s : Searcher t) (q : FederatedPlan t) : Type 0 where
    at_least : s.count_cache ≤ q.count_cache
    expressions : q.count_cache ≡ s.count_cache → q.expressions ≡ s.expressions
    sources : (ps : List (Prototype t)) → s.prototypes ≡ some ps → q.sources ≡ sources_of t ps
    cutoff : q.as_of ≡ s.as_of
    latest : q.only_latest ≡ s.only_latest

  Goes-Later : (s s' : Searcher t) (q : FederatedPlan t) → Goes t s s' → Later s' q → Later s q
  Goes-Later s s' q g l = record {
    at_least = omega (arith, g.at_least, l.at_least);
    expressions = λ h.
        let e : s'.count_cache ≡ s.count_cache = omega (arith, g.at_least, l.at_least, h) in
        l.expressions (h ∙ sym e) ∙ g.expressions e;
    sources = λ ps h. let (ps', h', e) = g.sources ps h in l.sources ps' h' ∙ e;
    cutoff = l.cutoff ∙ g.cutoff;
    latest = l.latest ∙ g.latest;
  }

  FrozenFrom-Later : (s : Searcher t) (p : FederatedPlan t) → FrozenFrom t s p → Later s p
  FrozenFrom-Later s p (ps, os, h, e) = record {
    at_least = omega (arith, ap (λ q. q.count_cache) e);
    expressions = λ _. ap (λ q. q.expressions) e;
    sources = λ qs h'. let e' : ps ≡ qs = cc in ap (λ q. q.sources) e ∙ ap (sources_of t) e';
    cutoff = ap (λ q. q.as_of) e;
    latest = ap (λ q. q.only_latest) e;
  }

  FrozenFrom-SharesCache :
      (s : Searcher t) (p q : FederatedPlan t) → FrozenFrom t s p → Later s q → SharesCache p q
  FrozenFrom-SharesCache s p q (ps, os, h, e) l shared = record {
    same_sources = l.sources ps h ∙ sym (ap (λ r. r.sources) e);
    same_expressions =
        l.expressions (shared ∙ ap (λ r. r.count_cache) e) ∙ sym (ap (λ r. r.expressions) e);
    same_cutoff = l.cutoff ∙ sym (ap (λ r. r.as_of) e);
    same_latest = l.latest ∙ sym (ap (λ r. r.only_latest) e);
  }

  All-with_plan :
      (P : FederatedPlan t → Type 0) (r : Result BuilderError (Option (FederatedPlan t)))
      (later : List (FederatedPlan t))
      → ((p : FederatedPlan t) → r ≡ ok (some p) → P p)
      → All P later
      → All P (with_plan t r later)
  All-with_plan P (ok (some p)) later h k = (h p refl, k)
  All-with_plan P (ok none) later h k = k
  All-with_plan P (err e) later h k = k

  Pairwise-with_plan :
      (R : FederatedPlan t → FederatedPlan t → Type 0)
      (r : Result BuilderError (Option (FederatedPlan t))) (later : List (FederatedPlan t))
      → ((p : FederatedPlan t) → r ≡ ok (some p) → All (R p) later)
      → Pairwise R later
      → Pairwise R (with_plan t r later)
  Pairwise-with_plan R (ok (some p)) later h k = (h p refl, k)
  Pairwise-with_plan R (ok none) later h k = k
  Pairwise-with_plan R (err e) later h k = k

  plans-Later :
      (stores : Sources t) (calls : List (Call t)) (s : Searcher t)
      → s.count_cache < s.next_cache
      → All (Later s) (plans t stores s calls)
  unfolding plans
  plans-Later stores [] s w = tt
  plans-Later stores (c ∷ rest) s w =
      let g : Goes t s ((call t stores s c).1) = call-Goes t stores s c w in
      All-with_plan (Later s) (call_plan t stores s c) _
        (λ p h. FrozenFrom-Later s p (call_plan-FrozenFrom t stores s c p h))
        (All-map (Later ((call t stores s c).1)) (Later s)
          (λ q l. Goes-Later s ((call t stores s c).1) q g l) _
          (plans-Later stores rest ((call t stores s c).1) (g.allocated w)))

  -- Of the plans that any sequence of calls freezes, from a searcher whose cache is allocated, two
  -- with the same count cache have the same sources, conditions, cutoff and restriction to the
  -- latest rows, in the same order.
  pub plans-SharesCache :
      (stores : Sources t) (calls : List (Call t)) (s : Searcher t)
      → s.count_cache < s.next_cache
      → Pairwise SharesCache (plans t stores s calls)
  unfolding plans
  plans-SharesCache stores [] s w = tt
  plans-SharesCache stores (c ∷ rest) s w =
      let g : Goes t s ((call t stores s c).1) = call-Goes t stores s c w in
      let later : All (Later s) (plans t stores ((call t stores s c).1) rest) =
        All-map (Later ((call t stores s c).1)) (Later s)
          (λ q l. Goes-Later s ((call t stores s c).1) q g l) _
          (plans-Later stores rest ((call t stores s c).1) (g.allocated w)) in
      Pairwise-with_plan SharesCache (call_plan t stores s c) _
        (λ p h.
          All-map (Later s) (SharesCache p)
            (λ q l. FrozenFrom-SharesCache s p q (call_plan-FrozenFrom t stores s c p h) l) _ later)
        (plans-SharesCache stores rest ((call t stores s c).1) (g.allocated w))
