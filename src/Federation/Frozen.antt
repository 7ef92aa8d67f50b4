-- ===== src/Federation/Frozen.antt =====
-- A plan that a call freezes is one of the searcher at that call.
use httk_data.Prelude.{
  ◌≡◌, refl, Bool, Option, none, some, List, [], Result, ok, err, ◌&&◌, ◌>>=◌, if◌then◌else◌, true,
  false, String,
}
use httk_data.Federation.Child.{Output, Types}
use httk_data.Federation.Plan.{FederatedPlan, Sources}
use httk_data.Federation.Builder.{
  no_outputs, required, BuilderError, Projection, Prototype, Searcher, frozen, require_variable,
}
use httk_data.Federation.Calls.{is_empty, planned, Call, count, iterate, results, plan, call_plan}

bind-ok :
    {A B : Type 0} (m : Result BuilderError A) (f : A → Result BuilderError B) (b : B)
    → (m >>= f) ≡ ok b
    → (a : A) × (m ≡ ok a) × (f a ≡ ok b)
bind-ok (ok a) f b h = (a, refl, h)
bind-ok (err e) f b h = cc

module _ (t : Types) where
  open t use {Argument, Target}

  -- A plan frozen from a searcher.
  abbrev pub FrozenFrom : Searcher t → FederatedPlan t → Type 0
  FrozenFrom s p =
      (ps : List (Prototype t)) × (os : List Output) × (s.prototypes ≡ some ps)
      × (p ≡ frozen t s ps os)

  required-some :
      (o : Option (List (Prototype t))) (ps : List (Prototype t))
      → required t o ≡ ok ps
      → o ≡ some ps
  required-some none ps h = cc
  required-some (some qs) ps h = cc

  checked-FrozenFrom :
      (s : Searcher t) (ps : List (Prototype t)) (os : List Output) (b : Bool) (p : FederatedPlan t)
      → s.prototypes ≡ some ps
      → (if b then err no_outputs else ok (frozen t s ps os)) ≡ ok p
      → FrozenFrom s p
  checked-FrozenFrom s ps os true p h e = cc
  checked-FrozenFrom s ps os false p h e = (ps, os, h, cc)

  plan-FrozenFrom :
      (stores : Sources t) (s : Searcher t) (outputs : List (String × Projection)) (b : Bool)
      (p : FederatedPlan t)
      → plan t stores s outputs b ≡ ok p
      → FrozenFrom s p
  unfolding plan
  plan-FrozenFrom stores s outputs b p h =
      let (ps, required_ps, h1) = bind-ok (require_variable t s) _ p h in
      let (os, planned_os, h2) =
        bind-ok (planned t stores s outputs)
          (λ xs. if b && is_empty xs then err no_outputs else ok (frozen t s ps xs)) p h1 in
      checked-FrozenFrom s ps os (b && is_empty os) p (required-some s.prototypes ps required_ps) h2

  kept_plan :
      (m : Result BuilderError (FederatedPlan t)) (p : FederatedPlan t)
      → (m >>= (λ q. ok (some q))) ≡ ok (some p)
      → m ≡ ok p
  kept_plan (ok q) p h = cc
  kept_plan (err e) p h = cc

  pub call_plan-FrozenFrom :
      (stores : Sources t) (s : Searcher t) (c : Call t) (p : FederatedPlan t)
      → call_plan t stores s c ≡ ok (some p)
      → FrozenFrom s p
  unfolding call_plan
  call_plan-FrozenFrom stores s count p h = plan-FrozenFrom stores s [] false p (kept_plan _ p h)
  call_plan-FrozenFrom stores s iterate p h = plan-FrozenFrom stores s [] true p (kept_plan _ p h)
  call_plan-FrozenFrom stores s (results outputs) p h =
      plan-FrozenFrom stores s outputs true p (kept_plan _ p h)
  call_plan-FrozenFrom stores s _ p h = cc
