-- ===== src/Federation/Progress.antt =====
-- What a call of the builder keeps of the searcher.
use httk_data.Prelude.{
  ◌≤◌, ◌<◌, ◌≡◌, refl, ◌∙◌, ap, Bool, Option, none, some, List, [], ◌∷◌, Result, ok, err,
  if◌then◌else◌, true, false, arith, ℤ, pos, negsuc,
}
use httk_data.Federation.Child.{FederatedAst, Output, Types}
use httk_data.Federation.Plan.{FederatedError, Sources}
use httk_data.Federation.Builder.{
  foreign_target, advanced, accepted_by, BuilderError, TargetArgument, Prototype, Searcher,
  sources_of, frozen, bind_all, add_to, owned,
}
use httk_data.Federation.Calls.{
  Call, variable, add, output, set_limit, add_offset, bound, added, add_checked, variable_checked,
  declared, limited, moved, call,
}

module _ (t : Types) where
  open t use {Argument, Target}

  -- What a later state of a searcher has of it.
  pub record Goes (s s' : Searcher t) : Type 0 where
    pub at_least : s.count_cache ≤ s'.count_cache
    pub expressions : s'.count_cache ≡ s.count_cache → s'.expressions ≡ s.expressions
    pub sources :
        (ps : List (Prototype t))
        → s.prototypes ≡ some ps
        → (ps' : List (Prototype t)) × (s'.prototypes ≡ some ps')
          × (sources_of t ps' ≡ sources_of t ps)
    pub cutoff : s'.as_of ≡ s.as_of
    pub latest : s'.only_latest ≡ s.only_latest
    pub allocated : s.count_cache < s.next_cache → s'.count_cache < s'.next_cache

  stays : (s : Searcher t) → Goes s s
  stays s = record {
    at_least = omega arith;
    expressions = λ h. refl;
    sources = λ ps h. (ps, h, refl);
    cutoff = refl;
    latest = refl;
    allocated = λ h. h;
  }

  -- A change that touches none of the parts that a count reads.
  unchanged :
      (s s' : Searcher t)
      → s'.prototypes ≡ s.prototypes
      → s'.expressions ≡ s.expressions
      → s'.count_cache ≡ s.count_cache
      → s'.next_cache ≡ s.next_cache
      → s'.as_of ≡ s.as_of
      → s'.only_latest ≡ s.only_latest
      → Goes s s'
  unchanged s s' p e c n a l = record {
    at_least = omega (arith, c);
    expressions = λ h. e;
    sources = λ ps h. (ps, p ∙ h, refl);
    cutoff = a;
    latest = l;
    allocated = λ w. omega (arith, c, n, w);
  }

  sources_of-advanced :
      (p : Prototype t) (ps : List (Prototype t))
      (others : Option FederatedError × List (Prototype t)) (r : Result FederatedError t.Expression)
      → sources_of t (others.1) ≡ sources_of t ps
      → sources_of t ((advanced t p ps others r).1) ≡ (p.source, p.target) ∷ sources_of t ps
  sources_of-advanced p ps others (err e) h = refl
  sources_of-advanced p ps others (ok e) h = ap (λ xs. (p.source, p.target) ∷ xs) h

  sources_of-add_to :
      (a : FederatedAst Argument) (ps : List (Prototype t))
      → sources_of t ((add_to t a ps).1) ≡ sources_of t ps
  unfolding add_to
  sources_of-add_to a [] = refl
  sources_of-add_to a (p ∷ ps) =
      sources_of-advanced p ps (add_to t a ps) (accepted_by t a p) (sources_of-add_to a ps)

  added-Goes :
      (s : Searcher t) (a : FederatedAst Argument) (ps : List (Prototype t))
      (r : Option FederatedError × List (Prototype t))
      → s.prototypes ≡ some ps
      → sources_of t (r.1) ≡ sources_of t ps
      → s.count_cache < s.next_cache
      → Goes s ((added t s a r).1)
  added-Goes s a ps (some e, ps') h k w = record {
    at_least = omega arith;
    expressions = λ _. refl;
    sources = λ qs h'. let e' : ps ≡ qs = cc in (ps', refl, k ∙ ap (sources_of t) e');
    cutoff = refl;
    latest = refl;
    allocated = λ w'. w';
  }
  added-Goes s a ps (none, ps') h k w = record {
    at_least = omega (arith, w);
    expressions = λ e. let f : ⊥ = omega (arith, w, e) in elim f [ ];
    sources = λ qs h'. let e' : ps ≡ qs = cc in (ps', refl, k ∙ ap (sources_of t) e');
    cutoff = refl;
    latest = refl;
    allocated = λ w'. omega arith;
  }

  add_checked-Goes :
      (s : Searcher t) (a : Option (FederatedAst Argument)) (o : Option (List (Prototype t)))
      → s.prototypes ≡ o
      → s.count_cache < s.next_cache
      → Goes s ((add_checked t s a o).1)
  add_checked-Goes s a none h w = stays s
  add_checked-Goes s none (some ps) h w = stays s
  add_checked-Goes s (some a) (some ps) h w =
      added-Goes s a ps (add_to t a ps) h (sources_of-add_to a ps) w

  bound-Goes :
      (s : Searcher t) (r : Result FederatedError (List (Prototype t)))
      → s.prototypes ≡ none
      → Goes s ((bound t s r).1)
  bound-Goes s (err e) h = stays s
  bound-Goes s (ok ps) h = record {
    at_least = omega arith;
    expressions = λ _. refl;
    sources = λ qs h'. let f : ⊥ = cc in elim f [ ];
    cutoff = refl;
    latest = refl;
    allocated = λ w. w;
  }

  if-Goes :
      (s : Searcher t) (b : Bool) (x y : Result BuilderError (Unit {0}) × Searcher t)
      → Goes s (x.1)
      → Goes s (y.1)
      → Goes s ((if b then x else y).1)
  if-Goes s true x y g h = g
  if-Goes s false x y g h = h

  variable_checked-Goes :
      (stores : Sources t) (s : Searcher t) (x : TargetArgument t) (o : Option (List (Prototype t)))
      → s.prototypes ≡ o
      → Goes s ((variable_checked t stores s x o).1)
  variable_checked-Goes stores s x (some ps) h = stays s
  variable_checked-Goes stores s x none h =
      if-Goes s (owned t x) (bound t s (bind_all t (frozen t s [] []) x stores))
        (err foreign_target, s) (bound-Goes s _ h) (stays s)

  declared-Goes : (s : Searcher t) (r : Result BuilderError Output) → Goes s ((declared t s r).1)
  declared-Goes s (err e) = stays s
  declared-Goes s (ok o) = unchanged s _ refl refl refl refl refl refl

  limited-Goes : (s : Searcher t) (n : Option ℤ) → Goes s ((limited t s n).1)
  limited-Goes s none = stays s
  limited-Goes s (some (pos n)) = unchanged s _ refl refl refl refl refl refl
  limited-Goes s (some (negsuc n)) = unchanged s _ refl refl refl refl refl refl

  moved-Goes : (s : Searcher t) (n : Option ℤ) → Goes s ((moved t s n).1)
  moved-Goes s none = stays s
  moved-Goes s (some (pos n)) = unchanged s _ refl refl refl refl refl refl
  moved-Goes s (some (negsuc n)) = stays s

  pub call-Goes :
      (stores : Sources t) (s : Searcher t) (c : Call t)
      → s.count_cache < s.next_cache
      → Goes s ((call t stores s c).1)
  unfolding call
  call-Goes stores s (variable x) w = variable_checked-Goes stores s x s.prototypes refl
  call-Goes stores s (add a) w = add_checked-Goes s a s.prototypes refl w
  call-Goes stores s (output value name) w = declared-Goes s _
  call-Goes stores s (set_limit n) w = limited-Goes s n
  call-Goes stores s (add_offset n) w = moved-Goes s n
  call-Goes stores s _ w = stays s
