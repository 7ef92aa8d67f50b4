-- ===== src/Federation/Builder.antt =====
-- `FederatedSearcher`: the query builder, whose calls change its state before they raise or return.
use httk_data.Prelude.{
  ℕ, suc, Bool, true, String, Option, none, some, List, [], ◌∷◌, ◌++◌, Result, ok, err, ◌>>=◌,
}
use httk_data.Federation.Child.{FederatedAst, Output, Types, ChildQuery, ChildStore, replay_ast}
use httk_data.Federation.Plan.{
  FederatedError, target_binding, addition, at_stage, find_source, FederatedPlan, Sources,
  bind_source,
}

-- What a call raises: an error of its arguments or its state, or a source's.
pub data BuilderError : Type 0 where
  second_variable foreign_target no_variable foreign_expression bad_name duplicate_name
        foreign_output :
      BuilderError
  no_outputs bad_limit bad_offset no_sorting : BuilderError
  source_raised : FederatedError → BuilderError

-- A projection: `origin`, the root variable, a field of it, or another object.
pub data Projection : Type 0 where
  origin_sentinel : Projection
  root_variable : Projection
  root_field : List String → Projection
  foreign : Projection

abbrev pub raised : {A : Type 0} → Result FederatedError A → Result BuilderError A
raised (ok a) = ok a
raised (err e) = err (source_raised e)

module _ (t : Types) where
  open t use {Argument, Target, Cutoff}

  -- An argument of `variable`: a target for all sources, or the targets of a `FederatedTarget` and
  -- whether this federation owns it.
  pub data TargetArgument : Type 0 where
    shared : Target → TargetArgument
    federated : Bool → List (String × Target) → TargetArgument

  -- A child searcher that is kept to validate expressions.
  pub record Prototype : Type 0 where
    pub source : String
    pub target : Target
    pub child : ChildStore t
    pub query : ChildQuery t

  -- The searcher; `next_cache` is the first cache that is not yet allocated.
  pub record Searcher : Type 0 where
    pub prototypes : Option (List Prototype)
    pub expressions : List (FederatedAst Argument)
    pub outputs : List Output
    pub limit : Option ℕ
    pub offset : ℕ
    pub as_of : Option Cutoff
    pub only_latest : Bool
    pub count_cache : ℕ
    pub next_cache : ℕ

  -- `__init__`, with its own cache.
  abbrev pub new_searcher : Option Cutoff → Bool → ℕ → Searcher
  new_searcher cutoff latest cache = record {
    prototypes = none;
    expressions = [];
    outputs = [];
    limit = none;
    offset = 0;
    as_of = cutoff;
    only_latest = latest;
    count_cache = cache;
    next_cache = suc cache;
  }

  abbrev pub sources_of : List Prototype → List (String × Target)
  sources_of [] = []
  sources_of (p ∷ ps) = (p.source, p.target) ∷ sources_of ps

  -- The plan of a searcher, with its outputs.
  abbrev pub frozen : Searcher → List Prototype → List Output → FederatedPlan t
  frozen s ps outputs = record {
    sources = sources_of ps;
    expressions = s.expressions;
    outputs = outputs;
    offset = s.offset;
    limit = s.limit;
    as_of = s.as_of;
    only_latest = s.only_latest;
    count_cache = s.count_cache;
  }

  abbrev pub required : Option (List Prototype) → Result BuilderError (List Prototype)
  required none = err no_variable
  required (some ps) = ok ps

  -- `_require_variable`
  abbrev pub require_variable : Searcher → Result BuilderError (List Prototype)
  require_variable s = required s.prototypes

  abbrev target_of : TargetArgument → String → Option Target
  target_of (shared x) source = some x
  target_of (federated owned targets) source = find_source source targets

  abbrev pub owned : TargetArgument → Bool
  owned (shared x) = true
  owned (federated o targets) = o

  abbrev prototype_of : String → Target → ChildStore t × ChildQuery t → Prototype
  prototype_of name x (c, q) = record { source = name; target = x; child = c; query = q }

  -- The child searchers of the sources that the target names, in the federation's order.
  unfoldable pub bind_all :
      FederatedPlan t → TargetArgument → Sources t → Result FederatedError (List Prototype)
  bind_all p x [] = ok []
  bind_all p x ((source, c) ∷ rest) = elim (target_of x source) [
    | none ↦ bind_all p x rest
    | some y ↦
        (at_stage source target_binding (bind_source t (some c) p y))
        >>= (λ bound. bind_all p x rest >>= (λ others. ok (prototype_of source y bound ∷ others)))
  ]

  abbrev pub advanced :
      Prototype
      → List Prototype
      → Option FederatedError × List Prototype
      → Result FederatedError t.Expression
      → Option FederatedError × List Prototype
  advanced p rest others (err e) = (some e, p ∷ rest)
  advanced p rest others (ok e) = (
    others.0,
    record p { query = record p.query { expressions = p.query.expressions ++ e ∷ [] } } ∷ others.1,
  )

  unfoldable pub accepted_by :
      FederatedAst Argument → Prototype → Result FederatedError t.Expression
  unfolding replay_ast
  accepted_by a p =
      at_stage p.source addition
        (do e ← replay_ast t p.child p.target a; accepted ← p.child.accept p.query e; ok e)

  -- `add` on each child searcher: an exception leaves those before it changed.
  unfoldable pub add_to :
      FederatedAst Argument → List Prototype → Option FederatedError × List Prototype
  unfolding accepted_by
  add_to a [] = (none, [])
  add_to a (p ∷ rest) = advanced p rest (add_to a rest) (accepted_by a p)
