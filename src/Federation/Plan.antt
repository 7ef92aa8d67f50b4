-- ===== src/Federation/Plan.antt =====
-- `_FederatedPlan`, the errors, and one source of a plan up to its iterator.
use httk_data.Prelude.{
  ℕ, Bool, String, Option, none, some, List, [], ◌∷◌, ◌++◌, if◌then◌else◌, str_eq, Result, ok, err,
  ◌>>=◌,
}
use httk_data.Federation.Stream.{Stream}
use httk_data.Federation.Child.{
  Failure, unsupported, failed, FederatedAst, Output, record_output, field_output, origin_output,
  Types, ChildQuery, ChildStore, replay_ast,
}

-- The stages that an error names.
pub data Stage : Type 0 where
  searcher_construction expression_replay output_declaration limit_pushdown iteration : Stage
  count_searcher_construction count_expression_replay count_stage : Stage
  target_binding validation addition output_stage : Stage

-- `FederatedSourceError` and its subclasses, which name the source and the stage.
pub data FederatedError : Type 0 where
  source_error : String → Stage → FederatedError
  unsupported_query : String → Stage → FederatedError
  count_not_available : String → FederatedError

-- `_source_error`
unfoldable pub source_failure : String → Stage → Failure → FederatedError
source_failure source stage unsupported = unsupported_query source stage
source_failure source stage _ = source_error source stage

abbrev pub at_stage : {A : Type 0} → String → Stage → Result Failure A → Result FederatedError A
at_stage source stage (ok a) = ok a
at_stage source stage (err e) = err (source_failure source stage e)

abbrev pub find_source {ℓ} : {A : Type ℓ} → String → List (String × A) → Option A
find_source k [] = none
find_source k ((j, v) ∷ m) = if str_eq j k then some v else find_source k m

abbrev pub output_name : Output → String
output_name (record_output name) = name
output_name (field_output name _) = name
output_name (origin_output name) = name

-- The outputs that the children produce; with none, one hidden record.
abbrev pub child_outputs : List Output → List Output
child_outputs [] = []
child_outputs (origin_output name ∷ outputs) = child_outputs outputs
child_outputs (output ∷ outputs) = output ∷ child_outputs outputs

abbrev pub with_hidden : List Output → List Output
with_hidden [] = record_output "__httk_federated_hidden_record__" ∷ []
with_hidden (output ∷ outputs) = output ∷ outputs

module _ (t : Types) where
  open t use {Expression, Argument, Target, Value, Cutoff}

  -- A value of a result row: the source's name, or a value of the child.
  pub data Cell : Type 0 where
    origin : String → Cell
    cell : Value → Cell

  pub record FederatedPlan : Type 0 where
    pub sources : List (String × Target)
    pub expressions : List (FederatedAst Argument)
    pub outputs : List Output
    pub offset : ℕ
    pub limit : Option ℕ
    pub as_of : Option Cutoff
    pub only_latest : Bool
    -- The shared `_FederatedCountCache`, by its identity.
    pub count_cache : ℕ

  abbrev pub Sources : Type 0
  Sources = List (String × ChildStore t)

  -- The query of a new child searcher, bound to its target.
  abbrev pub new_query : FederatedPlan → Target → ChildQuery t
  new_query p x = record {
    as_of = p.as_of;
    only_latest = p.only_latest;
    target = x;
    expressions = [];
    outputs = [];
    limit = none;
  }

  unfoldable pub add_all :
      ChildStore t
      → Target
      → ChildQuery t
      → List (FederatedAst Argument)
      → Result Failure (ChildQuery t)
  unfolding replay_ast
  add_all c x q [] = ok q
  add_all c x q (a ∷ rest) = do
    e ← replay_ast t c x a
    accepted ← c.accept q e
    add_all c x (record q { expressions = q.expressions ++ e ∷ [] }) rest

  unfoldable pub project_all :
      ChildStore t → ChildQuery t → List Output → Result Failure (ChildQuery t)
  project_all c q [] = ok q
  project_all c q (o ∷ rest) = do
    accepted ← c.project q o
    project_all c (record q { outputs = q.outputs ++ o ∷ [] }) rest

  abbrev limit_query : ChildStore t → ChildQuery t → Option ℕ → Result Failure (ChildQuery t)
  limit_query c q none = ok q
  limit_query c q (some n) = do accepted ← c.limit_to q n; ok (record q { limit = some n })

  -- A source that the federation lacks is a `KeyError` inside the same `try`.
  abbrev pub bind_source :
      Option (ChildStore t) → FederatedPlan → Target → Result Failure (ChildStore t × ChildQuery t)
  bind_source none p x = err failed
  bind_source (some c) p x = do bound ← c.bind p.as_of p.only_latest x; ok (c, new_query p x)

  -- One source of a plan, up to its iterator.
  unfoldable pub open_source :
      Sources
      → FederatedPlan
      → String
      → Target
      → Option ℕ
      → Result FederatedError (Stream Failure (List Value))
  unfolding add_all project_all source_failure
  open_source stores p source x child_limit = do
    (c, q) ← at_stage source searcher_construction (bind_source (find_source source stores) p x)
    q1 ← at_stage source expression_replay (add_all c x q p.expressions)
    q2 ←
        at_stage source output_declaration
          (project_all c q1 (with_hidden (child_outputs p.outputs)))
    q3 ← at_stage source limit_pushdown (limit_query c q2 child_limit)
    at_stage source iteration (c.iterate q3)
