-- ===== src/Federation/Child.antt =====
-- The neutral query tree, and the search protocol of a child store. A child is any implementation
-- of httk.store.query's protocols, so its methods are fields; each may raise.
use httk_data.Prelude.{ℕ, Bool, String, Option, List, Result, ◌>>=◌}
use httk_data.Federation.Stream.{Stream}

-- How a child fails: `UnsupportedQueryError` or `AttributeError`, `CountUnavailableError`, or any
-- other exception.
pub data Failure : Type 0 where
  unsupported : Failure
  count_unavailable : Failure
  failed : Failure

-- `_FederatedAst`, over the arguments that predicates take.
pub data FederatedAst (Argument : Type 0) : Type 0 where
  constant : Bool → FederatedAst Argument
  predicate : List String → String → List Argument → FederatedAst Argument
  conjunction : FederatedAst Argument → FederatedAst Argument → FederatedAst Argument
  disjunction : FederatedAst Argument → FederatedAst Argument → FederatedAst Argument
  negation : FederatedAst Argument → FederatedAst Argument

-- `_RecordOutput`, `_FieldOutput` and `_OriginOutput`, each with its name.
pub data Output : Type 0 where
  record_output : String → Output
  field_output : String → List String → Output
  origin_output : String → Output

-- The expressions, arguments, targets and values of the children are types of the caller.
pub record Types : Type 1 where
  pub Expression : Type 0
  pub Argument : Type 0
  pub Target : Type 0
  pub Value : Type 0
  pub Cutoff : Type 0

module _ (t : Types) where
  open t use {Expression, Argument, Target, Value, Cutoff}

  -- A child's query as it is built: what `searcher`, `variable`, `add`, `output` and `set_limit`
  -- were given.
  pub record ChildQuery : Type 0 where
    pub as_of : Option Cutoff
    pub only_latest : Bool
    pub target : Target
    pub expressions : List Expression
    pub outputs : List Output
    pub limit : Option ℕ

  pub record ChildStore : Type 0 where
    -- `store.searcher(...)` and `variable(target)`
    pub bind : Option Cutoff → Bool → Target → Result Failure (Unit {0})
    -- The search expressions of the bound variable.
    pub always : Target → Bool → Result Failure Expression
    pub test : Target → List String → String → List Argument → Result Failure Expression
    pub both : Expression → Expression → Result Failure Expression
    pub either : Expression → Expression → Result Failure Expression
    pub inverse : Expression → Result Failure Expression
    -- `add`, `output` and `set_limit` on the query so far
    pub accept : ChildQuery → Expression → Result Failure (Unit {0})
    pub project : ChildQuery → Output → Result Failure (Unit {0})
    pub limit_to : ChildQuery → ℕ → Result Failure (Unit {0})
    -- `count()`, `iter(...)` and the rows that the iterator yields
    pub count : ChildQuery → Result Failure ℕ
    pub iterate : ChildQuery → Result Failure (Stream Failure (List Value))

  -- `_replay_ast`: from the left, the operands before the operator.
  unfoldable pub replay_ast :
      ChildStore → Target → FederatedAst Argument → Result Failure Expression
  replay_ast c x (constant b) = c.always x b
  replay_ast c x (predicate path op arguments) = c.test x path op arguments
  replay_ast c x (conjunction a b) = do l ← replay_ast c x a; r ← replay_ast c x b; c.both l r
  replay_ast c x (disjunction a b) = do l ← replay_ast c x a; r ← replay_ast c x b; c.either l r
  replay_ast c x (negation a) = do l ← replay_ast c x a; c.inverse l
