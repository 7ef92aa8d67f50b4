-- ===== src/Evaluator/Root.antt =====
-- `_root_scope` and `evaluate`.
use httk_data.Prelude.{ℕ, Option, none, some}
use httk_data.Evaluator.Syntax.{
  Objects, MongoScope, root, child, MongoValue, field_value, content_id_value, store_timestamp,
  logical_id, present, constant_value, null_value, count, distinct_count, MongoPredicate, constant,
  compare, is_null, exists, conjunction, disjunction, negation, when_known, scaled,
}
use httk_data.Query.Truth.{Truth}
use httk_data.Evaluator.Compare.{Evaluated}
use httk_data.Evaluator.Evaluate.{Environment, Resolvers, bind, eval_predicate}

abbrev first_found : Option ℕ → Option ℕ → Option ℕ
first_found (some i) other = some i
first_found none other = other

module _ (o : Objects) where
  open o use {Object}

  abbrev pub root_of_scope : MongoScope o → ℕ
  root_of_scope (root i) = i
  root_of_scope (child i parent relationship filter scalar) = root_of_scope parent

  abbrev pub root_of_value : MongoValue o → Option ℕ
  root_of_value (field_value scope field codec) = some (root_of_scope scope)
  root_of_value (content_id_value scope prefix) = some (root_of_scope scope)
  root_of_value (store_timestamp scope) = some (root_of_scope scope)
  root_of_value (logical_id scope) = some (root_of_scope scope)
  root_of_value (present scope field) = some (root_of_scope scope)
  root_of_value (count scope) = some (root_of_scope scope)
  root_of_value (distinct_count scope value) = some (root_of_scope scope)
  root_of_value (constant_value x) = none
  root_of_value null_value = none

  -- The stack's search: the last operand first, each with all that it leads to.
  unfoldable pub root_scope : MongoPredicate o → Option ℕ
  root_scope (constant value) = none
  root_scope (compare v operator w) = first_found (root_of_value w) (root_of_value v)
  root_scope (is_null v) = root_of_value v
  root_scope (exists scope p) = first_found (root_scope p) (some (root_of_scope scope))
  root_scope (conjunction p q) = first_found (root_scope q) (root_scope p)
  root_scope (disjunction p q) = first_found (root_scope q) (root_scope p)
  root_scope (negation p) = root_scope p
  root_scope (when_known p q) = first_found (root_scope q) (root_scope p)
  root_scope (scaled v f w g) =
      first_found (root_of_value g)
        (first_found (root_of_value w) (first_found (root_of_value f) (root_of_value v)))

  abbrev pub bound_to : Option ℕ → Object → Environment o
  bound_to none record_ i = none
  bound_to (some j) record_ i = bind o (λ k. none) j record_ i

  unfoldable pub evaluate : Resolvers o → MongoPredicate o → Object → Evaluated Truth
  unfolding eval_predicate root_scope
  evaluate r p record_ = eval_predicate o r p (bound_to (root_scope p) record_)
