-- ===== src/Evaluator/Total.antt =====
-- The exceptions of `evaluate` for predicates whose operators `_compare` knows.
use httk_data.Prelude.{ℕ, none, List, [], ok}
use httk_data.Evaluator.Syntax.{
  Objects, MongoScope, root, child, Filter, unfiltered, filtered, MongoValue, field_value,
  content_id_value, store_timestamp, logical_id, present, constant_value, null_value, count,
  distinct_count, MongoPredicate, constant, compare, is_null, exists, conjunction, disjunction,
  negation, when_known, scaled,
}
use httk_data.Evaluator.Causes.{
  Caused, returned, Caused-bind, Caused-if, accepted-Caused, some_accepted-Caused,
  distinct_keys-Caused, compare_scaled-Caused, or_items-Caused, exact_key-Caused,
  compare_values-Caused,
}
use httk_data.Evaluator.Evaluate.{
  identifier, related, Environment, Resolvers, bind, is_true, items, filter_items, eval_value,
  eval_predicate, distinct_keys,
}
use httk_data.Evaluator.Supported.{SupportedScope, SupportedFilter, SupportedValue, Supported}

module _ (o : Objects) where
  open o use {Object}

  module _ (r : Resolvers o) where
    mutual
      unfolding items filter_items eval_value eval_predicate SupportedScope SupportedFilter
          SupportedValue Supported

      pub items-Caused :
          (s : MongoScope o) (env : Environment o) → SupportedScope o s → Caused o (items o r s env)
      items-Caused (root i) env h = returned _
      items-Caused (child i parent relationship filter scalar) env (h, k) =
          or_items-Caused o (env i) _ (
            Caused-bind o (items o r parent env) _ (items-Caused parent env h)
              (λ parents. filter_items-Caused filter i (related o relationship parents) env k))

      filter_items-Caused :
          (f : Filter o) (i : ℕ) (xs : List Object) (env : Environment o)
          → SupportedFilter o f
          → Caused o (filter_items o r f i xs env)
      filter_items-Caused unfiltered i xs env h = returned _
      filter_items-Caused (filtered p) i xs env h =
          accepted-Caused o _ xs (λ x. eval_predicate-Caused p (bind o env i x) h)

      eval_value-Caused :
          (v : MongoValue o) (env : Environment o)
          → SupportedValue o v
          → Caused o (eval_value o r v env)
      eval_value-Caused (constant_value x) env h = returned _
      eval_value-Caused null_value env h = returned _
      eval_value-Caused (store_timestamp scope) env h = returned _
      eval_value-Caused (logical_id scope) env h = returned _
      eval_value-Caused (present scope field) env h =
          Caused-bind o (items o r scope env) _ (items-Caused scope env h) (λ xs. returned _)
      eval_value-Caused (count scope) env h =
          Caused-bind o (items o r scope env) _ (items-Caused scope env h) (λ xs. returned _)
      eval_value-Caused (field_value scope field codec) env h =
          Caused-bind o (items o r scope env) _ (items-Caused scope env h) (λ xs. returned _)
      eval_value-Caused (content_id_value scope prefix) env h =
          Caused-bind o (items o r scope env) _ (items-Caused scope env h) (λ xs. returned _)
      eval_value-Caused (distinct_count scope v) env (h, k) =
          Caused-bind o (items o r scope env) _ (items-Caused scope env h) (λ xs.
            Caused-bind o
              (distinct_keys o (λ x. eval_value o r v (bind o env (identifier o scope) x)) _ [] xs)
              _
              (distinct_keys-Caused o _ _ xs
                (λ x. eval_value-Caused v (bind o env (identifier o scope) x) k)
                (λ x. exact_key-Caused o v x none) [])
              (λ keys. returned _))

      pub eval_predicate-Caused :
          (p : MongoPredicate o) (env : Environment o)
          → Supported o p
          → Caused o (eval_predicate o r p env)
      eval_predicate-Caused (constant value) env h = returned _
      eval_predicate-Caused (compare v operator w) env (h, (k, l)) =
          Caused-bind o (eval_value o r v env) _ (eval_value-Caused v env k) (λ x.
            Caused-bind o (eval_value o r w env) _ (eval_value-Caused w env l)
              (λ y. compare_values-Caused o x v operator y w h))
      eval_predicate-Caused (is_null v) env h =
          Caused-bind o (eval_value o r v env) _ (eval_value-Caused v env h) (λ x. returned _)
      eval_predicate-Caused (exists scope p) env (h, k) =
          Caused-bind o (items o r scope env) _ (items-Caused scope env h) (λ xs.
            some_accepted-Caused o _ xs
              (λ x. eval_predicate-Caused p (bind o env (identifier o scope) x) k))
      eval_predicate-Caused (conjunction p q) env (h, k) =
          Caused-bind o (eval_predicate o r p env) _ (eval_predicate-Caused p env h) (λ a.
            Caused-bind o (eval_predicate o r q env) _ (eval_predicate-Caused q env k)
              (λ b. returned _))
      eval_predicate-Caused (disjunction p q) env (h, k) =
          Caused-bind o (eval_predicate o r p env) _ (eval_predicate-Caused p env h) (λ a.
            Caused-bind o (eval_predicate o r q env) _ (eval_predicate-Caused q env k)
              (λ b. returned _))
      eval_predicate-Caused (negation p) env h =
          Caused-bind o (eval_predicate o r p env) _ (eval_predicate-Caused p env h)
            (λ a. returned _)
      eval_predicate-Caused (when_known p q) env (h, k) =
          Caused-bind o (eval_predicate o r p env) _ (eval_predicate-Caused p env h) (λ a.
            Caused-if o (is_true a) (eval_predicate o r q env) (ok none)
              (eval_predicate-Caused q env k) (returned _))
      eval_predicate-Caused (scaled v f w g) env ((h, k), (l, m)) =
          Caused-bind o (eval_value o r v env) _ (eval_value-Caused v env h) (λ x.
            Caused-bind o (eval_value o r f env) _ (eval_value-Caused f env k) (λ a.
              Caused-bind o (eval_value o r w env) _ (eval_value-Caused w env l) (λ y.
                Caused-bind o (eval_value o r g env) _ (eval_value-Caused g env m)
                  (λ b. compare_scaled-Caused o x a y b))))
