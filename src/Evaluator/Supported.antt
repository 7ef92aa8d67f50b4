-- ===== src/Evaluator/Supported.antt =====
-- The predicates whose operators `_compare` knows.
use httk_data.Evaluator.Syntax.{
  Comparison, unsupported, Objects, MongoScope, root, child, Filter, unfiltered, filtered,
  MongoValue, field_value, content_id_value, store_timestamp, logical_id, present, constant_value,
  null_value, count, distinct_count, MongoPredicate, constant, compare, is_null, exists,
  conjunction, disjunction, negation, when_known, scaled,
}

-- An operator that `_compare` knows.
abbrev pub SupportedOperator : Comparison → Type 0
SupportedOperator (unsupported text) = ⊥
SupportedOperator _ = Unit

module _ (o : Objects) where
  open o use {Object}

  -- All operators in a part of a predicate are supported.
  unfoldable mutual
    pub SupportedScope : MongoScope o → Type 0
    SupportedScope (root i) = Unit
    SupportedScope (child i parent relationship filter scalar) =
        SupportedScope parent × SupportedFilter filter

    pub SupportedFilter : Filter o → Type 0
    SupportedFilter unfiltered = Unit
    SupportedFilter (filtered p) = Supported p

    pub SupportedValue : MongoValue o → Type 0
    SupportedValue (field_value scope field codec) = SupportedScope scope
    SupportedValue (content_id_value scope prefix) = SupportedScope scope
    SupportedValue (present scope field) = SupportedScope scope
    SupportedValue (count scope) = SupportedScope scope
    SupportedValue (distinct_count scope value) = SupportedScope scope × SupportedValue value
    SupportedValue (store_timestamp scope) = Unit
    SupportedValue (logical_id scope) = Unit
    SupportedValue (constant_value x) = Unit
    SupportedValue null_value = Unit

    pub Supported : MongoPredicate o → Type 0
    Supported (constant value) = Unit
    Supported (compare v operator w) =
        SupportedOperator operator × (SupportedValue v × SupportedValue w)
    Supported (is_null v) = SupportedValue v
    Supported (exists scope p) = SupportedScope scope × Supported p
    Supported (conjunction p q) = Supported p × Supported q
    Supported (disjunction p q) = Supported p × Supported q
    Supported (negation p) = Supported p
    Supported (when_known p q) = Supported p × Supported q
    Supported (scaled v f w g) =
        (SupportedValue v × SupportedValue f) × (SupportedValue w × SupportedValue g)
