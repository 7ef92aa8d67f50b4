-- ===== src/Evaluator/Evaluate.antt =====
-- `_items`, `_eval_value`, `_eval_predicate` and `evaluate`.
use httk_data.Prelude.{
  ℕ, Bool, true, false, not, ◌||◌, Option, none, some, List, [], ◌∷◌, ◌++◌, length, ◌==◌,
  if◌then◌else◌, ok, err, ◌>>=◌,
}
use httk_data.Query.Truth.{Truth, truth_and, truth_or, truth_not}
use httk_data.Evaluator.Syntax.{
  Converted, converted, refused, overflow, Objects, Role, children, reference, Relationship,
  MongoScope, root, child, Filter, unfiltered, filtered, MongoValue, field_value, content_id_value,
  store_timestamp, logical_id, present, constant_value, null_value, count, distinct_count,
  MongoPredicate, constant, compare, is_null, exists, conjunction, disjunction, negation,
  when_known, scaled,
}
use httk_data.Evaluator.Compare.{
  overflow_error, unhashable_key, Evaluated, compare_values, exact_key,
}

abbrev pub is_true : Truth → Bool
is_true (some true) = true
is_true _ = false

module _ (o : Objects) where
  open o use {
    Object, Codec, Fraction, none_object, is_none, of_bool, of_nat, attribute, elements, content_id,
    same, hashable, fraction, times, same_fraction,
  }

  -- The object that each scope in force is bound to.
  abbrev pub Environment : Type 0
  Environment = ℕ → Option Object

  abbrev pub bind : Environment → ℕ → Object → Environment
  bind env i item j = if i == j then some item else env j

  -- The resolvers of a store's timestamp and logical id, by what they return.
  pub record Resolvers : Type 0 where
    pub store_timestamp_resolver : Option Object
    pub logical_id_resolver : Option Object

  abbrev resolved : Option Object → Object
  resolved none = none_object
  resolved (some x) = x

  abbrev pub identifier : MongoScope o → ℕ
  identifier (root i) = i
  identifier (child i parent relationship filter scalar) = i

  abbrev is_scalar_child : MongoScope o → Bool
  is_scalar_child (root i) = false
  is_scalar_child (child i parent relationship filter scalar) = scalar

  abbrev of_role : Role → Object → List Object
  of_role reference x = x ∷ []
  of_role children x = elements x

  abbrev related_of : Relationship → Object → List Object
  related_of relationship parent =
      let x = attribute parent relationship.field in
      if is_none x then [] else of_role relationship.role x

  -- The records that the relationship leads to from the parents.
  unfoldable pub related : Relationship → List Object → List Object
  related relationship [] = []
  related relationship (parent ∷ parents) =
      related_of relationship parent ++ related relationship parents

  -- The items that a test accepts.
  unfoldable pub accepted : (Object → Evaluated Truth) → List Object → Evaluated (List Object)
  accepted test [] = ok []
  accepted test (item ∷ rest) = do
    result ← test item
    others ← accepted test rest
    ok (if is_true result then item ∷ others else others)

  -- Whether a test accepts some item; no test runs after one that does.
  unfoldable pub some_accepted : (Object → Evaluated Truth) → List Object → Evaluated Truth
  some_accepted test [] = ok (some false)
  some_accepted test (item ∷ rest) = do
    result ← test item
    let others = some_accepted test rest in if is_true result then ok (some true) else others

  abbrev contains_key : List Object → Object → Bool
  contains_key [] key = false
  contains_key (k ∷ ks) key = same k key || contains_key ks key

  -- `found.add(_exact_key(...))` for a candidate that is not None.
  unfoldable pub add_key :
      (Object → Evaluated Object) → List Object → Object → Evaluated (List Object)
  add_key key found candidate =
      if is_none candidate
      then ok found
      else key candidate >>= λ k.
          if hashable k
          then ok (if contains_key found k then found else k ∷ found)
          else err unhashable_key

  -- The distinct keys of the candidates that are not None.
  unfoldable pub distinct_keys :
      (Object → Evaluated Object)
      → (Object → Evaluated Object)
      → List Object
      → List Object
      → Evaluated (List Object)
  unfolding add_key
  distinct_keys value key found [] = ok found
  distinct_keys value key found (item ∷ rest) = do
    candidate ← value item
    keys ← add_key key found candidate
    distinct_keys value key keys rest

  abbrev is_single : List Object → (Object → Bool) → Bool
  is_single (item ∷ []) p = p item
  is_single _ p = false

  abbrev of_single : List Object → (Object → Object) → Object
  of_single (item ∷ []) f = f item
  of_single _ f = none_object

  -- The rest of a computation with an exact value.
  unfoldable pub with_fraction : Converted Fraction → (Fraction → Evaluated Truth) → Evaluated Truth
  with_fraction (converted x) rest = rest x
  with_fraction refused rest = ok none
  with_fraction overflow rest = err overflow_error

  -- The comparison of two products.
  unfoldable pub compare_scaled : Object → Object → Object → Object → Evaluated Truth
  unfolding with_fraction
  compare_scaled a f b g =
      if (is_none a || is_none f) || (is_none b || is_none g)
      then ok none
      else with_fraction (fraction a) (λ x. with_fraction (fraction f) (λ m.
        with_fraction (fraction b) (λ y.
          with_fraction (fraction g) (λ n. ok (some (same_fraction (times x m) (times y n)))))))

  abbrev bound_or_none : Option Object → List Object
  bound_or_none (some item) = item ∷ []
  bound_or_none none = []

  abbrev pub or_items : Option Object → Evaluated (List Object) → Evaluated (List Object)
  or_items (some item) others = ok (item ∷ [])
  or_items none others = others

  abbrev known_then : Truth → Evaluated Truth → Evaluated Truth
  known_then known then_ = if is_true known then then_ else ok none

  module _ (r : Resolvers) where
    unfoldable mutual
      unfolding related accepted some_accepted distinct_keys compare_scaled compare_values exact_key

      -- `_items`
      pub items : MongoScope o → Environment → Evaluated (List Object)
      items (root i) env = ok (bound_or_none (env i))
      items (child i parent relationship filter scalar) env =
          or_items (env i) (do
            parents ← items parent env
            filter_items filter i (related relationship parents) env)

      pub filter_items : Filter o → ℕ → List Object → Environment → Evaluated (List Object)
      filter_items unfiltered i values env = ok values
      filter_items (filtered p) i values env =
          accepted (λ item. eval_predicate p (bind env i item)) values

      -- `_eval_value`
      pub eval_value : MongoValue o → Environment → Evaluated Object
      eval_value (constant_value x) env = ok x
      eval_value null_value env = ok none_object
      eval_value (store_timestamp scope) env = ok (resolved r.store_timestamp_resolver)
      eval_value (logical_id scope) env = ok (resolved r.logical_id_resolver)
      eval_value (present scope field) env = do
        found ← items scope env
        ok (of_bool (is_single found (λ item. not (is_none (attribute item field)))))
      eval_value (count scope) env = do found ← items scope env; ok (of_nat (length found))
      eval_value (distinct_count scope value) env = do
        found ← items scope env
        keys ←
            distinct_keys (λ item. eval_value value (bind env (identifier scope) item))
              (λ x. exact_key o value x none) [] found
        ok (of_nat (length keys))
      eval_value (field_value scope field codec) env = do
        found ← items scope env
        ok (of_single found (λ item. if is_scalar_child scope then item else attribute item field))
      eval_value (content_id_value scope prefix) env = do
        found ← items scope env
        ok (
            of_single found
              (λ item. if is_scalar_child scope then item else content_id prefix item))

      -- `_eval_predicate`
      pub eval_predicate : MongoPredicate o → Environment → Evaluated Truth
      eval_predicate (constant value) env = ok value
      eval_predicate (compare v operator w) env = do
        x ← eval_value v env
        y ← eval_value w env
        compare_values o x v operator y w
      eval_predicate (is_null v) env = do x ← eval_value v env; ok (some (is_none x))
      eval_predicate (exists scope p) env = do
        found ← items scope env
        some_accepted (λ item. eval_predicate p (bind env (identifier scope) item)) found
      eval_predicate (conjunction p q) env = do
        a ← eval_predicate p env
        b ← eval_predicate q env
        ok (truth_and a b)
      eval_predicate (disjunction p q) env = do
        a ← eval_predicate p env
        b ← eval_predicate q env
        ok (truth_or a b)
      eval_predicate (negation p) env = do a ← eval_predicate p env; ok (truth_not a)
      eval_predicate (when_known p q) env =
          let then_ = eval_predicate q env in
          do known ← eval_predicate p env; known_then known then_
      eval_predicate (scaled v f w g) env = do
        x ← eval_value v env
        a ← eval_value f env
        y ← eval_value w env
        b ← eval_value g env
        compare_scaled x a y b
