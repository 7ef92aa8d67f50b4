-- ===== src/Filters/Settings.antt =====
-- What drives a translation, and the relationship filters of `translate_filter_ast`.
use Prim.Native.String.{◌++◌}
use text.Mathlib.Text.{starts_with}
use httk_data.Prelude.{
  ℕ, zero, suc, Bool, true, false, String, Option, none, some, List, [], ◌∷◌, map, str_eq, any,
  length, if◌then◌else◌, ok, err, ◌>>=◌,
}
use httk_data.Filters.Syntax.{
  Operator, ne, eq, Matching, SetOperator, has_any, Knowledge, Operand, identifier, string_constant,
  boolean_constant, Leaf, set_test, malformed, unrecognized_property, not_implemented, Fulltype,
  string, list_of, FilterValue, SearchExpression,
}
use httk_data.Filters.Values.{Checked, format_tuple}
use httk_data.Filters.Handlers.{false_handler}

-- One property's entry of a `HandlerTable`.
pub record Handlers : Type 0 where
  pub comparison : Option (String → Operator → FilterValue → Checked SearchExpression)
  pub stringmatching : Option (String → FilterValue → Matching → Checked SearchExpression)
  pub has :
      Option (String → List Operator → List FilterValue → SetOperator → Checked SearchExpression)
  pub length : Option (String → Operator → FilterValue → Checked SearchExpression)
  pub unknown : Option (String → Knowledge → Checked SearchExpression)

abbrev pub no_handlers : Handlers
no_handlers = record {
  comparison = none;
  stringmatching = none;
  has = none;
  length = none;
  unknown = none;
}

abbrev pub find {ℓ} : {A : Type ℓ} → String → List (String × A) → Option A
find k [] = none
find k ((j, v) ∷ m) = if str_eq j k then some v else find k m

-- What drives a translation; the search variable is implicit in the expressions.
pub record Settings : Type 0 where
  pub property_fulltypes : List (String × Fulltype)
  pub handlers : List (String × Handlers)
  pub recognized_prefixes : List String
  pub relationship_targets : List String
  pub resolver : Option (String → Leaf → Checked (List String))

abbrev pub or_no_handlers : Option Handlers → Handlers
or_no_handlers none = no_handlers
or_no_handlers (some h) = h

abbrev pub handlers_of : Settings → String → Handlers
handlers_of s name = or_no_handlers (find name s.handlers)

abbrev pub equal_ops : List Operator → ℕ → Bool
equal_ops [] zero = true
equal_ops (eq ∷ ops) (suc n) = equal_ops ops n
equal_ops _ _ = false

abbrev pub has_prefix : Settings → String → Bool
has_prefix s name = any (λ p. starts_with name p) s.recognized_prefixes

abbrev pub is_target : Settings → String → Bool
is_target s name = any (λ t. str_eq t name) s.relationship_targets

-- An unknown property is an error if it has a recognized prefix; else `k` goes on.
abbrev pub unknown_property :
    Settings → String → Checked SearchExpression → Checked SearchExpression
unknown_property s name k = if has_prefix s name then err unrecognized_property else k

abbrev pub require {ℓ} :
    {A : Type ℓ} → Option A → (A → Checked SearchExpression) → Checked SearchExpression
require none f = err not_implemented
require (some h) f = f h

abbrev pub checked_ops : List Operator → ℕ → Checked SearchExpression → Checked SearchExpression
checked_ops ops n k = if equal_ops ops n then k else err not_implemented

-- `left[1] + '.id'`
abbrev pub rel_key : String → String
rel_key rel = rel ++ ".id"

-- `<type>.id HAS ...`
abbrev pub relationship_id :
    Settings → SetOperator → List Operator → String → List Operand → Checked SearchExpression
relationship_id s kind ops rel right = require (handlers_of s (rel_key rel)).has λ h. do
  values ← format_tuple (list_of string) false right
  checked_ops ops (length values) (h (rel_key rel) ops values kind)

abbrev pub is_dotted : List String → Bool
is_dotted [] = false
is_dotted (_ ∷ _) = true

abbrev pub is_id : List String → Bool
is_id (a ∷ []) = str_eq a "id"
is_id _ = false

abbrev pub is_identifier : Operand → Bool
is_identifier (identifier _ _) = true
is_identifier _ = false

abbrev pub is_boolean : Operand → Bool
is_boolean (boolean_constant _) = true
is_boolean _ = false

abbrev pub is_equality : Operator → Bool
is_equality eq = true
is_equality ne = true
is_equality _ = false

abbrev pub is_list : Fulltype → Bool
is_list (list_of _) = true
is_list _ = false

-- The node with the first name of its identifier stripped.
abbrev pub strip : (Operand → Leaf) → List String → Leaf
strip node [] = malformed
strip node (a ∷ rest) = node (identifier a rest)

-- The rewritten node: `<type>.id HAS ANY <ids>`.
abbrev pub id_test : String → List String → Leaf
id_test rel ids =
    set_test has_any (map (λ _. eq) ids) (identifier rel ("id" ∷ [])) (map string_constant ids)

abbrev pub join_ids :
    (Leaf → Checked SearchExpression) → String → List String → Checked SearchExpression
join_ids recurse rel [] = ok false_handler
join_ids recurse rel (id ∷ ids) = recurse (id_test rel (id ∷ ids))

abbrev pub join_with :
    Option (String → Leaf → Checked (List String))
    → (Leaf → Checked SearchExpression)
    → String
    → List String
    → Leaf
    → Checked SearchExpression
join_with none recurse rel path sub = err not_implemented
join_with (some resolve) recurse rel (_ ∷ []) sub = do
  ids ← resolve rel sub
  join_ids recurse rel ids
join_with (some resolve) recurse rel path sub = err not_implemented

-- The two-phase semi-join. `recurse` translates the rewritten node.
unfoldable pub relationship_semi_join :
    Settings
    → (Leaf → Checked SearchExpression)
    → String
    → List String
    → Leaf
    → Checked SearchExpression
relationship_semi_join s = join_with s.resolver
