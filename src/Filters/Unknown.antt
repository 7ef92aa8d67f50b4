-- ===== src/Filters/Unknown.antt =====
-- What a filter on a property that the provider does not know translates to.
use httk_data.Prelude.{
  ◌≡◌, refl, ap, suc, Bool, true, false, ◌&&◌, not, String, none, List, [], ◌∷◌, length, ok, err,
  if◌then◌else◌,
}
use httk_data.Filters.Syntax.{
  Operator, Matching, SetOperator, is_unknown, is_known, Operand, identifier, string_constant,
  number_constant, boolean_constant, null_constant, Leaf, set_test, length_test, comparison,
  matching, knowledge, unrecognized_property, not_implemented, unknown, FilterValue, text_value,
  SearchExpression, always,
}
use httk_data.Filters.Values.{Checked, format_values}
use httk_data.Filters.Settings.{
  Settings, find, has_prefix, is_target, is_dotted, is_equality, is_boolean, equal_ops,
}
use httk_data.Filters.Translate.{
  translate_node, translate_rewritten, translate_comparison, translate_matching, translate_set,
  translate_length, translate_knowledge,
}

-- A constant that is not null.
abbrev pub is_constant : Operand → Bool
is_constant (string_constant _) = true
is_constant (number_constant _) = true
is_constant (boolean_constant _) = true
is_constant _ = false

abbrev pub all_constants : List Operand → Bool
all_constants [] = true
all_constants (v ∷ vs) = is_constant v && all_constants vs

-- An order between Booleans is no filter.
abbrev pub orders_boolean : Operator → Operand → Bool
orders_boolean op v = is_boolean v && not (is_equality op)

-- What is said of a test of an unknown property: it is not implemented whatever the property, or
-- only after the test for a claimed prefix, or it is a constant.
pub data Answer : Type 0 where
  never : Answer
  operators : Bool → Answer
  always_is : Bool → Answer

abbrev pub comparable : Bool → Answer
comparable true = never
comparable false = always_is false

abbrev pub is_number : Operand → Bool
is_number (number_constant _) = true
is_number _ = false

-- The tests of a property against constants that are not null, with what is said of each.
pub data Tests (name : String) (path : List String) : Answer → Leaf → Type 0 where
  in_set :
      (kind : SetOperator) (ops : List Operator) (v : Operand) (vs : List Operand)
      → all_constants (v ∷ vs) ≡ true
      → Tests name path
          (operators (equal_ops ops (length (v ∷ vs))))
          (set_test kind ops (identifier name path) (v ∷ vs))
  of_length :
      (op : Operator) (n : String)
      → Tests name path
          (always_is false)
          (length_test (identifier name path) op (number_constant n))
  of_other_length :
      (op : Operator) (v : Operand)
      → is_number v ≡ false
      → Tests name path never (length_test (identifier name path) op v)
  compared :
      (op : Operator) (v : Operand)
      → is_constant v ≡ true
      → Tests name path (comparable (orders_boolean op v)) (comparison op (identifier name path) v)
  compared_right :
      (op : Operator) (v : Operand)
      → is_constant v ≡ true
      → Tests name path (comparable (orders_boolean op v)) (comparison op v (identifier name path))
  matched :
      (kind : Matching) (v : Operand)
      → is_constant v ≡ true
      → Tests name path (always_is false) (matching kind (identifier name path) v)
  unknown_test : Tests name path (always_is true) (knowledge is_unknown (identifier name path))
  known_test : Tests name path (always_is false) (knowledge is_known (identifier name path))

format_constants :
    (vs : List Operand)
    → all_constants vs ≡ true
    → (xs : List FilterValue) × (format_values unknown false vs ≡ ok xs) × (length xs ≡ length vs)
unfolding format_values
format_constants [] h = ([], refl, refl)
format_constants (string_constant c ∷ vs) h =
    let (xs, e, k) = format_constants vs h in (text_value c ∷ xs, rw e, ap suc k)
format_constants (number_constant c ∷ vs) h =
    let (xs, e, k) = format_constants vs h in (text_value c ∷ xs, rw e, ap suc k)
format_constants (boolean_constant c ∷ vs) h =
    let (xs, e, k) = format_constants vs h in (text_value c ∷ xs, rw e, ap suc k)
format_constants (identifier n p ∷ vs) h = cc
format_constants (null_constant ∷ vs) h = cc

module _ (s : Settings) (name : String) (path : List String)
    (missing : find name s.property_fulltypes ≡ none)
    (own : (is_dotted path && is_target s name) ≡ false) where
  abbrev pub Constant : Bool → Checked SearchExpression
  Constant holds = if has_prefix s name then err unrecognized_property else ok (always holds)

  -- The translation by the answer.
  abbrev pub answered : Answer → Checked SearchExpression
  answered never = err not_implemented
  answered (operators b) =
      if has_prefix s name
      then err unrecognized_property
      else if b
      then ok (always false)
      else err not_implemented
  answered (always_is holds) = Constant holds

  translate_comparison-unknown :
      (recurse : Leaf → Checked SearchExpression) (op : Operator) (v : Operand)
      → is_constant v ≡ true
      → translate_comparison s recurse op name path v ≡ Constant false
  unfolding translate_comparison
  translate_comparison-unknown recurse op (string_constant v) c = rw (own, missing)
  translate_comparison-unknown recurse op (number_constant v) c = rw (own, missing)
  translate_comparison-unknown recurse op (boolean_constant v) c = rw (own, missing)
  translate_comparison-unknown recurse op (identifier n p) c = cc
  translate_comparison-unknown recurse op null_constant c = cc

  translate_matching-unknown :
      (recurse : Leaf → Checked SearchExpression) (kind : Matching) (v : Operand)
      → is_constant v ≡ true
      → translate_matching s recurse kind name path v ≡ Constant false
  unfolding translate_matching
  translate_matching-unknown recurse kind (string_constant v) c = rw (own, missing)
  translate_matching-unknown recurse kind (number_constant v) c = rw (own, missing)
  translate_matching-unknown recurse kind (boolean_constant v) c = rw (own, missing)
  translate_matching-unknown recurse kind (identifier n p) c = cc
  translate_matching-unknown recurse kind null_constant c = cc

  translate_set-unknown :
      (recurse : Leaf → Checked SearchExpression) (kind : SetOperator) (ops : List Operator)
      (v : Operand) (vs : List Operand)
      → all_constants (v ∷ vs) ≡ true
      → translate_set s recurse kind ops name path (v ∷ vs)
        ≡ answered (operators (equal_ops ops (length (v ∷ vs))))
  unfolding translate_set
  translate_set-unknown recurse kind ops v vs c =
      let (xs, e, k) = format_constants (v ∷ vs) c in rw (own, missing, e, k)

  translate_length-other :
      (op : Operator) (v : Operand)
      → is_number v ≡ false
      → translate_length s name path op v ≡ err not_implemented
  unfolding translate_length
  translate_length-other op (number_constant n) c = cc
  translate_length-other op _ c = refl

  compared_with :
      (op : Operator) (v : Operand) (found : Checked SearchExpression)
      → found ≡ Constant false
      → (if orders_boolean op v then err not_implemented else found)
        ≡ answered (comparable (orders_boolean op v))
  compared_with op v found e = by_order (orders_boolean op v)
    where
      by_order : (b : Bool) → (if b then err not_implemented else found) ≡ answered (comparable b)
      by_order true = refl
      by_order false = e

  -- Take a test of a property that the provider does not know, and that is no path into a
  -- relationship, against constants that are not null. An order of Booleans, and LENGTH of anything
  -- but a number, is not implemented. Any other test is an error if the name has a prefix that the
  -- provider claims. Otherwise HAS whose operators are not one = for each constant is not
  -- implemented, and every other test is a constant: true for IS UNKNOWN, false for all else.
  pub translate_node-unknown :
      (answer : Answer) (l : Leaf) → Tests name path answer l → translate_node s l ≡ answered answer
  unfolding translate_node
  translate_node-unknown _ _ (in_set kind ops v vs c) =
      translate_set-unknown (translate_rewritten s) kind ops v vs c
  translate_node-unknown _ _ (of_length op n) = rw (translate_length, own, missing)
  translate_node-unknown _ _ (of_other_length op v c) = translate_length-other op v c
  translate_node-unknown _ _ (compared op (string_constant v) c) =
      translate_comparison-unknown (translate_rewritten s) op (string_constant v) c
  translate_node-unknown _ _ (compared op (number_constant v) c) =
      translate_comparison-unknown (translate_rewritten s) op (number_constant v) c
  translate_node-unknown _ _ (compared op (boolean_constant v) c) =
      compared_with op (boolean_constant v) _
        (translate_comparison-unknown (translate_rewritten s) op (boolean_constant v) c)
  translate_node-unknown _ _ (compared op (identifier n p) c) = cc
  translate_node-unknown _ _ (compared op null_constant c) = cc
  translate_node-unknown _ _ (compared_right op (string_constant v) c) =
      translate_comparison-unknown (translate_rewritten s) _ (string_constant v) c
  translate_node-unknown _ _ (compared_right op (number_constant v) c) =
      translate_comparison-unknown (translate_rewritten s) _ (number_constant v) c
  translate_node-unknown _ _ (compared_right op (boolean_constant v) c) =
      compared_with op (boolean_constant v) _
        (translate_comparison-unknown (translate_rewritten s) _ (boolean_constant v) c)
  translate_node-unknown _ _ (compared_right op (identifier n p) c) = cc
  translate_node-unknown _ _ (compared_right op null_constant c) = cc
  translate_node-unknown _ _ (matched kind v c) =
      translate_matching-unknown (translate_rewritten s) kind v c
  translate_node-unknown _ _ unknown_test = rw (translate_knowledge, own, missing)
  translate_node-unknown _ _ known_test = rw (translate_knowledge, own, missing)
