-- ===== src/Filters/Translate.antt =====
-- `translate_filter_ast`, a function for each kind of node.
use httk_data.Prelude.{
  false, not, ◌&&◌, ◌||◌, String, none, some, List, length, if◌then◌else◌, ok, err, ◌>>=◌,
}
use httk_data.Filters.Syntax.{
  Operator, Matching, SetOperator, Knowledge, Operand, identifier, number_constant, null_constant,
  Leaf, set_test, length_test, comparison, matching, knowledge, malformed, FilterAst, conjunction,
  disjunction, negation, leaf, not_implemented, internal, assertion_error, integer, unknown,
  list_of, SearchExpression, both, either, inverse,
}
use httk_data.Filters.Values.{Checked, format_value, format_tuple}
use httk_data.Filters.Handlers.{
  invert_op, unknown_unknown_handler, unknown_comparison_handler, unknown_stringmatching_handler,
  unknown_has_handler, unknown_length_handler,
}
use httk_data.Filters.Settings.{
  find, Settings, handlers_of, is_target, unknown_property, require, checked_ops, relationship_id,
  is_dotted, is_id, is_identifier, is_boolean, is_equality, is_list, strip, relationship_semi_join,
}

-- The HAS family. `rest` is the path behind the first name of the identifier.
unfoldable pub translate_set :
    Settings
    → (Leaf → Checked SearchExpression)
    → SetOperator
    → List Operator
    → String
    → List String
    → List Operand
    → Checked SearchExpression
unfolding format_tuple relationship_semi_join unknown_has_handler
translate_set s recurse kind ops name rest right =
    let by_id : Checked SearchExpression = relationship_id s kind ops name right in
    let joined : Checked SearchExpression =
      relationship_semi_join s recurse name rest (strip (λ i. set_test kind ops i right) rest) in
    let direct : Checked SearchExpression = elim (find name s.property_fulltypes) [
      | none ↦ unknown_property s name (do
        values ← format_tuple (list_of unknown) false right
        checked_ops ops (length values) (unknown_has_handler name ops values kind))
      | some f ↦ do
        values ← format_tuple f false right
        require (handlers_of s name).has
            λ h. checked_ops ops (length values) (h name ops values kind)
    ] in
    if is_dotted rest && is_target s name then (if is_id rest then by_id else joined) else direct

unfoldable pub translate_length :
    Settings → String → List String → Operator → Operand → Checked SearchExpression
unfolding format_value unknown_length_handler
translate_length s name rest op (number_constant n) =
    if is_dotted rest && is_target s name
    then err not_implemented
    else elim (find name s.property_fulltypes) [
      | none ↦ unknown_property s name (do
        value ← format_value unknown false (number_constant n)
        unknown_length_handler name op value)
      | some f ↦ require (handlers_of s name).length λ h.
          if is_list f
          then (do value ← format_value integer false (number_constant n); h name op value)
          else err assertion_error
    ]
translate_length s name rest op right = err not_implemented

-- A comparison with the identifier on the left.
unfoldable pub translate_comparison :
    Settings
    → (Leaf → Checked SearchExpression)
    → Operator
    → String
    → List String
    → Operand
    → Checked SearchExpression
unfolding format_value relationship_semi_join unknown_comparison_handler
translate_comparison s recurse op name rest right =
    let joined : Checked SearchExpression =
      relationship_semi_join s recurse name rest (strip (λ i. comparison op i right) rest) in
    let direct : Checked SearchExpression = elim (find name s.property_fulltypes) [
      | none ↦
          unknown_property s name
            (do value ← format_value unknown false right; unknown_comparison_handler name op value)
      | some f ↦
          require (handlers_of s name).comparison
            λ h. do value ← format_value f false right; h name op value
    ] in
    if is_dotted rest && is_target s name then joined else direct

unfoldable pub translate_matching :
    Settings
    → (Leaf → Checked SearchExpression)
    → Matching
    → String
    → List String
    → Operand
    → Checked SearchExpression
unfolding format_value relationship_semi_join unknown_stringmatching_handler
translate_matching s recurse kind name rest right =
    let joined : Checked SearchExpression =
      relationship_semi_join s recurse name rest (strip (λ i. matching kind i right) rest) in
    let direct : Checked SearchExpression = elim (find name s.property_fulltypes) [
      | none ↦ unknown_property s name (do
        value ← format_value unknown false right
        unknown_stringmatching_handler name value kind)
      | some f ↦
          require (handlers_of s name).stringmatching
            λ h. do value ← format_value f false right; h name value kind
    ] in
    if is_dotted rest && is_target s name
    then joined
    else if is_identifier right
    then err not_implemented
    else direct

unfoldable pub translate_knowledge :
    Settings
    → (Leaf → Checked SearchExpression)
    → Knowledge
    → String
    → List String
    → Checked SearchExpression
unfolding relationship_semi_join unknown_unknown_handler
translate_knowledge s recurse kind name rest =
    let joined : Checked SearchExpression =
      relationship_semi_join s recurse name rest (strip (knowledge kind) rest) in
    let direct : Checked SearchExpression = elim (find name s.property_fulltypes) [
      | none ↦ unknown_property s name (unknown_unknown_handler name kind)
      | some f ↦ require (handlers_of s name).unknown λ h. h name kind
    ] in
    if is_dotted rest && is_target s name then joined else direct

-- The branches of a comparison, in the order of the source: Boolean constants, two constants, two
-- identifiers, a constant on the left, and the assertion that an identifier is then on the left.
abbrev pub compare_operands :
    Settings
    → (Leaf → Checked SearchExpression)
    → Operator
    → Operand
    → Operand
    → Checked SearchExpression
compare_operands s recurse op (identifier a path) (identifier b bs) = err not_implemented
compare_operands s recurse op (identifier a path) right =
    translate_comparison s recurse op a path right
compare_operands s recurse op null_constant right = err assertion_error
compare_operands s recurse op left (identifier b bs) =
    translate_comparison s recurse (invert_op op) b bs left
compare_operands s recurse op left null_constant = err assertion_error
compare_operands s recurse op left right = err not_implemented

-- A node without subfilters. `recurse` is the translation that the semi-join calls.
unfoldable pub translate_leaf :
    Settings → (Leaf → Checked SearchExpression) → Leaf → Checked SearchExpression
unfolding translate_set translate_length translate_comparison translate_matching translate_knowledge
    invert_op
translate_leaf s recurse (set_test kind ops (identifier name rest) right) =
    translate_set s recurse kind ops name rest right
translate_leaf s recurse (set_test kind ops _ right) = err assertion_error
translate_leaf s recurse (length_test (identifier name rest) op right) =
    translate_length s name rest op right
translate_leaf s recurse (length_test _ op right) = err assertion_error
translate_leaf s recurse (comparison op left right) =
    if (is_boolean left || is_boolean right) && not (is_equality op)
    then err not_implemented
    else compare_operands s recurse op left right
translate_leaf s recurse (matching kind (identifier name rest) right) =
    translate_matching s recurse kind name rest right
translate_leaf s recurse (matching kind _ right) = err assertion_error
translate_leaf s recurse (knowledge kind (identifier name rest)) =
    translate_knowledge s recurse kind name rest
translate_leaf s recurse (knowledge kind _) = err assertion_error
translate_leaf s recurse malformed = err internal

-- The translation of the node that the semi-join rewrites to, which needs no further semi-join.
unfoldable pub translate_rewritten : Settings → Leaf → Checked SearchExpression
unfolding translate_leaf
translate_rewritten s = translate_leaf s (λ _. err internal)

unfoldable pub translate_node : Settings → Leaf → Checked SearchExpression
unfolding translate_rewritten
translate_node s = translate_leaf s (translate_rewritten s)

unfoldable pub translate_filter_ast : Settings → FilterAst → Checked SearchExpression
unfolding translate_node
translate_filter_ast s (conjunction a b) = do
  l ← translate_filter_ast s a
  r ← translate_filter_ast s b
  ok (both l r)
translate_filter_ast s (disjunction a b) = do
  l ← translate_filter_ast s a
  r ← translate_filter_ast s b
  ok (either l r)
translate_filter_ast s (negation a) = do l ← translate_filter_ast s a; ok (inverse l)
translate_filter_ast s (leaf l) = translate_node s l
