-- ===== src/Filters/Handlers.antt =====
-- The generic handlers and the handler tables built from a property-key map.
use httk_data.Prelude.{ℕ, Bool, true, false, not, String, List, [], ◌∷◌, any, all, ok, err, ◌>>=◌}
use httk_data.Filters.Syntax.{
  Operator, ne, gt, lt, eq, le, ge, Matching, starts, ends, contains, SetOperator, has_all, has_any,
  has_only, Knowledge, is_unknown, is_known, type_error, index_error, FilterValue, text_value, null,
  SearchExpression, always, field_compare, field_match, field_has_any, field_has_only, both,
}
use httk_data.Filters.Decimal.{codes}
use httk_data.Filters.Values.{Checked}
use httk_data.Filters.Texts.{text_before, is_prefix, is_suffix, is_infix, same_codes}

-- `invert_op`: the operator after the sides are swapped.
unfoldable pub invert_op : Operator → Operator
invert_op ne = ne
invert_op gt = lt
invert_op lt = gt
invert_op eq = eq
invert_op le = ge
invert_op ge = le

abbrev pub true_handler : SearchExpression
true_handler = always true

abbrev pub false_handler : SearchExpression
false_handler = always false

unfoldable pub unknown_unknown_handler : String → Knowledge → Checked SearchExpression
unknown_unknown_handler entry is_unknown = ok true_handler
unknown_unknown_handler entry is_known = ok false_handler

unfoldable pub known_unknown_handler : String → Knowledge → Checked SearchExpression
known_unknown_handler entry is_unknown = ok false_handler
known_unknown_handler entry is_known = ok true_handler

unfoldable pub field_unknown_handler : String → Knowledge → Checked SearchExpression
field_unknown_handler entry is_unknown = ok (field_compare entry eq null)
field_unknown_handler entry is_known = ok (field_compare entry ne null)

unfoldable pub unknown_comparison_handler :
    String → Operator → FilterValue → Checked SearchExpression
unknown_comparison_handler entry op value = ok false_handler

unfoldable pub unknown_stringmatching_handler :
    String → FilterValue → Matching → Checked SearchExpression
unknown_stringmatching_handler entry value kind = ok false_handler

unfoldable pub unknown_has_handler :
    String → List Operator → List FilterValue → SetOperator → Checked SearchExpression
unknown_has_handler entry ops values kind = ok false_handler

unfoldable pub unknown_length_handler : String → Operator → FilterValue → Checked SearchExpression
unknown_length_handler entry op value = ok false_handler

-- `string_handler` and `number_handler` have one body.
unfoldable pub string_handler : String → Operator → FilterValue → Checked SearchExpression
string_handler entry op value = ok (field_compare entry op value)

unfoldable pub number_handler : String → Operator → FilterValue → Checked SearchExpression
number_handler entry op value = ok (field_compare entry op value)

unfoldable pub stringmatching_handler : String → FilterValue → Matching → Checked SearchExpression
stringmatching_handler entry value kind = ok (field_match entry kind value)

-- The comparison of two texts, by code points.
abbrev compare_texts : Operator → List ℕ → List ℕ → Bool
compare_texts ne a b = not (same_codes a b)
compare_texts eq a b = same_codes a b
compare_texts lt a b = text_before a b
compare_texts gt a b = text_before b a
compare_texts le a b = not (text_before b a)
compare_texts ge a b = not (text_before a b)

-- The served type is a text; an order between a text and another kind of value is a `TypeError`.
abbrev compare_text_value : String → Operator → FilterValue → Checked Bool
compare_text_value a op (text_value b) = ok (compare_texts op (codes a) (codes b))
compare_text_value a eq _ = ok false
compare_text_value a ne _ = ok true
compare_text_value a _ _ = err type_error

unfoldable pub constant_comparison_handler :
    String → Operator → FilterValue → Checked SearchExpression
unfolding text_before
constant_comparison_handler a op value = do holds ← compare_text_value a op value; ok (always holds)

abbrev matches_text : Matching → List ℕ → List ℕ → Bool
matches_text starts value text = is_prefix text value
matches_text ends value text = is_suffix text value
matches_text contains value text = is_infix text value

unfoldable pub constant_stringmatching_handler :
    String → FilterValue → Matching → Checked SearchExpression
unfolding is_prefix is_suffix is_infix
constant_stringmatching_handler a (text_value b) kind =
    ok (always (matches_text kind (codes a) (codes b)))
constant_stringmatching_handler a _ kind = err type_error

-- The conjunction of one-value tests, from the left.
unfoldable pub all_of : String → SearchExpression → List FilterValue → SearchExpression
all_of entry search [] = search
all_of entry search (v ∷ vs) = all_of entry (both search (field_has_any entry (v ∷ []))) vs

unfoldable pub set_handler :
    String → List Operator → List FilterValue → SetOperator → Checked SearchExpression
unfolding all_of
set_handler entry ops [] has_all = err index_error
set_handler entry ops (v ∷ vs) has_all = ok (all_of entry (field_has_any entry (v ∷ [])) vs)
set_handler entry ops values has_any = ok (field_has_any entry values)
set_handler entry ops values has_only = ok (field_has_only entry values)

-- The values are of any type with an equality.
module _ {A : Type 0} (same : A → A → Bool) where
  abbrev pub value_in : List A → A → Bool
  value_in vs v = any (same v) vs

  unfoldable pub constant_set_handler :
      List A → List Operator → List A → SetOperator → Checked SearchExpression
  constant_set_handler a ops b has_all = ok (always (all (value_in a) b))
  constant_set_handler a ops b has_any = ok (always (any (value_in a) b))
  constant_set_handler a ops b has_only = ok (always (all (value_in b) a))
