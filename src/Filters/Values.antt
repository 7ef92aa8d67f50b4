-- ===== src/Filters/Values.antt =====
-- `format_value`: filter constants as values of a property's fulltype.
use httk_data.Prelude.{
  Bool, true, Option, none, some, ℤ, List, [], ◌∷◌, map, str_eq, Result, ok, err, ◌>>=◌,
}
use httk_data.Filters.Syntax.{
  Operand, identifier, string_constant, number_constant, boolean_constant, null_constant,
  TranslationError, not_implemented, type_mismatch, type_error, index_error, Fulltype, boolean,
  integer, float, string, timestamp, dict, unknown, list_of, FilterValue, null, boolean_value,
  integer_value, float_value, text_value,
}
use httk_data.Filters.Decimal.{integral_of}

abbrev pub Checked : Type 0 → Type 0
Checked A = Result TranslationError A

-- `val[1]`
abbrev second : Operand → Checked FilterValue
second (identifier name _) = ok (text_value name)
second (string_constant s) = ok (text_value s)
second (number_constant s) = ok (text_value s)
second (boolean_constant s) = ok (text_value s)
second null_constant = err index_error

abbrev integral : Option ℤ → Checked FilterValue
integral none = err type_mismatch
integral (some i) = ok (integer_value i)

-- By the fulltype, at a constant that is not the accepted null.
abbrev convert : Fulltype → Operand → Checked FilterValue
convert boolean (boolean_constant s) = ok (boolean_value (str_eq s "TRUE"))
convert integer (number_constant s) = integral (integral_of s)
convert float (number_constant s) = ok (float_value s)
convert string (string_constant s) = ok (text_value s)
convert timestamp (string_constant s) = ok (text_value s)
convert dict v = err not_implemented
convert unknown v = second v
convert _ v = err type_mismatch

-- A single constant. The test for a list type comes first, then the one for an accepted null.
unfoldable pub format_value : Fulltype → Bool → Operand → Checked FilterValue
unfolding integral_of
format_value (list_of f) allow_null v = err type_mismatch
format_value f true null_constant = ok null
format_value f allow_null v = convert f v

-- Each of the constants of a tuple, in order.
unfoldable pub format_values : Fulltype → Bool → List Operand → Checked (List FilterValue)
unfolding format_value
format_values f allow_null [] = ok []
format_values f allow_null (v ∷ vs) = do
  x ← format_value f allow_null v
  xs ← format_values f allow_null vs
  ok (x ∷ xs)

-- A node as the tuple of its texts.
abbrev node_texts : Operand → List FilterValue
node_texts (identifier name rest) = text_value "Identifier" ∷ text_value name ∷ map text_value rest
node_texts (string_constant s) = text_value "String" ∷ text_value s ∷ []
node_texts (number_constant s) = text_value "Number" ∷ text_value s ∷ []
node_texts (boolean_constant s) = text_value "Boolean" ∷ text_value s ∷ []
node_texts null_constant = text_value "Null" ∷ []

abbrev not_a_list : Fulltype → List Operand → Checked (List FilterValue)
not_a_list dict vs = err not_implemented
not_a_list unknown (_ ∷ v ∷ _) = ok (node_texts v)
not_a_list unknown vs = err index_error
not_a_list f [] = err index_error
not_a_list f (v ∷ vs) = err type_error

-- A tuple of constants. Where the type is no list, the message of the mismatch joins a text to a
-- tuple, which is a `TypeError`.
unfoldable pub format_tuple : Fulltype → Bool → List Operand → Checked (List FilterValue)
unfolding format_values
format_tuple (list_of f) allow_null [] = err index_error
format_tuple (list_of f) allow_null (v ∷ vs) = format_values f allow_null (v ∷ vs)
format_tuple f allow_null vs = not_a_list f vs
