-- ===== src/Filters/Syntax.antt =====
-- The filter syntax tree that `translate_filter_ast` reads, the search expressions that it builds,
-- and its exceptions. The tuples of the source are data types: a node's kind is its constructor.
use httk_data.Prelude.{ℤ, Bool, String, List}

-- The comparison operators, and `_python_opmap` of them: the method that each one calls.
pub data Operator : Type 0 where
  ne gt lt eq le ge : Operator

pub data Matching : Type 0 where
  starts ends contains : Matching

pub data SetOperator : Type 0 where
  has_all has_any has_only : SetOperator

pub data Knowledge : Type 0 where
  is_unknown is_known : Knowledge

-- `('Identifier', first, *rest)`, or a constant: its kind and its text.
pub data Operand : Type 0 where
  identifier : String → List String → Operand
  string_constant : String → Operand
  number_constant : String → Operand
  boolean_constant : String → Operand
  null_constant : Operand

-- Nodes without subfilters. `malformed` is a node of any other kind.
pub data Leaf : Type 0 where
  set_test : SetOperator → List Operator → Operand → List Operand → Leaf
  length_test : Operand → Operator → Operand → Leaf
  comparison : Operator → Operand → Operand → Leaf
  matching : Matching → Operand → Operand → Leaf
  knowledge : Knowledge → Operand → Leaf
  malformed : Leaf

pub data FilterAst : Type 0 where
  conjunction : FilterAst → FilterAst → FilterAst
  disjunction : FilterAst → FilterAst → FilterAst
  negation : FilterAst → FilterAst
  leaf : Leaf → FilterAst

-- `FilterTranslationError` by its category, or an exception of Python itself: a `TypeError`, a
-- failed assertion or an index out of range.
pub data TranslationError : Type 0 where
  unrecognized_property : TranslationError
  not_implemented : TranslationError
  type_mismatch : TranslationError
  internal : TranslationError
  type_error : TranslationError
  assertion_error : TranslationError
  index_error : TranslationError

-- The OPTIMADE `fulltype` strings. A list type's inner type is the rest of its text.
pub data Fulltype : Type 0 where
  boolean integer float string timestamp dict unknown : Fulltype
  list_of : Fulltype → Fulltype
  other : String → Fulltype

-- Converted constants. A float keeps its lexeme, as `_FilterFloat` does.
pub data FilterValue : Type 0 where
  null : FilterValue
  boolean_value : Bool → FilterValue
  integer_value : ℤ → FilterValue
  float_value : String → FilterValue
  text_value : String → FilterValue

-- The calls of the search-field and search-variable protocols, as a term. `field` tests take the
-- name of the backend field.
pub data SearchExpression : Type 0 where
  always : Bool → SearchExpression
  field_compare : String → Operator → FilterValue → SearchExpression
  field_match : String → Matching → FilterValue → SearchExpression
  field_has_any : String → List FilterValue → SearchExpression
  field_has_only : String → List FilterValue → SearchExpression
  both : SearchExpression → SearchExpression → SearchExpression
  either : SearchExpression → SearchExpression → SearchExpression
  inverse : SearchExpression → SearchExpression
