-- ===== src/Evaluator/Syntax.antt =====
-- `MongoScope`, `MongoValue` and `MongoPredicate`, and the Python objects that they are about.
use httk_data.Prelude.{ℕ, Bool, String, Option, List}

-- The operators of a comparison; any other text is an error of `_compare`.
pub data Comparison : Type 0 where
  equal unequal less less_equal greater greater_equal contains starts ends : Comparison
  unsupported : String → Comparison

-- `Fraction(x)`: a fraction, one of the exceptions that the evaluation catches (`TypeError`,
-- `ValueError` or `ZeroDivisionError`), or the `OverflowError` of an infinite number.
pub data Converted (Fraction : Type 0) : Type 0 where
  converted : Fraction → Converted Fraction
  refused : Converted Fraction
  overflow : Converted Fraction

-- `codec.encode(x)` at the column `_exact`: its value, one of the exceptions that the evaluation
-- catches (`TypeError` or `ValueError`), or another one, by its name.
pub data Encoded (Object : Type 0) : Type 0 where
  encoded : Object → Encoded Object
  uncoded : Encoded Object
  failed : String → Encoded Object

-- What the evaluation uses of Python's objects, of the hydrated records and of the codecs.
pub record Objects : Type 1 where
  pub Object : Type 0
  pub Codec : Type 0
  pub Fraction : Type 0
  pub none_object : Object
  pub is_none : Object → Bool
  pub of_bool : Bool → Object
  pub of_nat : ℕ → Object
  -- `getattr(o, name, None)`, and iteration over a collection
  pub attribute : Object → String → Object
  pub elements : Object → List Object
  -- A text followed by `content_id(o)`, as a text object
  pub content_id : String → Object → Object
  -- `==`, and the orders, each of which raises `TypeError` between objects that lack it
  pub same : Object → Object → Bool
  pub less_than : Object → Object → Option Bool
  pub at_most : Object → Object → Option Bool
  pub greater_than : Object → Object → Option Bool
  pub at_least : Object → Object → Option Bool
  -- The code points of a text
  pub text_of : Object → Option (List ℕ)
  -- The exact value of a number; the product and equality of fractions
  pub fraction : Object → Converted Fraction
  pub times : Fraction → Fraction → Fraction
  pub same_fraction : Fraction → Fraction → Bool
  -- The column `_exact` of a codec, if it has one, and its value, whose encoding may raise
  pub has_exact : Codec → Bool
  pub encode_exact : Codec → Object → Encoded Object
  -- Whether `hash` returns, which a set needs of its elements
  pub hashable : Object → Bool

-- The role of a relationship, a collection of children or one referred record.
pub data Role : Type 0 where
  children : Role
  reference : Role

pub record Relationship : Type 0 where
  pub field : String
  pub role : Role

module _ (o : Objects) where
  open o use {Object, Codec}

  mutual
    -- A root, or a child of a scope with its filter, and whether it holds plain values. The fields
    -- of Python's class that no evaluation reads are left out.
    pub data MongoScope : Type 0 where
      root : ℕ → MongoScope
      child : ℕ → MongoScope → Relationship → Filter → Bool → MongoScope

    pub data Filter : Type 0 where
      unfiltered : Filter
      filtered : MongoPredicate → Filter

    -- A field has its name and the codec of its column; the field of a content id has the text
    -- behind `__content_id__`. No other value has a column.
    pub data MongoValue : Type 0 where
      field_value : MongoScope → String → Option Codec → MongoValue
      content_id_value : MongoScope → String → MongoValue
      store_timestamp : MongoScope → MongoValue
      logical_id : MongoScope → MongoValue
      present : MongoScope → String → MongoValue
      constant_value : Object → MongoValue
      null_value : MongoValue
      count : MongoScope → MongoValue
      distinct_count : MongoScope → MongoValue → MongoValue

    pub data MongoPredicate : Type 0 where
      constant : Option Bool → MongoPredicate
      compare : MongoValue → Comparison → MongoValue → MongoPredicate
      is_null : MongoValue → MongoPredicate
      exists : MongoScope → MongoPredicate → MongoPredicate
      conjunction : MongoPredicate → MongoPredicate → MongoPredicate
      disjunction : MongoPredicate → MongoPredicate → MongoPredicate
      negation : MongoPredicate → MongoPredicate
      when_known : MongoPredicate → MongoPredicate → MongoPredicate
      scaled : MongoValue → MongoValue → MongoValue → MongoValue → MongoPredicate
