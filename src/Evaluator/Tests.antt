-- ===== src/Evaluator/Tests.antt =====
-- Predicates over a small record, and an instance of each theorem about them.
use httk_data.Prelude.{
  ℕ, ◌≡◌, refl, Bool, true, false, ◌*◌, String, str_eq, Option, none, some, List, [], ◌∷◌, ◌==◌,
  ltb, leb, ok, err, if◌then◌else◌,
}
use httk_data.Evaluator.Syntax.{
  equal, unequal, greater, Converted, converted, refused, Encoded, encoded, uncoded, failed,
  Objects, children, Relationship, MongoScope, root, child, unfiltered, filtered, MongoValue,
  field_value, constant_value, null_value, MongoPredicate, compare, is_null, exists, conjunction,
  disjunction, negation,
}
use httk_data.Evaluator.Evaluate.{Environment, Resolvers, bind, eval_predicate}
use httk_data.Evaluator.Root.{evaluate}
use httk_data.Evaluator.Supported.{Supported}
use httk_data.Evaluator.Compare.{encoding_error}
use httk_data.Evaluator.Negation.{negation-conjunction, compare-unequal, compare-null_value}
use httk_data.Evaluator.Exists.{exists-filtered}

-- A record has a number, which may be None, and a list of child records.
mutual
  data Datum : Type 0 where
    nothing : Datum
    truth : Bool → Datum
    number : ℕ → Datum
    record_of : Datum → Data → Datum
    collection : Data → Datum

  data Data : Type 0 where
    no_data : Data
    more_data : Datum → Data → Data

abbrev all_of_data : Data → List Datum
all_of_data no_data = []
all_of_data (more_data d ds) = d ∷ all_of_data ds

abbrev attribute_of : Datum → String → Datum
attribute_of (record_of n ds) name =
    if str_eq name "size" then n else if str_eq name "parts" then collection ds else nothing
attribute_of d name = nothing

abbrev elements_of : Datum → List Datum
elements_of (collection ds) = all_of_data ds
elements_of d = []

abbrev is_nothing : Datum → Bool
is_nothing nothing = true
is_nothing d = false

abbrev same_data : Datum → Datum → Bool
same_data (number m) (number n) = m == n
same_data nothing nothing = true
same_data d e = false

abbrev ordered_data : (ℕ → ℕ → Bool) → Datum → Datum → Option Bool
ordered_data f (number m) (number n) = some (f m n)
ordered_data f d e = none

abbrev exact_number : Datum → Converted ℕ
exact_number (number n) = converted n
exact_number d = refused

-- A codec of numbers, which calls a method that truth values lack and refuses all other data.
abbrev exact_size : Unit {0} → Datum → Encoded Datum
exact_size c (number n) = encoded (number n)
exact_size c (truth b) = failed "AttributeError"
exact_size c d = uncoded

abbrev data_objects : Objects
data_objects = record {
  Object = Datum;
  Codec = Unit {0};
  Fraction = ℕ;
  none_object = nothing;
  is_none = is_nothing;
  of_bool = truth;
  of_nat = number;
  attribute = attribute_of;
  elements = elements_of;
  content_id = λ prefix d. nothing;
  same = same_data;
  less_than = ordered_data ltb;
  at_most = ordered_data leb;
  greater_than = ordered_data (λ m n. ltb n m);
  at_least = ordered_data (λ m n. leb n m);
  text_of = λ d. none;
  fraction = exact_number;
  times = λ m n. m * n;
  same_fraction = λ m n. m == n;
  has_exact = λ c. true;
  encode_exact = exact_size;
  hashable = λ d. true;
}

abbrev resolvers : Resolvers data_objects
resolvers = record { store_timestamp_resolver = none; logical_id_resolver = none }

abbrev parts : Relationship
parts = record { field = "parts"; role = children }

abbrev part : MongoScope data_objects
part = child 1 (root 0) parts unfiltered false

abbrev size_of : MongoScope data_objects → MongoValue data_objects
size_of scope = field_value scope "size" none

abbrev large : MongoPredicate data_objects
large = compare (size_of part) greater (constant_value (number 2))

abbrev not_seven : MongoPredicate data_objects
not_seven = compare (size_of part) unequal (constant_value (number 7))

-- The parts have the sizes 1, 7 and None.
abbrev assembly : Datum
assembly = record_of (number 4) (
    more_data (record_of (number 1) no_data)
      (more_data (record_of (number 7) no_data) (more_data (record_of nothing no_data) no_data)))

greater_parts : evaluate data_objects resolvers (exists part large) assembly ≡ ok (some true)
unfolding evaluate
greater_parts = refl

-- The codec of the one field lacks a method on a truth value, and this exception is not caught.
encoding_fails :
    evaluate data_objects resolvers
      (exists part
        (compare (field_value part "size" (some tt)) equal (constant_value (truth true))))
      assembly
    ≡ err (encoding_error "AttributeError")
unfolding evaluate
encoding_fails = refl

-- A refused value is its own key.
refused_key :
    evaluate data_objects resolvers
      (exists part (compare (field_value part "size" (some tt)) unequal (constant_value nothing)))
      assembly
    ≡ ok (some false)
unfolding evaluate
refused_key = refl

abbrev bound_part : Environment data_objects
bound_part = bind data_objects (λ i. none) 1 (record_of nothing no_data)

abbrev bound_root : Environment data_objects
bound_root = bind data_objects (λ i. none) 0 assembly

negation-conjunction_example :
    eval_predicate data_objects resolvers (negation (conjunction large not_seven)) bound_part
    ≡ eval_predicate data_objects resolvers
        (disjunction (negation large) (negation not_seven))
        bound_part
negation-conjunction_example =
    negation-conjunction data_objects resolvers large not_seven bound_part

compare-unequal_example :
    eval_predicate data_objects resolvers not_seven bound_part
    ≡ eval_predicate data_objects resolvers
        (negation (compare (size_of part) equal (constant_value (number 7))))
        bound_part
compare-unequal_example =
    compare-unequal data_objects resolvers (size_of part) (constant_value (number 7)) bound_part

compare-null_value_example :
    (eval_predicate data_objects resolvers (compare (size_of part) equal null_value) bound_part
      ≡ eval_predicate data_objects resolvers (is_null (size_of part)) bound_part)
    × (eval_predicate data_objects resolvers (compare null_value equal (size_of part)) bound_part
        ≡ eval_predicate data_objects resolvers (is_null (size_of part)) bound_part)
compare-null_value_example = compare-null_value data_objects resolvers (size_of part) bound_part

exists-filtered_example :
    eval_predicate data_objects resolvers
      (exists (child 1 (root 0) parts (filtered large) false) not_seven)
      bound_root
    ≡ eval_predicate data_objects resolvers (exists part (conjunction large not_seven)) bound_root
unfolding eval_predicate
exists-filtered_example =
    exists-filtered data_objects resolvers 1 (root 0) parts false large not_seven bound_root
      (assembly ∷ []) refl refl ((some false, refl), ((some true, refl), ((none, refl), tt)))
      ((some true, refl), ((some false, refl), ((none, refl), tt)))
