-- ===== src/Filters/Tests.antt =====
-- Translations of concrete filters, and an instance of each theorem about them.
use httk_data.Prelude.{
  ◌≡◌, refl, Bool, false, String, none, some, List, [], ◌∷◌, map, any, all, pos, ok, err, str_eq,
}
use httk_data.Filters.Syntax.{
  lt, eq, le, ge, contains, has_all, identifier, string_constant, number_constant, Leaf, set_test,
  comparison, matching, conjunction, negation, leaf, type_mismatch, type_error, integer, string,
  list_of, FilterValue, integer_value, text_value, SearchExpression, always, field_compare,
  field_has_any, both, inverse,
}
use httk_data.Filters.Decimal.{integral_of}
use httk_data.Filters.Values.{Checked}
use httk_data.Filters.Handlers.{
  number_handler, set_handler, value_in, constant_set_handler, invert_op,
}
use httk_data.Filters.Settings.{Settings, rel_key}
use httk_data.Filters.Tables.{relationship_id_handler, filter_searcher, TimestampHandler}
use httk_data.Filters.Translate.{translate_node}
use httk_data.Filters.Meaning.{Row, eval}
use httk_data.Filters.Sets.{meaning, set_handler-eq-constant_set_handler}
use httk_data.Filters.Unknown.{always_is, compared_right, translate_node-unknown}
use httk_data.Filters.Swap.{holds, invert_op-holds, translate_node-swapped}
use httk_data.Filters.SemiJoin.{matching_joins, translate_node-semi_join}
use httk_data.Filters.Mismatch.{translate_node-scalar_has}

abbrev no_timestamps : TimestampHandler
no_timestamps key op value = err type_mismatch

abbrev resolve_refs : String → Leaf → Checked (List String)
resolve_refs rel sub = ok ("ref-1" ∷ "ref-2" ∷ [])

abbrev structures : Settings
structures = record {
  property_fulltypes =
      ("nelements", integer) ∷ ("elements", list_of string) ∷ ("name", string) ∷ [];
  handlers = (rel_key "references", relationship_id_handler "reference_ids") ∷ [];
  recognized_prefixes = "_httk_" ∷ [];
  relationship_targets = "references" ∷ [];
  resolver = some resolve_refs;
}

search :
    filter_searcher no_timestamps
      (conjunction (leaf (comparison le (number_constant "3.0e0") (identifier "nelements" []))) (
        negation (
          leaf (
            set_test has_all
              (eq ∷ eq ∷ [])
              (identifier "elements" [])
              (string_constant "Ga" ∷ string_constant "Ti" ∷ [])))))
      "structures"
      structures.property_fulltypes
      none
      none
      []
      []
      none
    ≡ ok (
      "structures",
      both (field_compare "nelements" ge (integer_value (pos 3))) (
          inverse (
            both
              (field_has_any "elements" (text_value "Ga" ∷ []))
              (field_has_any "elements" (text_value "Ti" ∷ [])))),
    )
unfolding filter_searcher set_handler number_handler
search = refl

fractions : integral_of "2.50e1" ≡ some (pos 25)
unfolding integral_of
fractions = refl

no_integer : integral_of "2.5" ≡ none
unfolding integral_of
no_integer = refl

abbrev equal_texts : FilterValue → FilterValue → Bool
equal_texts (text_value a) (text_value b) = str_eq a b
equal_texts _ _ = false

abbrev oxides : List FilterValue
oxides = text_value "O" ∷ text_value "Ti" ∷ []

abbrev row : Row
row = record {
  compares = λ f op v. none;
  matches = λ f kind v. none;
  has = λ f v. value_in equal_texts oxides v;
  has_only = λ f vs. all (value_in equal_texts vs) oxides;
}

set_handler-eq-constant_set_handler_example :
    meaning row (set_handler "elements" (eq ∷ []) (text_value "O" ∷ []) has_all)
    ≡ meaning row (constant_set_handler equal_texts oxides (eq ∷ []) (text_value "O" ∷ []) has_all)
set_handler-eq-constant_set_handler_example =
    set_handler-eq-constant_set_handler equal_texts row "elements" oxides (eq ∷ []) (text_value "O")
      [] has_all (λ x. refl) (λ xs. refl)

translate_node-unknown_example :
    translate_node structures (comparison lt (number_constant "5") (identifier "_other_x" []))
    ≡ ok (always false)
translate_node-unknown_example =
    translate_node-unknown structures "_other_x" [] refl refl (always_is false)
      (comparison lt (number_constant "5") (identifier "_other_x" []))
      (compared_right lt (number_constant "5") refl)

translate_node-swapped_example :
    translate_node structures (comparison lt (number_constant "5") (identifier "nelements" []))
    ≡ translate_node structures
        (comparison (invert_op lt) (identifier "nelements" []) (number_constant "5"))
translate_node-swapped_example =
    translate_node-swapped structures lt (number_constant "5") "nelements" [] refl

invert_op-holds_example : holds (invert_op lt) 7 5 ≡ holds lt 5 7
invert_op-holds_example = invert_op-holds lt 5 7

abbrev doi_test : Leaf
doi_test = matching contains (identifier "references" ("doi" ∷ [])) (string_constant "10.1")

translate_node-semi_join_example :
    (e : SearchExpression) × (translate_node structures doi_test ≡ ok e)
    × (eval row e ≡ some (any (row.has "reference_ids") (map text_value ("ref-1" ∷ "ref-2" ∷ []))))
translate_node-semi_join_example =
    translate_node-semi_join structures "references" "doi" "reference_ids" resolve_refs refl refl
      refl (matching contains (identifier "doi" []) (string_constant "10.1")) doi_test
      ("ref-1" ∷ "ref-2" ∷ []) row (matching_joins contains (string_constant "10.1")) refl

translate_node-scalar_has_example :
    translate_node structures
      (set_test has_all (eq ∷ []) (identifier "name" []) (string_constant "quartz" ∷ []))
    ≡ err type_error
translate_node-scalar_has_example =
    translate_node-scalar_has structures has_all (eq ∷ []) "name" [] string
      (string_constant "quartz") [] refl refl refl
