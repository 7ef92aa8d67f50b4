-- ===== src/StorageLayout/Upgrade/Tests.antt =====
-- Three versions of a schema, and an instance of each theorem about them.
use native.Mathlib.Decide.{ℕ_discrete}
use httk_data.Prelude.{ℕ, String, ◌≡◌, refl, ◌↔◌, Bool, true, false, some, List, [], ◌∷◌, ok, err}
use httk_data.StorageLayout.Upgrade.Fingerprint.{
  ColumnSpec, FieldDoc, TableDoc, String-discrete, ColumnSpec-discrete, FieldDoc-discrete,
  Option-discrete, same_table,
}
use httk_data.StorageLayout.Upgrade.Classify.{
  non_nullable, dropped_field, nullable_columns, added_parent_columns, added_columns, check_keys,
  check_fields, classify_table, classify_name, classify_names, classify_schema_upgrade,
}
use httk_data.StorageLayout.Upgrade.Classify.Additive.{
  Additive, IsNullablePlan, classify_schema_upgrade-Additive,
}
use httk_data.StorageLayout.Upgrade.Classify.Compose.{classify_schema_upgrade-composes}

abbrev column : String → Bool → ColumnSpec
column name nullable = record {
  name = name;
  kind = "text";
  nullable = nullable;
  indexed = false;
  unique = false;
}

abbrev field : String → Bool → String × FieldDoc ℕ
field name nullable = (
  name,
  record {
    role = "column";
    derived = false;
    identity_skipped = true;
    columns = column name nullable ∷ [];
    others = 0;
  },
)

abbrev table : List (String × FieldDoc ℕ) → TableDoc ℕ
table fields = record {
  identity_name = some 1;
  dedup = some 2;
  composite_indexes = some 3;
  links = some 4;
  fields = fields;
  unrecognized = [];
}

abbrev first_schema : List (String × TableDoc ℕ)
first_schema = ("run", table (field "id" false ∷ [])) ∷ []

abbrev second_schema : List (String × TableDoc ℕ)
second_schema = ("run", table (field "id" false ∷ field "note" true ∷ [])) ∷ []

abbrev third_schema : List (String × TableDoc ℕ)
third_schema =
    ("run", table (field "id" false ∷ field "note" true ∷ field "tag" true ∷ []))
    ∷ ("user", table [])
    ∷ []

-- A new field whose column may not be empty.
abbrev broken_schema : List (String × TableDoc ℕ)
broken_schema = ("run", table (field "id" false ∷ field "size" false ∷ [])) ∷ []

plan_second :
    classify_schema_upgrade ℕ_discrete (some first_schema) second_schema
    ≡ ok (("run", column "note" true ∷ []) ∷ [])
unfolding classify_schema_upgrade classify_names classify_name classify_table check_keys
    check_fields added_columns added_parent_columns nullable_columns same_table FieldDoc-discrete
    Option-discrete ColumnSpec-discrete String-discrete ℕ_discrete
plan_second = refl

plan_third :
    classify_schema_upgrade ℕ_discrete (some second_schema) third_schema
    ≡ ok (("run", column "tag" true ∷ []) ∷ [])
unfolding classify_schema_upgrade classify_names classify_name classify_table check_keys
    check_fields added_columns added_parent_columns nullable_columns same_table FieldDoc-discrete
    Option-discrete ColumnSpec-discrete String-discrete ℕ_discrete
plan_third = refl

plan_broken :
    classify_schema_upgrade ℕ_discrete (some first_schema) broken_schema
    ≡ err (non_nullable "run" "size" "size")
unfolding classify_schema_upgrade classify_names classify_name classify_table check_keys
    check_fields added_columns added_parent_columns nullable_columns same_table FieldDoc-discrete
    Option-discrete ColumnSpec-discrete String-discrete ℕ_discrete
plan_broken = refl

plan_removed :
    classify_schema_upgrade ℕ_discrete (some third_schema) second_schema
    ≡ err (dropped_field "run" "tag")
unfolding classify_schema_upgrade classify_names classify_name classify_table check_keys
    check_fields added_columns added_parent_columns nullable_columns same_table FieldDoc-discrete
    Option-discrete ColumnSpec-discrete String-discrete ℕ_discrete
plan_removed = refl

classify_schema_upgrade-Additive_example :
    ((plan : List (String × List ColumnSpec)) × (classify_schema_upgrade ℕ_discrete
          (some first_schema)
          second_schema
        ≡ ok plan)
      × IsNullablePlan plan)
    ↔ Additive ℕ_discrete first_schema second_schema
classify_schema_upgrade-Additive_example =
    classify_schema_upgrade-Additive ℕ_discrete first_schema second_schema

classify_schema_upgrade-composes_example :
    (plan : List (String × List ColumnSpec)) × (classify_schema_upgrade ℕ_discrete
        (some first_schema)
        third_schema
      ≡ ok plan)
classify_schema_upgrade-composes_example =
    classify_schema_upgrade-composes ℕ_discrete first_schema second_schema third_schema
      (("run", column "note" true ∷ []) ∷ []) (("run", column "tag" true ∷ []) ∷ [])
      ((refl, (refl, (refl, tt))), (tt, tt)) plan_second plan_third
