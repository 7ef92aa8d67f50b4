-- ===== src/StorageLayout/Upgrade/Classify.antt =====
-- `classify_schema_upgrade` and `schema_fingerprint_diff`.
pub mod Fields
pub mod Additive
pub mod Compose
use httk_data.Prelude.{
  String, str_eq, Bool, true, false, not, ◌&&◌, ◌||◌, Option, none, some, List, [], ◌∷◌, ◌++◌,
  if◌then◌else◌, Result, ok, err, ◌>>=◌,
}
use httk_data.StorageLayout.Upgrade.Fingerprint.{
  ColumnSpec, FieldDoc, FieldDoc-discrete, TableDoc, get, same_value, same_table, all_names,
}

-- Why a change of the schema is no additive upgrade. The messages of the code name the table, and
-- then the key, the field and the column.
pub data Rejection : Type 0 where
  not_parseable : Rejection
  removed : String → Rejection
  unrecognized_key : String → Rejection
  changed_key : String → String → Rejection
  dropped_field : String → String → Rejection
  changed_field : String → String → Rejection
  child_field : String → String → Rejection
  derived_field : String → String → Rejection
  identity_field : String → String → Rejection
  non_nullable : String → String → String → Rejection

abbrev pub is_nil : {A : Type 0} → List A → Bool
is_nil [] = true
is_nil (x ∷ xs) = false

-- The loop over the columns of an added field.
unfoldable pub nullable_columns : String → String → List ColumnSpec → Result Rejection Unit
nullable_columns table field [] = ok tt
nullable_columns table field (column ∷ columns) =
    let later = nullable_columns table field columns in
    if not column.nullable then err (non_nullable table field column.name) else later

module _ {J : Type 0} where
  unfoldable pub added_parent_columns :
      String → String → FieldDoc J → Result Rejection (List ColumnSpec)
  added_parent_columns table field doc =
      if str_eq doc.role "child"
      then err (child_field table field)
      else if doc.derived
      then err (derived_field table field)
      else if not doc.identity_skipped
      then err (identity_field table field)
      else (nullable_columns table field doc.columns >>= λ _. ok doc.columns)

  -- The loop over the added fields.
  unfoldable pub added_columns :
      String
      → List (String × FieldDoc J)
      → List (String × FieldDoc J)
      → Result Rejection (List ColumnSpec)
  added_columns table stored [] = ok []
  added_columns table stored ((field, doc) ∷ current) =
      let later = added_columns table stored current in
      elim (get field stored) [
        | some _ ↦ later
        | none ↦ added_parent_columns table field doc >>= λ columns.
            later >>= λ rest. ok (columns ++ rest)
      ]

module _ {J : Type 0} (same : Discrete J) where
  -- The loop over the keys that must not change.
  unfoldable pub check_keys : String → TableDoc J → TableDoc J → Result Rejection Unit
  check_keys table t u =
      if not (same_value same t.identity_name u.identity_name)
      then err (changed_key table "identity_name")
      else if not (same_value same t.dedup u.dedup)
      then err (changed_key table "dedup")
      else if not (same_value same t.composite_indexes u.composite_indexes)
      then err (changed_key table "composite_indexes")
      else if not (same_value same t.links u.links)
      then err (changed_key table "links")
      else ok tt

  -- The loop over the stored fields.
  unfoldable pub check_fields :
      String → List (String × FieldDoc J) → List (String × FieldDoc J) → Result Rejection Unit
  check_fields table [] current = ok tt
  check_fields table ((field, doc) ∷ stored) current =
      let later = check_fields table stored current in
      elim (get field current) [
        | none ↦ err (dropped_field table field)
        | some d ↦ elim (FieldDoc-discrete same d doc) [
          | yes _ ↦ later
          | no _ ↦ err (changed_field table field)
        ]
      ]

  -- The columns that a changed table gains.
  unfoldable pub classify_table :
      String → TableDoc J → TableDoc J → Result Rejection (List ColumnSpec)
  classify_table table t u =
      if not (is_nil t.unrecognized && is_nil u.unrecognized)
      then err (unrecognized_key table)
      else (check_keys table t u >>= λ _.
          check_fields table t.fields u.fields >>= λ _. added_columns table t.fields u.fields)

  -- One round of the loop over the names; a table without new columns has no entry in the plan.
  unfoldable pub classify_name :
      String → Option (TableDoc J) → Option (TableDoc J) → Result Rejection (List ColumnSpec)
  classify_name name none current = ok []
  classify_name name (some t) none = err (removed name)
  classify_name name (some t) (some u) =
      if same_table same t u then ok [] else classify_table name t u

  unfoldable pub classify_names :
      List (String × TableDoc J)
      → List (String × TableDoc J)
      → List String
      → Result Rejection (List (String × List ColumnSpec))
  classify_names stored current [] = ok []
  classify_names stored current (name ∷ names) =
      let later = classify_names stored current names in
      classify_name name (get name stored) (get name current) >>= λ columns.
      later >>= λ added. ok (if is_nil columns then added else (name, columns) ∷ added)

  -- An absent or corrupt stored fingerprint is `none`.
  unfoldable pub classify_schema_upgrade :
      Option (List (String × TableDoc J))
      → List (String × TableDoc J)
      → Result Rejection (List (String × List ColumnSpec))
  classify_schema_upgrade none current = err not_parseable
  classify_schema_upgrade (some stored) current =
      classify_names stored current (all_names stored current)

  -- Whether a table differs, as in the loop of `schema_fingerprint_diff`.
  abbrev pub differs : Option (TableDoc J) → Option (TableDoc J) → Bool
  differs none none = false
  differs none (some u) = true
  differs (some t) none = true
  differs (some t) (some u) = not (same_table same t u)

  unfoldable pub diff_names :
      List (String × TableDoc J)
      → List (String × TableDoc J)
      → List String
      → List (String × (Option (TableDoc J) × Option (TableDoc J)))
  diff_names stored current [] = []
  diff_names stored current (name ∷ names) =
      let later = diff_names stored current names in
      let expected : Option (TableDoc J) = get name stored in
      let actual : Option (TableDoc J) = get name current in
      if differs expected actual then (name, (expected, actual)) ∷ later else later

  -- A stored value that is no fingerprint differs as a whole.
  unfoldable pub schema_fingerprint_diff :
      Option (List (String × TableDoc J))
      → List (String × TableDoc J)
      → Option (List (String × (Option (TableDoc J) × Option (TableDoc J))))
  schema_fingerprint_diff none current = none
  schema_fingerprint_diff (some stored) current =
      some (diff_names stored current (all_names stored current))
