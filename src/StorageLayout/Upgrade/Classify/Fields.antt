-- ===== src/StorageLayout/Upgrade/Classify/Fields.antt =====
-- What the loops over the fields and keys of a table accept.
use httk_data.Prelude.{
  String, str_eq, ◌≡◌, refl, sym, ◌∙◌, subst, ◌↔◌, inl, inr, true, false, Option, none, some, List,
  [], ◌∷◌, ◌++◌, All, arith, bind_ok, Option-cases, ok, ◌>>=◌,
}
use httk_data.StorageLayout.Upgrade.Fingerprint.{ColumnSpec, FieldDoc, TableDoc, get, same_value}
use httk_data.StorageLayout.Upgrade.Classify.{
  nullable_columns, added_parent_columns, added_columns, check_keys, check_fields,
}

-- The columns of a plan may be empty in old rows.
abbrev pub IsNullable : ColumnSpec → Type 0
IsNullable column = column.nullable ≡ true

-- Every item of a dictionary is in another.
abbrev pub Kept : {V : Type 0} → List (String × V) → List (String × V) → Type 0
Kept {V} items other = All (λ (item : String × V). get item.0 other ≡ some item.1) items

nullable_columns_iff :
    (table field : String) (columns : List ColumnSpec)
    → (nullable_columns table field columns ≡ ok tt) ↔ All IsNullable columns
unfolding nullable_columns
nullable_columns_iff table field [] = (λ _. tt, λ _. refl)
nullable_columns_iff table field (column ∷ columns) =
    ground (arith, nullable_columns_iff table field columns)

All-append : {A : Type 0} (P : A → Type 0) (xs ys : List A) → All P xs → All P ys → All P (xs ++ ys)
All-append P [] ys h k = k
All-append P (x ∷ xs) ys (h, hs) k = (h, All-append P xs ys hs k)

module _ {J : Type 0} where
  -- A field that old rows can do without.
  abbrev pub Addable : FieldDoc J → Type 0
  Addable doc =
      (str_eq doc.role "child" ≡ false)
      × (doc.derived ≡ false)
      × (doc.identity_skipped ≡ true)
      × All IsNullable doc.columns

  abbrev pub Added : List (String × FieldDoc J) → List (String × FieldDoc J) → Type 0
  Added stored current =
      All (λ (item : String × FieldDoc J). get item.0 stored ≡ none → Addable item.1) current

  pub added_parent_columns-Addable :
      (table field : String) (doc : FieldDoc J) (columns : List ColumnSpec)
      → added_parent_columns table field doc ≡ ok columns
      → Addable doc × (columns ≡ doc.columns)
  unfolding added_parent_columns
  added_parent_columns-Addable table field doc columns h =
      ground (arith, nullable_columns_iff table field doc.columns)

  Addable-plan :
      (table field : String) (doc : FieldDoc J)
      → Addable doc
      → added_parent_columns table field doc ≡ ok doc.columns
  unfolding added_parent_columns
  Addable-plan table field doc (r, d, i, n) =
      rw (r, d, i, (nullable_columns_iff table field doc.columns).1 n) refl

  added_columns_fresh :
      (table field : String) (doc : FieldDoc J) (stored current : List (String × FieldDoc J))
      → get field stored ≡ none
      → added_columns table stored ((field, doc) ∷ current) ≡ (
          added_parent_columns table field doc >>= λ columns.
          added_columns table stored current >>= λ rest. ok (columns ++ rest))
  unfolding added_columns
  added_columns_fresh table field doc stored current h = rw (h, added_columns) refl

  added_columns_known :
      (table field : String) (doc d : FieldDoc J) (stored current : List (String × FieldDoc J))
      → get field stored ≡ some d
      → added_columns table stored ((field, doc) ∷ current) ≡ added_columns table stored current
  unfolding added_columns
  added_columns_known table field doc d stored current h = rw (h, added_columns) refl

  pub added_columns-Added :
      (table : String) (stored current : List (String × FieldDoc J)) (columns : List ColumnSpec)
      → added_columns table stored current ≡ ok columns
      → Added stored current × All IsNullable columns
  unfolding added_columns
  added_columns-Added table stored [] columns h =
      (tt, let e : [] ≡ columns = cc in subst (All IsNullable) e tt)
  added_columns-Added table stored ((field, doc) ∷ current) columns h =
      elim (Option-cases (get field stored)) [
        | inl fresh ↦
            let (mine, p, h') =
              bind_ok _ _ columns
                (sym (added_columns_fresh table field doc stored current fresh) ∙ h) in
            let (rest, q, e) = bind_ok _ _ columns h' in
            let (able, same) = added_parent_columns-Addable table field doc mine p in
            let (others, nullable) = added_columns-Added table stored current rest q in
            (
              (λ _. able, others),
              let e' : mine ++ rest ≡ columns = cc in
                  subst (All IsNullable) e' (
                    All-append IsNullable mine rest (subst (All IsNullable) (sym same) able.3)
                      nullable),
            )
        | inr (d, known) ↦
            let (others, nullable) =
              added_columns-Added table stored current columns
                (sym (added_columns_known table field doc d stored current known) ∙ h) in
            ((λ e. cc, others), nullable)
      ]

  pub Added-plan :
      (table : String) (stored current : List (String × FieldDoc J))
      → Added stored current
      → (columns : List ColumnSpec) × (added_columns table stored current ≡ ok columns)
  unfolding added_columns
  Added-plan table stored [] h = ([], refl)
  Added-plan table stored ((field, doc) ∷ current) (able, h) =
      let (rest, p) = Added-plan table stored current h in
      elim (Option-cases (get field stored)) [
        | inl fresh ↦ (
          doc.columns ++ rest,
          added_columns_fresh table field doc stored current fresh
              ∙ rw (Addable-plan table field doc (able fresh), p) refl,
        )
        | inr (d, known) ↦ (rest, added_columns_known table field doc d stored current known ∙ p)
      ]

module _ {J : Type 0} (same : Discrete J) where
  pub check_fields-Kept :
      (table : String) (stored current : List (String × FieldDoc J))
      → (check_fields same table stored current ≡ ok tt) ↔ Kept stored current
  unfolding check_fields
  check_fields-Kept table [] current = (λ _. tt, λ _. refl)
  check_fields-Kept table ((field, doc) ∷ stored) current =
      ground (arith, check_fields-Kept table stored current)

  pub same_value_iff : (v w : Option J) → (same_value same v w ≡ true) ↔ (v ≡ w)
  same_value_iff v w = ground arith

  -- The keys that must not change are the same.
  abbrev pub SameKeys : TableDoc J → TableDoc J → Type 0
  SameKeys t u =
      (t.identity_name ≡ u.identity_name)
      × (t.dedup ≡ u.dedup)
      × (t.composite_indexes ≡ u.composite_indexes)
      × (t.links ≡ u.links)

  pub check_keys-SameKeys :
      (table : String) (t u : TableDoc J) → (check_keys same table t u ≡ ok tt) ↔ SameKeys t u
  unfolding check_keys
  check_keys-SameKeys table t u = ground (
    arith,
    same_value_iff t.identity_name u.identity_name,
    same_value_iff t.dedup u.dedup,
    same_value_iff t.composite_indexes u.composite_indexes,
    same_value_iff t.links u.links,
  )
