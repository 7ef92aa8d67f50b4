-- ===== src/StorageLayout/Upgrade/Classify/Additive.antt =====
-- A plan is returned exactly for an additive change of the schema.
use httk_data.Prelude.{
  String, ◌≡◌, refl, subst, ◌↔◌, ◌⊎◌, inl, inr, true, ◌&&◌, Option, none, some, List, [], ◌∷◌, All,
  arith, bind_ok, Bool-cases, Option-cases, if◌then◌else◌, Result, ok, err,
}
use httk_data.StorageLayout.Upgrade.Fingerprint.{ColumnSpec, TableDoc, get, same_table, all_names}
use httk_data.StorageLayout.Upgrade.Classify.{
  Rejection, unrecognized_key, is_nil, classify_table, classify_name, classify_names,
  classify_schema_upgrade,
}
use httk_data.StorageLayout.Upgrade.Fingerprint.Names.{all_names-everywhere, all_names-get}
use httk_data.StorageLayout.Upgrade.Classify.Fields.{
  IsNullable, Kept, Added, SameKeys, added_columns-Added, Added-plan, check_fields-Kept,
  check_keys-SameKeys,
}

abbrev the_plan : List ColumnSpec → Result Rejection (List ColumnSpec)
the_plan = ok

-- The columns of the plan may all be empty in old rows.
abbrev pub IsNullablePlan : List (String × List ColumnSpec) → Type 0
IsNullablePlan plan = All (λ (entry : String × List ColumnSpec). All IsNullable entry.1) plan

planned_entry :
    (name : String) (columns : List ColumnSpec) (added : List (String × List ColumnSpec))
    → All IsNullable columns
    → IsNullablePlan added
    → IsNullablePlan (if is_nil columns then added else (name, columns) ∷ added)
planned_entry name [] added h k = k
planned_entry name (c ∷ cs) added h k = (h, k)

module _ {J : Type 0} (same : Discrete J) where
  -- A table that may take the place of another, with the rows kept.
  abbrev pub Extends : TableDoc J → TableDoc J → Type 0
  Extends t u =
      (same_table same t u ≡ true)
      ⊎ ((t.unrecognized ≡ [])
          × (u.unrecognized ≡ [])
          × SameKeys same t u
          × Kept t.fields u.fields
          × Added t.fields u.fields)

  -- A new table is no change of the stored ones, and none may go.
  abbrev pub AdditiveTable : Option (TableDoc J) → Option (TableDoc J) → Type 0
  AdditiveTable none u = Unit
  AdditiveTable (some t) none = ⊥
  AdditiveTable (some t) (some u) = Extends t u

  is_nil-eq : {A : Type 0} (xs : List A) → (is_nil xs ≡ true) ↔ (xs ≡ [])
  is_nil-eq [] = (λ _. refl, λ _. refl)
  is_nil-eq (x ∷ xs) = (λ h. cc, λ h. cc)

  classify_table-Extends :
      (table : String) (t u : TableDoc J) (columns : List ColumnSpec)
      → classify_table same table t u ≡ ok columns
      → Extends t u × All IsNullable columns
  unfolding classify_table
  classify_table-Extends table t u columns h =
      elim (Bool-cases (is_nil t.unrecognized && is_nil u.unrecognized)) [
        | inr n ↦ let no : err (unrecognized_key table) ≡ ok columns = rw n at h in cc
        | inl n ↦
            let (_, keys, h') = bind_ok _ _ columns (rw n at h) in
            let (_, fields, h'') = bind_ok _ _ columns h' in
            let (added, nullable) = added_columns-Added table t.fields u.fields columns h'' in
            (
              inr (
                ground (arith, is_nil-eq t.unrecognized),
                ground (arith, is_nil-eq u.unrecognized),
                (check_keys-SameKeys same table t u).0 keys,
                (check_fields-Kept same table t.fields u.fields).0 fields,
                added,
              ),
              nullable,
            )
      ]

  classify_name-AdditiveTable :
      (name : String) (t u : Option (TableDoc J)) (columns : List ColumnSpec)
      → classify_name same name t u ≡ ok columns
      → AdditiveTable t u × All IsNullable columns
  unfolding classify_name
  classify_name-AdditiveTable name none u columns h =
      let e : [] ≡ columns = cc in (tt, subst (All IsNullable) e tt)
  classify_name-AdditiveTable name (some t) none columns h = cc
  classify_name-AdditiveTable name (some t) (some u) columns h =
      elim (Bool-cases (same_table same t u)) [
        | inl s ↦
            let e : the_plan [] ≡ ok columns = rw s at h in
            let e' : [] ≡ columns = cc in (inl s, subst (All IsNullable) e' tt)
        | inr s ↦ classify_table-Extends name t u columns (rw s at h)
      ]

  AdditiveTable-plan :
      (name : String) (t u : Option (TableDoc J))
      → AdditiveTable t u
      → (columns : List ColumnSpec) × (classify_name same name t u ≡ ok columns)
  unfolding classify_name classify_table
  AdditiveTable-plan name none u h = ([], refl)
  AdditiveTable-plan name (some t) none h = absurd h
  AdditiveTable-plan name (some t) (some u) (inl s) = ([], rw s refl)
  AdditiveTable-plan name (some t) (some u) (inr (m, n, keys, kept, added)) =
      let (columns, p) = Added-plan name t.fields u.fields added in
      elim (Bool-cases (same_table same t u)) [
        | inl s ↦ ([], rw s refl)
        | inr s ↦ (
          columns,
          rw
              (
                s,
                (check_keys-SameKeys same name t u).1 keys,
                (check_fields-Kept same name t.fields u.fields).1 kept,
                m,
                n,
              )
              p,
        )
      ]

  -- The change of the whole schema is additive.
  abbrev pub Additive : List (String × TableDoc J) → List (String × TableDoc J) → Type 0
  Additive stored current = (name : String) → AdditiveTable (get name stored) (get name current)

  abbrev AdditiveAt : List (String × TableDoc J) → List (String × TableDoc J) → String → Type 0
  AdditiveAt stored current name = AdditiveTable (get name stored) (get name current)

  classify_names-AdditiveAt :
      (stored current : List (String × TableDoc J)) (names : List String)
      (plan : List (String × List ColumnSpec))
      → classify_names same stored current names ≡ ok plan
      → All (AdditiveAt stored current) names × IsNullablePlan plan
  unfolding classify_names
  classify_names-AdditiveAt stored current [] plan h =
      let e : [] ≡ plan = cc in (tt, subst IsNullablePlan e tt)
  classify_names-AdditiveAt stored current (name ∷ names) plan h =
      let (columns, p, h') = bind_ok _ _ plan h in
      let (added, q, e) = bind_ok _ _ plan h' in
      let (here, nullable) = classify_name-AdditiveTable name _ _ columns p in
      let (others, rest) = classify_names-AdditiveAt stored current names added q in
      let e' : (if is_nil columns then added else (name, columns) ∷ added) ≡ plan = cc in
      ((here, others), subst IsNullablePlan e' (planned_entry name columns added nullable rest))

  AdditiveAt-plan :
      (stored current : List (String × TableDoc J)) (names : List String)
      → All (AdditiveAt stored current) names
      → (plan : List (String × List ColumnSpec)) × (classify_names same stored current names
          ≡ ok plan)
  unfolding classify_names
  AdditiveAt-plan stored current [] h = ([], refl)
  AdditiveAt-plan stored current (name ∷ names) (here, others) =
      let (columns, p) = AdditiveTable-plan name _ _ here in
      let (added, q) = AdditiveAt-plan stored current names others in
      (if is_nil columns then added else (name, columns) ∷ added, rw (p, q) refl)

  AdditiveAt-everywhere :
      (stored current : List (String × TableDoc J)) (name : String)
      → All (AdditiveAt stored current) (all_names stored current)
      → AdditiveAt stored current name
  AdditiveAt-everywhere stored current name h = elim (Option-cases (get name stored)) [
    | inl fresh ↦ rw fresh tt
    | inr (t, known) ↦ all_names-get (AdditiveAt stored current) stored current name t h known
  ]

  pub planned-Additive :
      (stored current : List (String × TableDoc J)) (plan : List (String × List ColumnSpec))
      → classify_schema_upgrade same (some stored) current ≡ ok plan
      → Additive stored current
  unfolding classify_schema_upgrade
  planned-Additive stored current plan h name =
      AdditiveAt-everywhere stored current name
        (classify_names-AdditiveAt stored current (all_names stored current) plan h).0

  planned-IsNullablePlan :
      (stored current : List (String × TableDoc J)) (plan : List (String × List ColumnSpec))
      → classify_schema_upgrade same (some stored) current ≡ ok plan
      → IsNullablePlan plan
  unfolding classify_schema_upgrade
  planned-IsNullablePlan stored current plan h =
      (classify_names-AdditiveAt stored current (all_names stored current) plan h).1

  pub Additive-plan :
      (stored current : List (String × TableDoc J))
      → Additive stored current
      → (plan : List (String × List ColumnSpec)) × (classify_schema_upgrade same
            (some stored)
            current
          ≡ ok plan)
  unfolding classify_schema_upgrade
  Additive-plan stored current h =
      AdditiveAt-plan stored current (all_names stored current)
        (all_names-everywhere (AdditiveAt stored current) stored current h)

  -- A stored fingerprint gets a plan, all of whose columns are nullable, exactly if every table of
  -- the stored one is still there and the same, or extended by fields that old rows can do without.
  pub classify_schema_upgrade-Additive :
      (stored current : List (String × TableDoc J))
      → ((plan : List (String × List ColumnSpec)) × (classify_schema_upgrade same
              (some stored)
              current
            ≡ ok plan)
          × IsNullablePlan plan)
        ↔ Additive stored current
  classify_schema_upgrade-Additive stored current = (
    λ (plan, h, _). planned-Additive stored current plan h,
    λ h.
        let (plan, p) = Additive-plan stored current h in
        (plan, p, planned-IsNullablePlan stored current plan p),
  )
