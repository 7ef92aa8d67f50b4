-- ===== src/StorageLayout/Upgrade/Classify/Compose.antt =====
-- Additive upgrades compose.
use httk_data.Prelude.{
  String, str_eq, eq_iff, ◌≡◌, refl, sym, ◌∙◌, subst, ◌↔◌, inl, inr, true, Option, none, some, List,
  [], ◌∷◌, All, arith, Bool-cases, Option-cases, ok,
}
use httk_data.StorageLayout.Upgrade.Fingerprint.{
  ColumnSpec, FieldDoc, FieldDoc-discrete, TableDoc, get, covered, same_table,
}
use httk_data.StorageLayout.Upgrade.Classify.{classify_schema_upgrade}
use httk_data.StorageLayout.Upgrade.Classify.Fields.{Kept, Added, Addable, SameKeys, same_value_iff}
use httk_data.StorageLayout.Upgrade.Classify.Additive.{
  Extends, AdditiveTable, planned-Additive, Additive-plan,
}

module _ {V : Type 0} where
  Kept-get :
      (items other : List (String × V)) (key : String) (v : V)
      → Kept items other
      → get key items ≡ some v
      → get key other ≡ some v
  Kept-get [] other key v h e = cc
  Kept-get ((k, w) ∷ items) other key v (h, hs) e = elim (Bool-cases (str_eq k key)) [
    | inl s ↦
        let same : some w ≡ some v = rw s at e in
        subst (λ x. get x other ≡ some v) ((eq_iff k key).0 s) (h ∙ same)
    | inr s ↦ Kept-get items other key v hs (rw s at e)
  ]

  Kept-trans : (xs ys zs : List (String × V)) → Kept xs ys → Kept ys zs → Kept xs zs
  Kept-trans [] ys zs h k = tt
  Kept-trans ((key, v) ∷ xs) ys zs (h, hs) k = (Kept-get ys zs key v k h, Kept-trans xs ys zs hs k)

  Kept-nil : (xs ys : List (String × V)) → Kept xs ys → ys ≡ [] → xs ≡ []
  Kept-nil [] ys h e = refl
  Kept-nil ((key, v) ∷ xs) ys (h, hs) e = let no : none ≡ some v = rw e at h in cc

  covered-Kept :
      (same : Discrete V) (xs ys : List (String × V)) → (covered same xs ys ≡ true) ↔ Kept xs ys
  covered-Kept same [] ys = (λ _. tt, λ _. refl)
  covered-Kept same ((key, v) ∷ xs) ys = ground (arith, covered-Kept same xs ys)

module _ {J : Type 0} (same : Discrete J) where
  -- What the equality of two table documents says.
  abbrev Alike : TableDoc J → TableDoc J → Type 0
  Alike t u =
      SameKeys same t u
      × (Kept t.fields u.fields × Kept u.fields t.fields)
      × (Kept t.unrecognized u.unrecognized × Kept u.unrecognized t.unrecognized)

  same_table-Alike : (t u : TableDoc J) → (same_table same t u ≡ true) ↔ Alike t u
  unfolding same_table
  same_table-Alike t u = ground (
    arith,
    same_value_iff same t.identity_name u.identity_name,
    same_value_iff same t.dedup u.dedup,
    same_value_iff same t.composite_indexes u.composite_indexes,
    same_value_iff same t.links u.links,
    covered-Kept (FieldDoc-discrete same) t.fields u.fields,
    covered-Kept (FieldDoc-discrete same) u.fields t.fields,
    covered-Kept same t.unrecognized u.unrecognized,
    covered-Kept same u.unrecognized t.unrecognized,
  )

  SameKeys-trans : (t u w : TableDoc J) → SameKeys same t u → SameKeys same u w → SameKeys same t w
  SameKeys-trans t u w (a, b, c, d) (e, f, g, h) = (a ∙ e, b ∙ f, c ∙ g, d ∙ h)

  -- A field of the second version that the first did not have was one to do without.
  Added-get :
      (first second : List (String × FieldDoc J)) (key : String) (doc : FieldDoc J)
      → Added first second
      → get key second ≡ some doc
      → get key first ≡ none
      → Addable doc
  Added-get first [] key doc h e n = cc
  Added-get first ((k, d) ∷ second) key doc (h, hs) e n = elim (Bool-cases (str_eq k key)) [
    | inl s ↦
        let same_doc : some d ≡ some doc = rw s at e in
        let d_eq : d ≡ doc = cc in
        subst Addable d_eq (h (subst (λ x. get x first ≡ none) (sym ((eq_iff k key).0 s)) n))
    | inr s ↦ Added-get first second key doc hs (rw s at e) n
  ]

  Added-Kept :
      (first second third : List (String × FieldDoc J))
      → Added first second
      → Kept third second
      → Added first third
  Added-Kept first second [] h k = tt
  Added-Kept first second ((key, doc) ∷ third) h (k, ks) =
      (λ n. Added-get first second key doc h k n, Added-Kept first second third h ks)

  Kept-Added :
      (first second third : List (String × FieldDoc J))
      → Kept second first
      → Added second third
      → Added first third
  Kept-Added first second [] k h = tt
  Kept-Added first second ((key, doc) ∷ third) k (h, hs) = (
    λ n. elim (Option-cases (get key second)) [
      | inl fresh ↦ h fresh
      | inr (d, known) ↦ let no : none ≡ some d = sym n ∙ Kept-get second first key d k known in cc
    ],
    Kept-Added first second third k hs,
  )

  Added-trans :
      (first second third items : List (String × FieldDoc J))
      → Added first second
      → Kept second third
      → Kept items third
      → Added second items
      → Added first items
  Added-trans first second third [] h k p l = tt
  Added-trans first second third ((key, doc) ∷ items) h k (p, ps) (l, ls) = (
    λ n. elim (Option-cases (get key second)) [
      | inl fresh ↦ l fresh
      | inr (d, known) ↦
          let e : some d ≡ some doc = sym (Kept-get second third key d k known) ∙ p in
          let d_eq : d ≡ doc = cc in subst Addable d_eq (Added-get first second key d h known n)
    ],
    Added-trans first second third items h k ps ls,
  )

  -- Each field of a table has one document.
  abbrev pub Proper : TableDoc J → Type 0
  Proper t = Kept t.fields t.fields

  Extends-trans :
      (t u w : TableDoc J) → Proper w → Extends same t u → Extends same u w → Extends same t w
  Extends-trans t u w proper (inl s) (inl r) =
      let (keys, (there, back), (un, nu)) = (same_table-Alike t u).0 s in
      let (keys', (there', back'), (un', nu')) = (same_table-Alike u w).0 r in
      inl (
        (same_table-Alike t w).1 (
          SameKeys-trans t u w keys keys',
          (
            Kept-trans t.fields u.fields w.fields there there',
            Kept-trans w.fields u.fields t.fields back' back,
          ),
          (
            Kept-trans t.unrecognized u.unrecognized w.unrecognized un un',
            Kept-trans w.unrecognized u.unrecognized t.unrecognized nu' nu,
          ),
        ))
  Extends-trans t u w proper (inl s) (inr (m, n, keys', kept, added)) =
      let (keys, (there, back), (un, nu)) = (same_table-Alike t u).0 s in
      inr (
        Kept-nil t.unrecognized u.unrecognized un m,
        n,
        SameKeys-trans t u w keys keys',
        Kept-trans t.fields u.fields w.fields there kept,
        Kept-Added t.fields u.fields w.fields back added,
      )
  Extends-trans t u w proper (inr (m, n, keys, kept, added)) (inl r) =
      let (keys', (there, back), (un, nu)) = (same_table-Alike u w).0 r in
      inr (
        m,
        Kept-nil w.unrecognized u.unrecognized nu n,
        SameKeys-trans t u w keys keys',
        Kept-trans t.fields u.fields w.fields kept there,
        Added-Kept t.fields u.fields w.fields added back,
      )
  Extends-trans t u w proper (inr (m, n, keys, kept, added)) (inr (m', n', keys', kept', added')) =
      inr (
        m,
        n',
        SameKeys-trans t u w keys keys',
        Kept-trans t.fields u.fields w.fields kept kept',
        Added-trans t.fields u.fields w.fields w.fields added kept' proper added',
      )

  AdditiveTable-trans :
      (t u w : Option (TableDoc J))
      → ((d : TableDoc J) → w ≡ some d → Proper d)
      → AdditiveTable same t u
      → AdditiveTable same u w
      → AdditiveTable same t w
  AdditiveTable-trans none u w proper h k = tt
  AdditiveTable-trans (some t) none w proper h k = absurd h
  AdditiveTable-trans (some t) (some u) none proper h k = k
  AdditiveTable-trans (some t) (some u) (some w) proper h k =
      Extends-trans t u w (proper w refl) h k

  All-value :
      (items : List (String × TableDoc J)) (name : String)
      → All (λ (item : String × TableDoc J). Proper item.1) items
      → (t : TableDoc J) → get name items ≡ some t
      → Proper t
  All-value [] name h t e = cc
  All-value ((k, u) ∷ items) name (h, hs) t e = elim (Bool-cases (str_eq k name)) [
    | inl s ↦
        let same_table_doc : some u ≡ some t = rw s at e in
        let t_eq : u ≡ t = cc in subst Proper t_eq h
    | inr s ↦ All-value items name hs t (rw s at e)
  ]

  -- If a store's schema can be upgraded to a second and that one to a third, in whose tables each
  -- field has one document, the first can be upgraded to the third at once.
  pub classify_schema_upgrade-composes :
      (first second third : List (String × TableDoc J)) (p q : List (String × List ColumnSpec))
      → All (λ (item : String × TableDoc J). Proper item.1) third
      → classify_schema_upgrade same (some first) second ≡ ok p
      → classify_schema_upgrade same (some second) third ≡ ok q
      → (plan : List (String × List ColumnSpec)) × (classify_schema_upgrade same (some first) third
          ≡ ok plan)
  classify_schema_upgrade-composes first second third p q proper h k =
      let forth = planned-Additive same first second p h in
      let onward = planned-Additive same second third q k in
      Additive-plan same first third (λ name.
        AdditiveTable-trans (get name first) (get name second) (get name third)
          (All-value third name proper) (forth name) (onward name))
