-- ===== src/StorageLayout/Families/Registered/Explicit.antt =====
-- What `normalize_entry_records` declares is what an application may declare itself.
use httk_data.Prelude.{
  ℕ, ◌≡◌, refl, sym, ap, ap₂, ◌∙◌, subst, true, false, ◌||◌, Option, none, some, List, [], ◌∷◌, map,
  any, All, Bool-cases, inl, inr, Result, ok, err, ◌>>=◌, bind_ok,
}
use httk_data.Filters.Texts.{same_codes, same_codes_refl}
use httk_data.StorageLayout.Families.{
  Text, LayoutError, EntryRecordDeclaration, EntryFamilyDeclaration, Registry, same_option,
  record_conflicts, record_differs, other_family, repeated_record_name, reject_registry_conflicts,
  check_records, family_layout, family_layouts, storage_layout, unique, normalize_entry_families,
}
use httk_data.StorageLayout.Families.Registered.Lookup.{returned, IsFor, registered-For}
use httk_data.StorageLayout.Families.Registered.{
  family_reference, record_reference, registered_family_name, registered_record_name,
  record_declaration, record_declarations, family_declaration, check_classes, family_declarations,
  normalize_entry_records, reference_of_record, reference_of_family,
}

same_option_refl : (a : Option Text) → same_option a a ≡ true
same_option_refl none = refl
same_option_refl (some a) = same_codes_refl a

given_is : {A : Type 0} {a b : A} → Path (Option A) (some a) (some b) → a ≡ b
given_is h = cc

module _ (registry : Registry) where
  -- A record whose name is registered for its class and family conflicts with nothing.
  record_declaration-agrees :
      (family_name : Text) (c : ℕ) (name : Text) (r : EntryRecordDeclaration)
      (o : Option (registry.Reference × Option Text × Option Text))
      → registry.entry_record_info name ≡ o
      → IsFor registry c (record_reference registry) name
      → record_declaration registry family_name c name o ≡ ok r
      → record_conflicts registry family_name r ≡ false
  record_declaration-agrees family_name c name r none i a h = cc
  record_declaration-agrees family_name c name r (some (reference, none, definition_id)) i a h = cc
  record_declaration-agrees family_name c name r (some (reference, some registered, definition_id))
        i (given, j, m) h =
      elim (Bool-cases (same_codes registered family_name)) [
        | inr e ↦
            let no : Path (Result LayoutError EntryRecordDeclaration) (err other_family) (ok r) =
              rw e at h in
            cc
        | inl e ↦
            let q : Path (Result LayoutError EntryRecordDeclaration)
                (ok (record { name = name; record_class = c; definition_id = definition_id }))
                (ok r) =
              rw e at h in
            let k : Path (Option registry.Reference) (some reference) (some given) =
              sym (ap (reference_of_record registry) i) ∙ j in
            let reference_matches : registry.reference_matches_class reference c ≡ true =
              rw (given_is k) m in
            subst (λ r. record_conflicts registry family_name r ≡ false) (returned q)
              (ap
                  (record_differs registry family_name
                    (record { name = name; record_class = c; definition_id = definition_id }))
                  i
                ∙ rw (reference_matches, e, same_option_refl definition_id) refl)
      ]

  -- A family whose name is registered for its class conflicts with nothing.
  family_declaration-agrees :
      (family_name : Text) (family : ℕ) (records : List EntryRecordDeclaration)
      (d : EntryFamilyDeclaration) (o : Option (registry.Reference × Option Text))
      → registry.entry_family_info family_name ≡ o
      → IsFor registry family (family_reference registry) family_name
      → any (record_conflicts registry family_name) records ≡ false
      → family_declaration registry family_name family records o ≡ ok d
      → reject_registry_conflicts registry d ≡ ok true
  family_declaration-agrees family_name family records d none i a n h = cc
  family_declaration-agrees family_name family records d (some (reference, definition_id)) i
        (given, j, m) n h =
      elim (Bool-cases (unique same_codes (map (λ r. r.name) records))) [
        | inr e ↦
            let no : Path (Result LayoutError EntryFamilyDeclaration) (err repeated_record_name)
                (ok d) =
              rw e at h in
            cc
        | inl e ↦
            let q : Path (Result LayoutError EntryFamilyDeclaration)
                (ok (record {
                  name = family_name;
                  family = family;
                  records = records;
                  definition_id = definition_id;
                }))
                (ok d) =
              rw e at h in
            let k : Path (Option registry.Reference) (some reference) (some given) =
              sym (ap (reference_of_family registry) i) ∙ j in
            let reference_matches : registry.reference_matches_class reference family ≡ true =
              rw (given_is k) m in
            subst (λ d. reject_registry_conflicts registry d ≡ ok true) (returned q)
              (rw (i, reference_matches, n, same_option_refl definition_id) refl)
      ]

  record_declarations-agree :
      (family_name : Text) (classes : List ℕ) (records : List EntryRecordDeclaration)
      → record_declarations registry family_name classes ≡ ok records
      → any (record_conflicts registry family_name) records ≡ false
  record_declarations-agree family_name [] records h =
      ap (any (record_conflicts registry family_name)) (sym (returned h))
  record_declarations-agree family_name (c ∷ classes) records h =
      let (name, e, h1) = bind_ok (registered_record_name registry c) _ records h in
      let (r, f, h2) =
        bind_ok (record_declaration registry family_name c name (registry.entry_record_info name)) _
          records h1 in
      let (rs, g, h3) = bind_ok (record_declarations registry family_name classes) _ records h2 in
      ap (any (record_conflicts registry family_name)) (sym (returned h3))
      ∙ ap₂ (λ p q. p || q)
          (record_declaration-agrees family_name c name r (registry.entry_record_info name) refl
            (registered-For registry c registry.known_entry_records (record_reference registry) name
              e)
            f)
          (record_declarations-agree family_name classes rs g)

  family_declarations-Accepted :
      (supplied : List (ℕ × List ℕ)) (declarations : List EntryFamilyDeclaration)
      → family_declarations registry supplied ≡ ok declarations
      → All (λ d. reject_registry_conflicts registry d ≡ ok true) declarations
  family_declarations-Accepted [] declarations h =
      subst (All (λ d. reject_registry_conflicts registry d ≡ ok true)) (returned h) tt
  family_declarations-Accepted ((family, classes) ∷ supplied) declarations h =
      let (family_name, e, h1) =
        bind_ok (registered_family_name registry family) _ declarations h in
      let (b, f, h2) = bind_ok (check_classes registry classes) _ declarations h1 in
      let (records, g, h3) =
        bind_ok (record_declarations registry family_name classes) _ declarations h2 in
      let (d, i, h4) =
        bind_ok
          (family_declaration registry family_name family records
            (registry.entry_family_info family_name))
          _ declarations h3 in
      let (ds, j, h5) = bind_ok (family_declarations registry supplied) _ declarations h4 in
      subst (All (λ d. reject_registry_conflicts registry d ≡ ok true)) (returned h5) (
        family_declaration-agrees family_name family records d
            (registry.entry_family_info family_name) refl
            (registered-For registry family registry.known_entry_families
              (family_reference registry) family_name e)
            (record_declarations-agree family_name classes records g) i,
        family_declarations-Accepted supplied ds j,
      )

  loop_explicit :
      (declarations : List EntryFamilyDeclaration)
      → All (λ d. reject_registry_conflicts registry d ≡ ok true) declarations
      → family_layouts registry true declarations ≡ family_layouts registry false declarations
  loop_explicit [] a = refl
  loop_explicit (d ∷ declarations) (a, rest) =
      ap₂
        (λ first later. (do
          _ ← first
          _ ← check_records registry d.records
          entries ← later
          ok (family_layout d ∷ entries)))
        a (loop_explicit declarations rest)

  -- What the registry declares for the supplied classes may be declared explicitly too: no
  -- declaration conflicts with its registration, and the layout, or the error, is the same.
  pub normalize_entry_records-explicit :
      (supplied : List (ℕ × List ℕ)) (declarations : List EntryFamilyDeclaration)
      → family_declarations registry supplied ≡ ok declarations
      → All (λ d. reject_registry_conflicts registry d ≡ ok true) declarations
        × (normalize_entry_records registry supplied
            ≡ normalize_entry_families registry true declarations)
  unfolding normalize_entry_records normalize_entry_families
  normalize_entry_records-explicit supplied declarations h =
      let accepted = family_declarations-Accepted supplied declarations h in
      (accepted, rw h (ap (λ m. m >>= storage_layout) (sym (loop_explicit declarations accepted))))
