-- ===== src/StorageLayout/Families/Registered.antt =====
-- `normalize_entry_records`, which declares classes by the names they are registered with. Records
-- are always supplied as a tuple.
mod Lookup
pub mod Explicit
use httk_data.Prelude.{
  ℕ, Bool, true, false, not, Option, none, some, List, [], ◌∷◌, map, ◌==◌, if◌then◌else◌, Result,
  ok, err, ◌>>=◌,
}
use httk_data.Filters.Texts.{same_codes}
use httk_data.StorageLayout.Families.{
  Text, LayoutError, no_records, repeated_record_class, repeated_record_name, unknown_name,
  not_one_name, no_registered_family, other_family, EntryRecordDeclaration, EntryFamilyDeclaration,
  EntryFamilyLayout, Registry, unique, normalize_entry_families,
}

module _ (registry : Registry) where
  -- The first part of what the registry says of a name.
  abbrev pub reference_of_family :
      Option (registry.Reference × Option Text) → Option registry.Reference
  reference_of_family none = none
  reference_of_family (some (reference, definition_id)) = some reference

  abbrev pub reference_of_record :
      Option (registry.Reference × Option Text × Option Text) → Option registry.Reference
  reference_of_record none = none
  reference_of_record (some (reference, family_name, definition_id)) = some reference

  abbrev pub family_reference : Text → Option registry.Reference
  family_reference name = reference_of_family (registry.entry_family_info name)

  abbrev pub record_reference : Text → Option registry.Reference
  record_reference name = reference_of_record (registry.entry_record_info name)

  -- A name is kept if its reference is for the class.
  abbrev pub add_match :
      ℕ
      → Text
      → Option registry.Reference
      → Result LayoutError (List Text)
      → Result LayoutError (List Text)
  add_match c name none rest = err unknown_name
  add_match c name (some reference) (err e) = err e
  add_match c name (some reference) (ok later) =
      if registry.reference_matches_class reference c then ok (name ∷ later) else ok later

  abbrev pub registered_names_for :
      ℕ → List Text → (Text → Option registry.Reference) → Result LayoutError (List Text)
  registered_names_for c [] info = ok []
  registered_names_for c (name ∷ names) info =
      add_match c name (info name) (registered_names_for c names info)

  -- `len(matches) != 1` raises.
  abbrev pub one_name : List Text → Result LayoutError Text
  one_name (name ∷ []) = ok name
  one_name _ = err not_one_name

  abbrev pub registered_family_name : ℕ → Result LayoutError Text
  registered_family_name family =
      registered_names_for family registry.known_entry_families family_reference >>= one_name

  abbrev pub registered_record_name : ℕ → Result LayoutError Text
  registered_record_name c =
      registered_names_for c registry.known_entry_records record_reference >>= one_name

  -- The checks of a record after its name is found, and its declaration.
  abbrev pub record_declaration :
      Text
      → ℕ
      → Text
      → Option (registry.Reference × Option Text × Option Text)
      → Result LayoutError EntryRecordDeclaration
  record_declaration family_name c name none = err unknown_name
  record_declaration family_name c name (some (reference, none, definition_id)) =
      err no_registered_family
  record_declaration family_name c name (some (reference, some registered, definition_id)) =
      if same_codes registered family_name
      then ok (record { name = name; record_class = c; definition_id = definition_id })
      else err other_family

  abbrev pub record_declarations : Text → List ℕ → Result LayoutError (List EntryRecordDeclaration)
  record_declarations family_name [] = ok []
  record_declarations family_name (c ∷ classes) = do
    name ← registered_record_name c
    declaration ← record_declaration family_name c name (registry.entry_record_info name)
    declarations ← record_declarations family_name classes
    ok (declaration ∷ declarations)

  -- The construction of an `EntryFamilyDeclaration`, which checks its records.
  abbrev pub family_declaration :
      Text
      → ℕ
      → List EntryRecordDeclaration
      → Option (registry.Reference × Option Text)
      → Result LayoutError EntryFamilyDeclaration
  family_declaration family_name family records none = err unknown_name
  family_declaration family_name family records (some (reference, definition_id)) =
      if not (unique same_codes (map (λ r. r.name) records))
      then err repeated_record_name
      else ok (record {
        name = family_name;
        family = family;
        records = records;
        definition_id = definition_id;
      })

  abbrev pub check_classes : List ℕ → Result LayoutError Bool
  check_classes [] = err no_records
  check_classes (c ∷ classes) =
      if not (unique ◌==◌ (c ∷ classes)) then err repeated_record_class else ok true

  abbrev pub family_declarations :
      List (ℕ × List ℕ) → Result LayoutError (List EntryFamilyDeclaration)
  family_declarations [] = ok []
  family_declarations ((family, classes) ∷ supplied) = do
    family_name ← registered_family_name family
    _ ← check_classes classes
    records ← record_declarations family_name classes
    declaration ←
        family_declaration family_name family records (registry.entry_family_info family_name)
    declarations ← family_declarations supplied
    ok (declaration ∷ declarations)

  unfoldable pub normalize_entry_records :
      List (ℕ × List ℕ) → Result LayoutError (List EntryFamilyLayout)
  normalize_entry_records supplied =
      family_declarations supplied >>= normalize_entry_families registry false
