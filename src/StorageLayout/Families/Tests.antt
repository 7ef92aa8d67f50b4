-- ===== src/StorageLayout/Families/Tests.antt =====
-- Two families, of calculations and of structures, with three records.
use mathlib.Core.List.Perm
use httk_data.Prelude.{
  All, ℕ, ◌≡◌, refl, true, false, none, some, [], ◌∷◌, not, ◌==◌, if◌then◌else◌, ok, err,
}
use httk_data.Filters.Texts.{same_codes}
use httk_data.StorageLayout.Families.{
  Text, repeated_family_name, registry_conflict, wrong_dedup, not_one_name,
  reject_registry_conflicts, EntryRecordDeclaration, EntryFamilyDeclaration, Registry,
  family_layout, normalize_entry_families, storage_layout, merge_storage_layouts, unique,
  insert_entry, sort_entries,
}
use httk_data.StorageLayout.Families.Registered.{family_declarations, normalize_entry_records}
use httk_data.StorageLayout.Families.Registered.Explicit.{normalize_entry_records-explicit}
use httk_data.StorageLayout.Families.AnyOrder.{storage_layout-Perm}
use httk_data.StorageLayout.Families.Declared.{normalize_entry_families-Perm}

abbrev record_of : Text → ℕ → EntryRecordDeclaration
record_of n c = record { name = n; record_class = c; definition_id = none }

abbrev structures : EntryFamilyDeclaration
structures = record {
  name = 115 ∷ [];
  family = 1;
  records = record_of (115 ∷ 49 ∷ []) 10 ∷ record_of (115 ∷ 50 ∷ []) 11 ∷ [];
  definition_id = none;
}

abbrev calculations : EntryFamilyDeclaration
calculations = record {
  name = 99 ∷ [];
  family = 2;
  records = record_of (99 ∷ 49 ∷ []) 12 ∷ [];
  definition_id = some (105 ∷ []);
}

-- Class 20 has another `dedup`; the name `r` is registered.
abbrev registry : Registry
registry = record {
  Reference = ℕ;
  known_entry_families = (114 ∷ []) ∷ [];
  known_entry_records = (114 ∷ 49 ∷ []) ∷ [];
  entry_family_info = λ name. if same_codes name (114 ∷ []) then some (3, none) else none;
  entry_record_info =
      λ name. if same_codes name (114 ∷ 49 ∷ []) then some (13, some (114 ∷ []), none) else none;
  reference_matches_class = ◌==◌;
  by_content_id = λ c. some (not (c == 20));
}

abbrev registered : EntryFamilyDeclaration
registered = record {
  name = 114 ∷ [];
  family = 4;
  records = record_of (114 ∷ 49 ∷ []) 13 ∷ [];
  definition_id = none;
}

abbrev wrong : EntryFamilyDeclaration
wrong = record {
  name = 119 ∷ [];
  family = 5;
  records = record_of (119 ∷ 49 ∷ []) 20 ∷ [];
  definition_id = none;
}

-- The families are sorted by name.
sorted :
    normalize_entry_families registry true (structures ∷ calculations ∷ [])
    ≡ ok (family_layout calculations ∷ family_layout structures ∷ [])
unfolding normalize_entry_families storage_layout sort_entries insert_entry unique
sorted = refl

repeated :
    merge_storage_layouts (
      (family_layout structures ∷ [])
      ∷ (family_layout calculations ∷ family_layout structures ∷ [])
      ∷ [])
    ≡ err repeated_family_name
unfolding merge_storage_layouts storage_layout sort_entries insert_entry unique
repeated = refl

-- Only an explicit declaration is compared with the registry.
conflicting : normalize_entry_families registry true (registered ∷ []) ≡ err registry_conflict
unfolding normalize_entry_families
conflicting = refl

not_explicit :
    normalize_entry_families registry false (registered ∷ []) ≡ ok (family_layout registered ∷ [])
unfolding normalize_entry_families storage_layout sort_entries insert_entry unique
not_explicit = refl

not_by_content : normalize_entry_families registry true (wrong ∷ []) ≡ err wrong_dedup
unfolding normalize_entry_families
not_by_content = refl

storage_layout-Perm_example :
    storage_layout (family_layout structures ∷ family_layout calculations ∷ [])
    ≡ storage_layout (family_layout calculations ∷ family_layout structures ∷ [])
storage_layout-Perm_example =
    storage_layout-Perm (Perm.swap (family_layout calculations) (family_layout structures) [])

normalize_entry_families-Perm_example :
    normalize_entry_families registry true (calculations ∷ structures ∷ [])
    ≡ ok (family_layout calculations ∷ family_layout structures ∷ [])
normalize_entry_families-Perm_example =
    normalize_entry_families-Perm registry true
      (family_layout calculations ∷ family_layout structures ∷ [])
      (Perm.swap calculations structures []) sorted

-- What the registry declares for class 3 with the record class 13.
abbrev declared : EntryFamilyDeclaration
declared = record {
  name = 114 ∷ [];
  family = 3;
  records = record_of (114 ∷ 49 ∷ []) 13 ∷ [];
  definition_id = none;
}

normalized : normalize_entry_records registry ((3, 13 ∷ []) ∷ []) ≡ ok (family_layout declared ∷ [])
unfolding normalize_entry_records normalize_entry_families storage_layout sort_entries insert_entry
    unique
normalized = refl

unregistered : normalize_entry_records registry ((3, 14 ∷ []) ∷ []) ≡ err not_one_name
unfolding normalize_entry_records unique
unregistered = refl

declares : family_declarations registry ((3, 13 ∷ []) ∷ []) ≡ ok (declared ∷ [])
unfolding unique
declares = refl

normalize_entry_records-explicit_example :
    All (λ d. reject_registry_conflicts registry d ≡ ok true) (declared ∷ [])
    × (normalize_entry_records registry ((3, 13 ∷ []) ∷ [])
        ≡ normalize_entry_families registry true (declared ∷ []))
normalize_entry_records-explicit_example =
    normalize_entry_records-explicit registry ((3, 13 ∷ []) ∷ []) (declared ∷ []) declares
