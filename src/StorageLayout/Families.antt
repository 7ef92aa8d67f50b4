-- ===== src/StorageLayout/Families.antt =====
-- The declared entry families: `EntryFamilyDeclaration`, `normalize_entry_families`,
-- `_storage_layout` and `_merge_storage_layouts`. A text is its code points, and classes are
-- numbered. The registry of httk-core and the schemas of classes are parameters.
mod Unique
mod Sorting
pub mod AnyOrder
pub mod Declared
pub mod Registered
mod Tests
use httk_data.Prelude.{
  ℕ, Bool, true, false, not, ◌&&◌, ◌||◌, Option, none, some, List, [], ◌∷◌, ◌++◌, map, any, all,
  ◌==◌, leb, if◌then◌else◌, Result, ok, err, ◌>>=◌,
}
use httk_data.Prelude.Comparison.{Comparison, lists, numbers, at_most}
use httk_data.Filters.Texts.{same_codes}

abbrev pub Text : Type 0
Text = List ℕ

-- The exceptions of the code.
pub data LayoutError : Type 0 where
  repeated_record_name : LayoutError
  repeated_record_class : LayoutError
  repeated_family_name : LayoutError
  repeated_family_class : LayoutError
  registry_conflict : LayoutError
  wrong_dedup : LayoutError
  unresolved_schema : LayoutError
  no_records : LayoutError
  unknown_name : LayoutError
  not_one_name : LayoutError
  no_registered_family : LayoutError
  other_family : LayoutError

pub record EntryRecordDeclaration : Type 0 where
  pub name : Text
  pub record_class : ℕ
  pub definition_id : Option Text

pub record EntryFamilyDeclaration : Type 0 where
  pub name : Text
  pub family : ℕ
  pub records : List EntryRecordDeclaration
  pub definition_id : Option Text

pub record EntryFamilyLayout : Type 0 where
  pub name : Text
  pub family : ℕ
  pub definition_id : Option Text
  pub record_names : List Text
  pub records : List ℕ
  pub record_definition_ids : List (Option Text)

-- `len(set(values)) == len(values)`
unfoldable pub unique : {A : Type 0} → (A → A → Bool) → List A → Bool
unique same [] = true
unique same (x ∷ xs) = not (any (same x) xs) && unique same xs

abbrev pub flat : {A B : Type 0} → (A → List B) → List A → List B
flat f [] = []
flat f (x ∷ xs) = f x ++ flat f xs

-- The order of texts by code points.
abbrev pub names_order : Comparison Text
names_order = lists numbers

-- `entries.sort(key=lambda entry: entry.name)`
unfoldable pub insert_entry : EntryFamilyLayout → List EntryFamilyLayout → List EntryFamilyLayout
insert_entry entry [] = entry ∷ []
insert_entry entry (other ∷ entries) =
    let later = insert_entry entry entries in
    if at_most names_order entry.name other.name then entry ∷ other ∷ entries else other ∷ later

unfoldable pub sort_entries : List EntryFamilyLayout → List EntryFamilyLayout
sort_entries [] = []
sort_entries (entry ∷ entries) = insert_entry entry (sort_entries entries)

-- The checks of `_storage_layout`, in the order of the code.
abbrev pub checked_layout : List EntryFamilyLayout → Result LayoutError (List EntryFamilyLayout)
checked_layout entries =
    if not (unique same_codes (map (λ entry. entry.name) entries))
    then err repeated_family_name
    else if not (unique ◌==◌ (map (λ entry. entry.family) entries))
    then err repeated_family_class
    else if not (unique same_codes (flat (λ entry. entry.record_names) entries))
    then err repeated_record_name
    else if not (unique ◌==◌ (flat (λ entry. entry.records) entries))
    then err repeated_record_class
    else ok entries

-- The families of a `StorageLayout`; its protocol version is fixed.
unfoldable pub storage_layout : List EntryFamilyLayout → Result LayoutError (List EntryFamilyLayout)
storage_layout entries = checked_layout (sort_entries entries)

unfoldable pub merge_storage_layouts :
    List (List EntryFamilyLayout) → Result LayoutError (List EntryFamilyLayout)
merge_storage_layouts layouts = storage_layout (flat (λ families. families) layouts)

-- What `_reject_registry_conflicts` and `resolve_schema` look up.
pub record Registry : Type 1 where
  pub Reference : Type 0
  pub known_entry_families : List Text
  pub known_entry_records : List Text
  pub entry_family_info : Text → Option (Reference × Option Text)
  pub entry_record_info : Text → Option (Reference × Option Text × Option Text)
  pub reference_matches_class : Reference → ℕ → Bool
  -- Whether the schema of a class has `dedup="content_id"`; none when it has no schema.
  pub by_content_id : ℕ → Option Bool

abbrev pub same_option : Option Text → Option Text → Bool
same_option none none = true
same_option (some a) (some b) = same_codes a b
same_option none (some b) = false
same_option (some a) none = false

abbrev pub family_layout : EntryFamilyDeclaration → EntryFamilyLayout
family_layout declaration = record {
  name = declaration.name;
  family = declaration.family;
  definition_id = declaration.definition_id;
  record_names = map (λ r. r.name) declaration.records;
  records = map (λ r. r.record_class) declaration.records;
  record_definition_ids = map (λ r. r.definition_id) declaration.records;
}

module _ (registry : Registry) where
  -- A registered family conflicts unless it is the declared one.
  abbrev pub family_differs :
      EntryFamilyDeclaration → Option (registry.Reference × Option Text) → Bool
  family_differs declaration none = false
  family_differs declaration (some (reference, definition_id)) =
      not (registry.reference_matches_class reference declaration.family)
      || not (same_option definition_id declaration.definition_id)

  abbrev pub family_conflicts : EntryFamilyDeclaration → Bool
  family_conflicts declaration =
      family_differs declaration (registry.entry_family_info declaration.name)

  abbrev pub record_differs :
      Text → EntryRecordDeclaration → Option (registry.Reference × Option Text × Option Text) → Bool
  record_differs family r none = false
  record_differs family r (some (reference, family_name, definition_id)) =
      not (registry.reference_matches_class reference r.record_class)
      || not (same_option family_name (some family))
      || not (same_option definition_id r.definition_id)

  abbrev pub record_conflicts : Text → EntryRecordDeclaration → Bool
  record_conflicts family r = record_differs family r (registry.entry_record_info r.name)

  abbrev pub reject_registry_conflicts : EntryFamilyDeclaration → Result LayoutError Bool
  reject_registry_conflicts declaration =
      if family_conflicts declaration || any (record_conflicts declaration.name) declaration.records
      then err registry_conflict
      else ok true

  -- The loop over the records of a declaration.
  abbrev pub check_records : List EntryRecordDeclaration → Result LayoutError Bool
  check_records [] = ok true
  check_records (r ∷ rs) = elim (registry.by_content_id r.record_class) [
    | none ↦ err unresolved_schema
    | some true ↦ check_records rs
    | some false ↦ err wrong_dedup
  ]

  -- The loop over the declarations.
  abbrev pub family_layouts :
      Bool → List EntryFamilyDeclaration → Result LayoutError (List EntryFamilyLayout)
  family_layouts explicit [] = ok []
  family_layouts explicit (declaration ∷ declarations) = do
    _ ← if explicit then reject_registry_conflicts declaration else ok true
    _ ← check_records declaration.records
    entries ← family_layouts explicit declarations
    ok (family_layout declaration ∷ entries)

  unfoldable pub normalize_entry_families :
      Bool → List EntryFamilyDeclaration → Result LayoutError (List EntryFamilyLayout)
  normalize_entry_families explicit declarations =
      family_layouts explicit declarations >>= storage_layout
