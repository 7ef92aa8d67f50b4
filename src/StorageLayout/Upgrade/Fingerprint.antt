-- ===== src/StorageLayout/Upgrade/Fingerprint.antt =====
-- Schema fingerprints as parsed JSON documents. A dictionary is the list of its items; the values
-- that the code only compares are a type with decidable equality.
pub mod Names
use Prim.Native.Nat.{Ordering}
use Prim.Native.String.{compare}
use httk_data.Prelude.{
  String, str_eq, eq_iff, ◌≡◌, refl, Bool, true, false, ◌&&◌, Option, none, some, List, [], ◌∷◌,
  Bool-cases, inl, inr, if◌then◌else◌,
}

unfoldable pub String-discrete : Discrete String
String-discrete s t = go (str_eq s t) refl
  where
    go : (b : Bool) → str_eq s t ≡ b → Dec (s ≡ t)
    go true h = yes ((eq_iff s t).0 h)
    go false h = no (λ e. let y = (eq_iff s t).1 e in cc)

pub record ColumnSpec : Type 0 where
  pub name : String
  pub kind : String
  pub nullable : Bool
  pub indexed : Bool
  pub unique : Bool

-- What `_field_fingerprint` writes; `others` has the keys that an upgrade only compares.
pub record FieldDoc (J : Type 0) : Type 0 where
  pub role : String
  pub derived : Bool
  pub identity_skipped : Bool
  pub columns : List ColumnSpec
  pub others : J

unfoldable pub ColumnSpec-discrete : Discrete ColumnSpec
ColumnSpec-discrete = hlevel (String-discrete)

module _ {J : Type 0} (same : Discrete J) where
  unfoldable pub FieldDoc-discrete : Discrete (FieldDoc J)
  FieldDoc-discrete = hlevel (String-discrete, ColumnSpec-discrete, same)

  unfoldable pub Option-discrete : Discrete (Option J)
  Option-discrete = hlevel (same)

-- What `_table_fingerprint` writes. Its four unchanging keys may be missing from a stored document,
-- which may also have other keys.
pub record TableDoc (J : Type 0) : Type 0 where
  pub identity_name : Option J
  pub dedup : Option J
  pub composite_indexes : Option J
  pub links : Option J
  pub fields : List (String × FieldDoc J)
  pub unrecognized : List (String × J)

-- `dict.get`
abbrev pub get : {V : Type 0} → String → List (String × V) → Option V
get key [] = none
get key ((k, v) ∷ items) = let later = get key items in if str_eq k key then some v else later

-- Each item of a dictionary is in another one, with an equal value.
abbrev pub has_value : {V : Type 0} → Discrete V → V → Option V → Bool
has_value same v none = false
has_value same v (some w) = elim (same w v) [ yes _ ↦ true | no _ ↦ false ]

abbrev pub covered : {V : Type 0} → Discrete V → List (String × V) → List (String × V) → Bool
covered same [] other = true
covered same ((k, v) ∷ items) other = has_value same v (get k other) && covered same items other

abbrev pub same_dict : {V : Type 0} → Discrete V → List (String × V) → List (String × V) → Bool
same_dict same items other = covered same items other && covered same other items

module _ {J : Type 0} (same : Discrete J) where
  abbrev pub same_value : Option J → Option J → Bool
  same_value v w = elim (Option-discrete same v w) [ yes _ ↦ true | no _ ↦ false ]

  -- The equality of two table documents.
  unfoldable pub same_table : TableDoc J → TableDoc J → Bool
  same_table t u =
      same_value t.identity_name u.identity_name
      && (same_value t.dedup u.dedup
          && (same_value t.composite_indexes u.composite_indexes
              && (same_value t.links u.links
                  && (same_dict (FieldDoc-discrete same) t.fields u.fields
                      && same_dict same t.unrecognized u.unrecognized))))

-- `sorted(set(stored) | set(current))`
abbrev pub insert_name : String → List String → List String
insert_name name [] = name ∷ []
insert_name name (other ∷ names) =
    let later = insert_name name names in
    elim (compare name other) [
      | Ordering.lt ↦ name ∷ other ∷ names
      | Ordering.eq ↦ other ∷ names
      | Ordering.gt ↦ other ∷ later
    ]

abbrev pub insert_names : {V : Type 0} → List (String × V) → List String → List String
insert_names [] names = names
insert_names ((name, _) ∷ items) names = insert_name name (insert_names items names)

abbrev pub all_names : {V : Type 0} → List (String × V) → List (String × V) → List String
all_names stored current = insert_names stored (insert_names current [])
