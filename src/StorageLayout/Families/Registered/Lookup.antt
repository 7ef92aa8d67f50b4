-- ===== src/StorageLayout/Families/Registered/Lookup.antt =====
-- The names that the registry has for a class are registered for it.
use httk_data.Prelude.{
  ℕ, ◌≡◌, refl, subst, true, Option, none, some, List, [], ◌∷◌, All, Bool-cases, inl, inr, Result,
  ok, err, ◌>>=◌, bind_ok,
}
use httk_data.StorageLayout.Families.{Text, LayoutError, Registry}
use httk_data.StorageLayout.Families.Registered.{registered_names_for, add_match, one_name}

pub returned : {A : Type 0} {a b : A} → Path (Result LayoutError A) (ok a) (ok b) → a ≡ b
returned h = cc

module _ (registry : Registry) where
  -- A name whose registration is for a class.
  abbrev pub IsFor : ℕ → (Text → Option registry.Reference) → Text → Type 0
  IsFor c info name =
      (reference : registry.Reference) × (info name ≡ some reference)
      × (registry.reference_matches_class reference c ≡ true)

  one_name-For :
      (c : ℕ) (info : Text → Option registry.Reference) (names : List Text) (name : Text)
      → All (IsFor c info) names
      → one_name registry names ≡ ok name
      → IsFor c info name
  one_name-For c info [] name a h = cc
  one_name-For c info (n ∷ []) name (a, u) h = subst (IsFor c info) (returned h) a
  one_name-For c info (n ∷ m ∷ names) name a h = cc

  add_match-For :
      (c : ℕ) (info : Text → Option registry.Reference) (name : Text)
      (o : Option registry.Reference) (rest : Result LayoutError (List Text)) (found : List Text)
      → info name ≡ o
      → ((later : List Text) → rest ≡ ok later → All (IsFor c info) later)
      → add_match registry c name o rest ≡ ok found
      → All (IsFor c info) found
  add_match-For c info name none rest found i r h = cc
  add_match-For c info name (some reference) (err e) found i r h = cc
  add_match-For c info name (some reference) (ok later) found i r h =
      elim (Bool-cases (registry.reference_matches_class reference c)) [
        | inl e ↦
            let k : Path (Result LayoutError (List Text)) (ok (name ∷ later)) (ok found) =
              rw e at h in
            subst (All (IsFor c info)) (returned k) ((reference, i, e), r later refl)
        | inr e ↦
            let k : Path (Result LayoutError (List Text)) (ok later) (ok found) = rw e at h in
            subst (All (IsFor c info)) (returned k) (r later refl)
      ]

  registered_names_for-For :
      (c : ℕ) (info : Text → Option registry.Reference) (names found : List Text)
      → registered_names_for registry c names info ≡ ok found
      → All (IsFor c info) found
  registered_names_for-For c info [] found h = subst (All (IsFor c info)) (returned h) tt
  registered_names_for-For c info (name ∷ names) found h =
      add_match-For c info name (info name) (registered_names_for registry c names info) found refl
        (registered_names_for-For c info names) h

  pub registered-For :
      (c : ℕ) (names : List Text) (info : Text → Option registry.Reference) (name : Text)
      → (registered_names_for registry c names info >>= one_name registry) ≡ ok name
      → IsFor c info name
  registered-For c names info name h =
      let (found, e, k) =
        bind_ok (registered_names_for registry c names info) (one_name registry) name h in
      one_name-For c info found name (registered_names_for-For c info names found e) k
