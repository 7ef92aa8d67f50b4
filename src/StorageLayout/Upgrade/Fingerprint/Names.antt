-- ===== src/StorageLayout/Upgrade/Fingerprint/Names.antt =====
-- The sorted names of two dictionaries are their names.
use Prim.Native.String.{compare}
use Prim.Native.Nat.{Ordering}
use Prim.Native.Nat.Ordering.{lt, eq, gt}
use text.Mathlib.TextEquality.{path_by_compare}
use httk_data.Prelude.{
  String, str_eq, eq_iff, ◌≡◌, refl, sym, subst, ◌↔◌, inl, inr, some, List, [], ◌∷◌, All,
  Bool-cases,
}
use httk_data.StorageLayout.Upgrade.Fingerprint.{get, insert_name, insert_names, all_names}

-- What holds at all names holds at each.
module _ (P : String → Type 0) where
  All-insert_name :
      (name : String) (names : List String)
      → All P (insert_name name names) ↔ (P name × All P names)
  All-insert_name name [] = (λ h. h, λ h. h)
  All-insert_name name (other ∷ names) = go (compare name other) refl (All-insert_name name names)
    where
      go :
          (o : Ordering)
          → compare name other ≡ o
          → All P (insert_name name names) ↔ (P name × All P names)
          → All P (elim o as (λ _. List String) [
            | Ordering.lt ↦ name ∷ other ∷ names
            | Ordering.eq ↦ other ∷ names
            | Ordering.gt ↦ other ∷ insert_name name names
          ])
            ↔ (P name × (P other × All P names))
      go lt e r = (λ h. h, λ h. h)
      go eq e r =
          (λ (h, hs). (subst P (sym (path_by_compare name other e)) h, (h, hs)), λ (k, hs). hs)
      go gt e r =
          (λ (h, hs). let (k, ks) = r.0 hs in (k, (h, ks)), λ (k, (h, ks)). (h, r.1 (k, ks)))

  All-insert_names :
      {V : Type 0} (items : List (String × V)) (names : List String)
      → All P (insert_names items names)
        ↔ (All (λ (item : String × V). P item.0) items × All P names)
  All-insert_names [] names = (λ h. (tt, h), λ h. h.1)
  All-insert_names (item ∷ items) names =
      let (open_, close) = All-insert_name item.0 (insert_names items names) in
      let (forth, back) = All-insert_names items names in
      (
        λ h. let (k, ks) = open_ h in let (l, ls) = forth ks in ((k, l), ls),
        λ ((k, l), ls). close (k, back (l, ls)),
      )

  pub All-everywhere :
      {V : Type 0} (items : List (String × V))
      → ((name : String) → P name)
      → All (λ (item : String × V). P item.0) items
  All-everywhere [] h = tt
  All-everywhere (item ∷ items) h = (h item.0, All-everywhere items h)

  pub All-get :
      {V : Type 0} (items : List (String × V)) (name : String) (v : V)
      → All (λ (item : String × V). P item.0) items
      → get name items ≡ some v
      → P name
  All-get [] name v h e = cc
  All-get ((k, w) ∷ items) name v (h, hs) e = elim (Bool-cases (str_eq k name)) [
    | inl s ↦ subst P ((eq_iff k name).0 s) h
    | inr s ↦ All-get items name v hs (rw s at e)
  ]

  -- What holds at every name holds at all names of two dictionaries, and the converse for those
  -- that occur.
  pub all_names-everywhere :
      {V : Type 0} (stored current : List (String × V))
      → ((name : String) → P name)
      → All P (all_names stored current)
  all_names-everywhere stored current h =
      (All-insert_names stored _).1
        (All-everywhere stored h, (All-insert_names current []).1 (All-everywhere current h, tt))

  pub all_names-get :
      {V : Type 0} (stored current : List (String × V)) (name : String) (v : V)
      → All P (all_names stored current)
      → get name stored ≡ some v
      → P name
  all_names-get stored current name v h e =
      All-get stored name v ((All-insert_names stored _).0 h).0 e
