-- ===== src/StorageLayout/Families/Declared.antt =====
-- The order of the declarations does not matter to `_normalize_entry_families`.
use mathlib.Core.List.{Perm, Permᴰ}
use mathlib.Core.List.Perm
use mathlib.Core.Logic.{∥∥₁_elim}
use mathlib.Core.Bool.{Bool-set}
use httk_data.Prelude.{
  ◌≡◌, refl, sym, ap, ap₂, ◌∙◌, Bool, true, false, ◌&&◌, List, [], ◌∷◌, map, all, arith,
  if◌then◌else◌, Result, ok, err, ◌>>=◌, bind_ok,
}
use httk_data.StorageLayout.Families.{
  LayoutError, EntryFamilyDeclaration, EntryFamilyLayout, Registry, reject_registry_conflicts,
  check_records, family_layout, family_layouts, normalize_entry_families, storage_layout,
}
use httk_data.StorageLayout.Families.AnyOrder.{storage_layout-Perm}

is_ok : Result LayoutError Bool → Bool
is_ok (ok b) = true
is_ok (err e) = false

chain :
    Result LayoutError Bool
    → Result LayoutError Bool
    → Result LayoutError (List EntryFamilyLayout)
    → EntryFamilyLayout
    → Result LayoutError (List EntryFamilyLayout)
chain a b rest x = do _ ← a; _ ← b; entries ← rest; ok (x ∷ entries)

chain_returns :
    (a b : Result LayoutError Bool) (rest : Result LayoutError (List EntryFamilyLayout))
    (x : EntryFamilyLayout) (entries : List EntryFamilyLayout)
    → chain a b rest x ≡ ok entries
    → (is_ok a && is_ok b ≡ true)
      × ((later : List EntryFamilyLayout) × (rest ≡ ok later) × (x ∷ later ≡ entries))
unfolding is_ok chain
chain_returns (ok a) (ok b) (ok later) x entries h = (refl, (later, refl, cc))
chain_returns (ok a) (ok b) (err e) x entries h = cc
chain_returns (ok a) (err e) rest x entries h = cc
chain_returns (err e) b rest x entries h = cc

chain_passes :
    (a b : Result LayoutError Bool) (rest : Result LayoutError (List EntryFamilyLayout))
    (x : EntryFamilyLayout) (later : List EntryFamilyLayout)
    → is_ok a && is_ok b ≡ true
    → rest ≡ ok later
    → chain a b rest x ≡ ok (x ∷ later)
unfolding is_ok chain
chain_passes (ok a) (ok b) rest x later t h = rw h refl
chain_passes (ok a) (err e) rest x later t h = cc
chain_passes (err e) b rest x later t h = cc

module _ (registry : Registry) (explicit : Bool) where
  first_check : EntryFamilyDeclaration → Result LayoutError Bool
  first_check declaration =
      if explicit then reject_registry_conflicts registry declaration else ok true

  passes : EntryFamilyDeclaration → Bool
  passes declaration =
      is_ok (first_check declaration) && is_ok (check_records registry declaration.records)

  -- The loop returns exactly when each declaration passes, and then returns their layouts.
  loop_returns :
      (declarations : List EntryFamilyDeclaration) (entries : List EntryFamilyLayout)
      → family_layouts registry explicit declarations ≡ ok entries
      → (all passes declarations ≡ true) × (map family_layout declarations ≡ entries)
  unfolding passes chain first_check
  loop_returns [] entries h = (refl, cc)
  loop_returns (declaration ∷ declarations) entries h =
      let (p, (later, e, f)) =
        chain_returns (first_check declaration) (check_records registry declaration.records)
          (family_layouts registry explicit declarations) (family_layout declaration) entries h in
      let (q, g) = loop_returns declarations later e in
      (ap₂ (λ a b. a && b) p q, ap (λ l. family_layout declaration ∷ l) g ∙ f)

  loop_passes :
      (declarations : List EntryFamilyDeclaration)
      → all passes declarations ≡ true
      → family_layouts registry explicit declarations ≡ ok (map family_layout declarations)
  unfolding passes chain first_check
  loop_passes [] t = refl
  loop_passes (declaration ∷ declarations) t =
      chain_passes (first_check declaration) (check_records registry declaration.records)
        (family_layouts registry explicit declarations) (family_layout declaration)
        (map family_layout declarations) (ground (arith, t))
        (loop_passes declarations (ground (arith, t)))

  steps_all : {xs ys : List EntryFamilyDeclaration} → Permᴰ xs ys → all passes xs ≡ all passes ys
  steps_all Permᴰ.nil = refl
  steps_all (Permᴰ.cons e d) = ap₂ (λ x b. passes x && b) e (steps_all d)
  steps_all (Permᴰ.swap {a} {b} {l} e f) =
      swapped (passes a) (passes b) (all passes l)
      ∙ ap₂ (λ x y. passes x && (passes y && all passes l)) f e
    where
      swapped : (p q r : Bool) → p && (q && r) ≡ q && (p && r)
      swapped p q r = ground arith
  steps_all (Permᴰ.trans d e) = steps_all d ∙ steps_all e

  all-Perm : {xs ys : List EntryFamilyDeclaration} → Perm xs ys → all passes xs ≡ all passes ys
  all-Perm p = ∥∥₁_elim p (Bool-set _ _) steps_all

-- When a sequence of declarations gives a layout, the same declarations in any other order give
-- that layout too.
pub normalize_entry_families-Perm :
    (registry : Registry) (explicit : Bool) {xs ys : List EntryFamilyDeclaration}
    (layout : List EntryFamilyLayout)
    → Perm xs ys
    → normalize_entry_families registry explicit xs ≡ ok layout
    → normalize_entry_families registry explicit ys ≡ ok layout
unfolding normalize_entry_families
normalize_entry_families-Perm registry explicit {xs} {ys} layout p h =
    let (entries, e, k) = bind_ok (family_layouts registry explicit xs) storage_layout layout h in
    let (t, m) = loop_returns registry explicit xs entries e in
    let moved = loop_passes registry explicit ys (sym (all-Perm registry explicit p) ∙ t) in
    rw moved (sym (storage_layout-Perm (Perm.map family_layout p)) ∙ ap storage_layout m ∙ k)
