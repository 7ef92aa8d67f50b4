-- ===== src/StorageLayout/Families/AnyOrder.antt =====
-- The order of the families does not matter: `_storage_layout` sorts them by name.
use mathlib.Core.List.{Perm, Permᴰ}
use mathlib.Core.List.Perm
use mathlib.Core.Logic.{∥∥₁_elim}
use native.Mathlib.Nat.{ℕ_set}
use httk_data.Prelude.{
  ℕ, ◌≡◌, refl, sym, ap, ap₂, ◌∙◌, Bool, true, false, not, ◌&&◌, ◌||◌, List, [], ◌∷◌, map, any,
  ◌==◌, ==_iff, arith, Bool-cases, inl, inr, Result, err,
}
use httk_data.Prelude.Comparison.{at_most}
use httk_data.Filters.Texts.{same_codes}
use httk_data.StorageLayout.Families.{
  Text, LayoutError, repeated_family_name, EntryFamilyLayout, unique, names_order, insert_entry,
  sort_entries, checked_layout, storage_layout,
}
use httk_data.StorageLayout.Families.Unique.{steps_unique, unique-Perm}
use httk_data.StorageLayout.Families.Sorting.{insert_entry-swap}

==_symmetric : (a b : ℕ) → (a == b) ≡ (b == a)
==_symmetric a b = ground (arith, ==_iff a b, ==_iff b a)

same_codes_symmetric : (a b : Text) → same_codes a b ≡ same_codes b a
same_codes_symmetric [] [] = refl
same_codes_symmetric [] (y ∷ b) = refl
same_codes_symmetric (x ∷ a) [] = refl
same_codes_symmetric (x ∷ a) (y ∷ b) =
    ap₂ (λ p q. p && q) (==_symmetric x y) (same_codes_symmetric a b)

any-map :
    {A B : Type 0} (f : A → B) (test : B → Bool) (xs : List A)
    → any test (map f xs) ≡ any (λ x. test (f x)) xs
any-map f test [] = refl
any-map f test (x ∷ xs) = ap (λ b. test (f x) || b) (any-map f test xs)

unique-map :
    {A B : Type 0} (f : A → B) (same : B → B → Bool) (xs : List A)
    → unique same (map f xs) ≡ unique (λ a b. same (f a) (f b)) xs
unfolding unique
unique-map f same [] = refl
unique-map f same (x ∷ xs) =
    ap₂ (λ p q. not p && q) (any-map f (same (f x)) xs) (unique-map f same xs)

-- Sorting only moves the entries.
insert_entry-moves :
    (entry : EntryFamilyLayout) (entries : List EntryFamilyLayout)
    → Perm (insert_entry entry entries) (entry ∷ entries)
unfolding insert_entry
insert_entry-moves entry [] = Perm.rfl
insert_entry-moves entry (other ∷ entries) =
    elim (Bool-cases (at_most names_order entry.name other.name)) [
      | inl e ↦ rw e Perm.rfl
      | inr e ↦ rw e (
          Perm.trans (Perm.cons other (insert_entry-moves entry entries))
            (Perm.swap entry other entries))
    ]

sort_entries-moves : (entries : List EntryFamilyLayout) → Perm (sort_entries entries) entries
unfolding sort_entries
sort_entries-moves [] = Perm.rfl
sort_entries-moves (entry ∷ entries) =
    Perm.trans (insert_entry-moves entry (sort_entries entries))
      (Perm.cons entry (sort_entries-moves entries))

-- Entries with different names have one sorted list.
steps_sort :
    {xs ys : List EntryFamilyLayout}
    → Permᴰ xs ys
    → unique (λ a b. same_codes a.name b.name) xs ≡ true
    → sort_entries xs ≡ sort_entries ys
unfolding sort_entries unique
steps_sort Permᴰ.nil u = refl
steps_sort (Permᴰ.cons {a} {b} {l₁} {l₂} e d) u =
    ap₂ insert_entry e (steps_sort d (ground (arith, u)))
steps_sort (Permᴰ.swap {a} {b} {l} e f) u =
    insert_entry-swap a b (sort_entries l) (ground (arith, u))
    ∙ ap₂ (λ x y. insert_entry x (insert_entry y (sort_entries l))) f e
steps_sort (Permᴰ.trans d e) u =
    steps_sort d u
    ∙ steps_sort e (
        sym (
          steps_unique (λ a b. same_codes a.name b.name) (λ a b. same_codes_symmetric a.name b.name)
            d)
        ∙ u)

-- The first check, on the sorted entries, is one on the entries.
sorted_names :
    (entries : List EntryFamilyLayout)
    → unique same_codes (map (λ entry. entry.name) (sort_entries entries))
      ≡ unique (λ a b. same_codes a.name b.name) entries
sorted_names entries =
    unique-map (λ entry. entry.name) same_codes (sort_entries entries)
    ∙ unique-Perm (λ a b. same_codes a.name b.name) (λ a b. same_codes_symmetric a.name b.name)
        (sort_entries-moves entries)

repeated_name :
    (entries : List EntryFamilyLayout)
    → unique (λ a b. same_codes a.name b.name) entries ≡ false
    → storage_layout entries ≡ err repeated_family_name
unfolding storage_layout
repeated_name entries u = rw (sorted_names entries, u) refl

pub outcome_set : IsSet (Result LayoutError (List EntryFamilyLayout))
outcome_set = hlevel (ℕ_set)

steps_layout :
    {xs ys : List EntryFamilyLayout} → Permᴰ xs ys → storage_layout xs ≡ storage_layout ys
unfolding storage_layout
steps_layout {xs} {ys} d = elim (Bool-cases (unique (λ a b. same_codes a.name b.name) xs)) [
  | inl u ↦ ap checked_layout (steps_sort d u)
  | inr u ↦
      let v =
        steps_unique (λ a b. same_codes a.name b.name) (λ a b. same_codes_symmetric a.name b.name)
          d in
      repeated_name xs u ∙ sym (repeated_name ys (sym v ∙ u))
]

-- Families in any order give the same layout, or the same error: the order in which they are
-- supplied shows neither in the layout nor in which check fails first.
pub storage_layout-Perm :
    {xs ys : List EntryFamilyLayout} → Perm xs ys → storage_layout xs ≡ storage_layout ys
storage_layout-Perm {xs} {ys} p = ∥∥₁_elim p (outcome_set _ _) steps_layout
