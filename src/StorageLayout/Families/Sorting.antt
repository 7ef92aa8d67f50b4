-- ===== src/StorageLayout/Families/Sorting.antt =====
-- Entries with different names are sorted alike in any order.
use httk_data.Prelude.{
  ◌≡◌, sym, ◌∙◌, subst, Bool, true, false, List, [], ◌∷◌, arith, Bool-cases, inl, inr,
}
use httk_data.Prelude.Comparison.{at_most, transitive, not_at_most}
use httk_data.Prelude.TextOrder.{antisymmetric}
use httk_data.Filters.Texts.{same_codes, same_codes_refl}
use httk_data.StorageLayout.Families.{EntryFamilyLayout, names_order, insert_entry}

abbrev before : EntryFamilyLayout → EntryFamilyLayout → Bool
before a b = at_most names_order a.name b.name

-- Two different names have one order.
one_order :
    (a b : EntryFamilyLayout)
    → same_codes a.name b.name ≡ false
    → before a b ≡ true
    → before b a ≡ false
one_order a b d h = elim (Bool-cases (before b a)) [
  | inr e ↦ e
  | inl e ↦
      let same = antisymmetric a.name b.name h e in
      let no : true ≡ false =
        sym (same_codes_refl b.name) ∙ subst (λ n. same_codes n b.name ≡ false) same d in
      cc
]

pub insert_entry-swap :
    (a b : EntryFamilyLayout) (entries : List EntryFamilyLayout)
    → same_codes a.name b.name ≡ false
    → insert_entry a (insert_entry b entries) ≡ insert_entry b (insert_entry a entries)
unfolding insert_entry
insert_entry-swap a b [] d = ground (arith, one_order a b d, not_at_most names_order a.name b.name)
insert_entry-swap a b (c ∷ entries) d = ground (
  arith,
  insert_entry-swap a b entries d,
  one_order a b d,
  not_at_most names_order a.name b.name,
  not_at_most names_order a.name c.name,
  not_at_most names_order b.name c.name,
  transitive names_order a.name b.name c.name,
  transitive names_order b.name a.name c.name,
  transitive names_order a.name c.name b.name,
  transitive names_order b.name c.name a.name,
)
