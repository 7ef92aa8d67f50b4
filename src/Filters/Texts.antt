-- ===== src/Filters/Texts.antt =====
-- The tests of Python on texts that the constant handlers use. A text is its code points.
use httk_data.Prelude.{
  ℕ, Bool, true, false, ◌&&◌, ◌||◌, List, [], ◌∷◌, ltb, ◌==◌, ==_iff, ◌≡◌, refl, ap₂, Bool-cases,
  inl, inr,
}

-- The lexicographic order.
unfoldable pub text_before : List ℕ → List ℕ → Bool
text_before [] [] = false
text_before [] (_ ∷ _) = true
text_before (_ ∷ _) [] = false
text_before (a ∷ s) (b ∷ t) = ltb a b || (a == b && text_before s t)

-- `value.startswith(text)`, the text first.
unfoldable pub is_prefix : List ℕ → List ℕ → Bool
is_prefix [] s = true
is_prefix (_ ∷ _) [] = false
is_prefix (a ∷ t) (b ∷ s) = a == b && is_prefix t s

-- `text in value`
unfoldable pub is_infix : List ℕ → List ℕ → Bool
unfolding is_prefix
is_infix t [] = is_prefix t []
is_infix t (b ∷ s) = is_prefix t (b ∷ s) || is_infix t s

abbrev pub same_codes : List ℕ → List ℕ → Bool
same_codes [] [] = true
same_codes (a ∷ s) (b ∷ t) = a == b && same_codes s t
same_codes _ _ = false

-- `value.endswith(text)`
unfoldable pub is_suffix : List ℕ → List ℕ → Bool
is_suffix t [] = same_codes t []
is_suffix t (b ∷ s) = same_codes t (b ∷ s) || is_suffix t s

-- The test is that of equality.
pub same_codes_refl : (a : List ℕ) → same_codes a a ≡ true
same_codes_refl [] = refl
same_codes_refl (x ∷ a) = rw ((==_iff x x).1 refl) (same_codes_refl a)

pub same_codes→eq : (a b : List ℕ) → same_codes a b ≡ true → a ≡ b
same_codes→eq [] [] h = refl
same_codes→eq [] (y ∷ b) h = cc
same_codes→eq (x ∷ a) [] h = cc
same_codes→eq (x ∷ a) (y ∷ b) h = elim (Bool-cases (x == y)) [
  | inl e ↦ ap₂ (λ z c. z ∷ c) ((==_iff x y).0 e) (same_codes→eq a b (rw e at h))
  | inr e ↦ let no : false ≡ true = rw e at h in cc
]
