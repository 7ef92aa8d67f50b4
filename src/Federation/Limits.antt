-- ===== src/Federation/Limits.antt =====
-- Lists under a limit that may be absent, and the rows that a page shows.
use httk_data.Prelude.{
  ℕ, zero, suc, ◌+◌, ◌-◌, ◌≤◌, ◌≡◌, refl, ap, true, false, Option, none, some, List, [], ◌∷◌, ◌++◌,
  map, take, drop, All, arith,
}
pub use httk_data.Prelude.{take_limit}
use httk_data.Federation.Execute.{reached, child_limit_of}

-- What is left of a limit.
abbrev pub rest_of : Option ℕ → ℕ → Option ℕ
rest_of none y = none
rest_of (some n) y = some (n - y)

pub sub-zero : (n : ℕ) → n - 0 ≡ n
sub-zero n = omega arith

pub rest_of-zero : (l : Option ℕ) → rest_of l 0 ≡ l
rest_of-zero none = refl
rest_of-zero (some n) = ap some (sub-zero n)

module _ {A : Type 0} where
  pub drop-nil : (n : ℕ) → drop {A = A} n [] ≡ []
  drop-nil zero = refl
  drop-nil (suc n) = refl

  pub take_limit-nil : (l : Option ℕ) → take_limit {A = A} l [] ≡ []
  take_limit-nil none = refl
  take_limit-nil (some zero) = refl
  take_limit-nil (some (suc n)) = refl

  pub take_limit-reached :
      (l : Option ℕ) (y : ℕ) (xs : List A) → reached l y ≡ true → take_limit (rest_of l y) xs ≡ []
  take_limit-reached none y xs h = cc
  take_limit-reached (some n) y xs h = let e : n - y ≡ 0 = ground arith in ap (λ k. take k xs) e

  pub take_limit-rest_of :
      (l : Option ℕ) (y : ℕ) (x : A) (xs : List A)
      → reached l y ≡ false
      → take_limit (rest_of l y) (x ∷ xs) ≡ x ∷ take_limit (rest_of l (y + 1)) xs
  take_limit-rest_of none y x xs h = refl
  take_limit-rest_of (some n) y x xs h =
      let e : n - y ≡ suc (n - (y + 1)) = ground arith in ap (λ k. take k (x ∷ xs)) e

  -- The rows behind the last that a page can show do not matter.
  pub page-take :
      (c m n : ℕ) (xs ys : List A)
      → m + n ≤ c
      → take n (drop m (take c xs ++ ys)) ≡ take n (drop m (xs ++ ys))
  page-take zero zero zero xs ys h = refl
  page-take zero (suc m) n xs ys h = ground arith
  page-take zero zero (suc n) xs ys h = ground arith
  page-take (suc c) m n [] ys h = refl
  page-take (suc c) zero zero (x ∷ xs) ys h = refl
  page-take (suc c) zero (suc n) (x ∷ xs) ys h =
      ap (λ zs. x ∷ zs) (page-take c zero n xs ys (omega arith))
  page-take (suc c) (suc m) n (x ∷ xs) ys h = page-take c m n xs ys (omega arith)

  pub page-take_limit :
      (l : Option ℕ) (m s y : ℕ) (xs ys : List A)
      → take_limit (rest_of l y) (drop (m - s) (take_limit (child_limit_of m l) xs ++ ys))
        ≡ take_limit (rest_of l y) (drop (m - s) (xs ++ ys))
  page-take_limit none m s y xs ys = refl
  page-take_limit (some n) m s y xs ys = page-take (m + n) (m - s) (n - y) xs ys (omega arith)

pub map-take_limit :
    {A B : Type 0} (f : A → B) (l : Option ℕ) (xs : List A)
    → map f (take_limit l xs) ≡ take_limit l (map f xs)
map-take_limit f none xs = refl
map-take_limit f (some zero) xs = refl
map-take_limit f (some (suc n)) [] = refl
map-take_limit f (some (suc n)) (x ∷ xs) = ap (λ zs. f x ∷ zs) (map-take_limit f (some n) xs)

pub All-take_limit :
    {A : Type 0} (P : A → Type 0) (l : Option ℕ) (xs : List A) → All P xs → All P (take_limit l xs)
All-take_limit P none xs h = h
All-take_limit P (some zero) xs h = tt
All-take_limit P (some (suc n)) [] h = tt
All-take_limit P (some (suc n)) (x ∷ xs) (h, hs) = (h, All-take_limit P (some n) xs hs)
