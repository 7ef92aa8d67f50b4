-- ===== src/Prelude/Slices.antt =====
-- Slices of lists and of concatenations.
use Prim.Native.Nat.{ℕ, zero, suc, ◌+◌, ◌-◌, ◌≤◌, min}
use mathlib.Core.Path.{◌≡◌, refl, ap}
use mathlib.Core.List.{List, [], ◌∷◌, ◌++◌, map}
use native.Mathlib.Omega.{arith}
use httk_data.Prelude.Lists.{length, take, drop}

module _ {A : Type 0} where
  pub take-drop : (n m : ℕ) (xs : List A) → take n (drop m xs) ≡ drop m (take (m + n) xs)
  take-drop n zero xs = let e : 0 + n ≡ n = omega arith in rw e refl
  take-drop zero (suc m) [] = let e : suc m + 0 ≡ suc m = omega arith in rw e refl
  take-drop (suc n) (suc m) [] = let e : suc m + suc n ≡ suc (m + suc n) = omega arith in rw e refl
  take-drop n (suc m) (x ∷ xs) =
      let e : suc m + n ≡ suc (m + n) = omega arith in rw e (take-drop n m xs)

  pub drop-append_past :
      (n : ℕ) (xs ys : List A) → length xs ≤ n → drop n (xs ++ ys) ≡ drop (n - length xs) ys
  drop-append_past n [] ys h = let e : n - 0 ≡ n = omega arith in rw e refl
  drop-append_past zero (x ∷ xs) ys h = absurd (omega arith)
  drop-append_past (suc n) (x ∷ xs) ys h =
      let e : suc n - suc (length xs) ≡ n - length xs = omega arith in
      rw e (drop-append_past n xs ys (omega arith))

  pub drop-append_within :
      (n : ℕ) (xs ys : List A) → n ≤ length xs → drop n (xs ++ ys) ≡ drop n xs ++ ys
  drop-append_within zero xs ys h = refl
  drop-append_within (suc n) [] ys h = absurd (omega arith)
  drop-append_within (suc n) (x ∷ xs) ys h = drop-append_within n xs ys (omega arith)

  pub take-nil : (n : ℕ) → take {A = A} n [] ≡ []
  take-nil zero = refl
  take-nil (suc n) = refl

  pub take-append :
      (n : ℕ) (xs ys : List A) → take n (xs ++ ys) ≡ take n xs ++ take (n - length (take n xs)) ys
  take-append n [] ys = let e : n - 0 ≡ n = omega arith in rw (take-nil n, e) refl
  take-append zero (x ∷ xs) ys = refl
  take-append (suc n) (x ∷ xs) ys =
      let e : suc n - suc (length (take n xs)) ≡ n - length (take n xs) = omega arith in
      rw e (ap (λ zs. x ∷ zs) (take-append n xs ys))

  pub take-take : (k : ℕ) (xs : List A) → take k (take (suc k) xs) ≡ take k xs
  take-take k [] = refl
  take-take zero (x ∷ xs) = refl
  take-take (suc k) (x ∷ xs) = ap (λ ys. x ∷ ys) (take-take k xs)

  pub take_again : (k : ℕ) (xs : List A) → take k (take k xs) ≡ take k xs
  take_again zero xs = refl
  take_again (suc k) [] = refl
  take_again (suc k) (x ∷ xs) = ap (λ ys. x ∷ ys) (take_again k xs)

  -- A limit beyond the end cuts nothing.
  pub take-min : (n : ℕ) (xs : List A) → take (min (length xs) n) xs ≡ take n xs
  take-min n [] = rw (take-nil (min 0 n), take-nil n) refl
  take-min zero (x ∷ xs) = let e : min (suc (length xs)) 0 ≡ 0 = omega arith in rw e refl
  take-min (suc n) (x ∷ xs) =
      let e : min (suc (length xs)) (suc n) ≡ suc (min (length xs) n) = omega arith in
      rw e (ap (λ zs. x ∷ zs) (take-min n xs))

  pub take-append_drop : (n : ℕ) (xs : List A) → take n xs ++ drop n xs ≡ xs
  take-append_drop zero xs = refl
  take-append_drop (suc n) [] = refl
  take-append_drop (suc n) (x ∷ xs) = ap (λ ys. x ∷ ys) (take-append_drop n xs)

  pub take-all : (xs : List A) → take (length xs) xs ≡ xs
  take-all [] = refl
  take-all (x ∷ xs) = ap (λ zs. x ∷ zs) (take-all xs)

module _ {A B : Type 0} (f : A → B) where
  pub map-take : (n : ℕ) (xs : List A) → map f (take n xs) ≡ take n (map f xs)
  map-take zero xs = refl
  map-take (suc n) [] = refl
  map-take (suc n) (x ∷ xs) = ap (λ zs. f x ∷ zs) (map-take n xs)

  pub map-drop : (n : ℕ) (xs : List A) → map f (drop n xs) ≡ drop n (map f xs)
  map-drop zero xs = refl
  map-drop (suc n) [] = refl
  map-drop (suc n) (x ∷ xs) = map-drop n xs
