-- ===== src/StorageLayout/Closure/Unseen.antt =====
-- The number of classes that a walk has not seen.
use httk_data.Prelude.{
  ℕ, ◌+◌, ◌≤◌, ◌<◌, ◌≡◌, sym, subst, true, false, List, [], ◌∷◌, ◌==◌, ==_iff, length, arith,
  Bool-cases, inl, inr, if◌then◌else◌,
}
use httk_data.StorageLayout.Closure.{contains}

-- Every class of one list is in another.
abbrev pub Within : List ℕ → List ℕ → Type 0
Within xs ys = (x : ℕ) → contains x xs ≡ true → contains x ys ≡ true

abbrev pub unseen : List ℕ → List ℕ → ℕ
unseen [] seen = 0
unseen (u ∷ us) seen = (if contains u seen then 0 else 1) + unseen us seen

pub unseen-length : (us : List ℕ) (seen : List ℕ) → unseen us seen ≤ length us
unseen-length [] seen = omega arith
unseen-length (u ∷ us) seen = ground (arith, unseen-length us seen)

pub unseen_mono : (us seen more : List ℕ) → Within seen more → unseen us more ≤ unseen us seen
unseen_mono [] seen more h = omega arith
unseen_mono (u ∷ us) seen more h = ground (arith, unseen_mono us seen more h, h u)

pub contains_later : (x y : ℕ) (ys : List ℕ) → contains x ys ≡ true → contains x (y ∷ ys) ≡ true
contains_later x y ys h = ground arith

pub contains_here : (x : ℕ) (ys : List ℕ) → contains x (x ∷ ys) ≡ true
contains_here x ys = ground arith

-- Seeing another of the classes leaves fewer.
pub unseen_drop :
    (us : List ℕ) (x : ℕ) (seen : List ℕ)
    → contains x us ≡ true
    → contains x seen ≡ false
    → unseen us (x ∷ seen) < unseen us seen
unseen_drop [] x seen h n = cc
unseen_drop (u ∷ us) x seen h n =
    let mono = unseen_mono us seen (x ∷ seen) (λ y k. contains_later y x seen k) in
    elim (Bool-cases (x == u)) [
      | inl e ↦
          let same : x ≡ u = (==_iff x u).0 e in
          let before : contains u seen ≡ false = subst (λ y. contains y seen ≡ false) same n in
          let after : contains u (x ∷ seen) ≡ true =
            subst (λ y. contains u (y ∷ seen) ≡ true) (sym same) (contains_here u seen) in
          rw (after, before) (omega arith)
      | inr e ↦
          let less = unseen_drop us x seen (rw e at h) n in
          let other : (u == x) ≡ false = ground arith in rw other (omega arith)
    ]
