-- ===== src/StorageLayout/Closure/Visits.antt =====
-- A walk visits exactly the classes that the records lead to, each once.
use httk_data.Prelude.{
  ℕ, zero, suc, ◌<◌, ◌≡◌, refl, sym, subst, Bool, true, false, List, [], ◌∷◌, ◌==◌, ==_iff, length,
  All, arith, Bool-cases, inl, inr,
}
use httk_data.StorageLayout.Closure.{contains, descend_all, walk_closure}
use httk_data.StorageLayout.Closure.Unseen.{
  Within, unseen, unseen-length, unseen_mono, unseen_drop, contains_later, contains_here,
}

-- All of these classes are in a list.
abbrev pub AllIn : List ℕ → List ℕ → Type 0
AllIn ys xs = All (λ x. contains x ys ≡ true) xs

-- No class stands twice in a list.
abbrev pub IsUnique : List ℕ → Type 0
IsUnique [] = Unit
IsUnique (x ∷ xs) = (contains x xs ≡ false) × IsUnique xs

AllIn-Within : (xs ys zs : List ℕ) → Within ys zs → AllIn ys xs → AllIn zs xs
AllIn-Within [] ys zs h k = tt
AllIn-Within (x ∷ xs) ys zs h (k, ks) = (h x k, AllIn-Within xs ys zs h ks)

module _ (targets : ℕ → List ℕ) where
  -- The descent to one class, as `descend_all` makes it.
  abbrev descend : ℕ → ℕ → List ℕ → List ℕ
  descend depth x seen = elim (contains x seen) [
    | true ↦ seen
    | false ↦ descend_all targets depth (targets x) (x ∷ seen)
  ]

  -- The classes of a list are closed, those of another apart.
  abbrev ClosedBut : List ℕ → List ℕ → Type 0
  ClosedBut seen visited =
      (x : ℕ) → contains x visited ≡ true → contains x seen ≡ false → AllIn visited (targets x)

  module _ (classes : List ℕ)
      (closed : (x : ℕ) → contains x classes ≡ true → AllIn classes (targets x)) where
    -- What a walk from `records` with `seen` gives.
    abbrev Grown : List ℕ → List ℕ → List ℕ → Type 0
    Grown records seen visited =
        Within seen visited
        × AllIn visited records
        × ClosedBut seen visited
        × (IsUnique seen → IsUnique visited)

    descend-Grown :
        (depth x : ℕ) (seen : List ℕ) (b : Bool)
        → contains x seen ≡ b
        → contains x classes ≡ true
        → (contains x seen ≡ false
            → Grown (targets x) (x ∷ seen) (descend_all targets depth (targets x) (x ∷ seen)))
        → Grown (x ∷ []) seen (elim b as (λ _. List ℕ) [
          | true ↦ seen
          | false ↦ descend_all targets depth (targets x) (x ∷ seen)
        ])
    descend-Grown depth x seen true h c rest = (λ y k. k, (h, tt), λ y k n. cc, λ u. u)
    descend-Grown depth x seen false h c rest =
        let visited = descend_all targets depth (targets x) (x ∷ seen) in
        let (more, found, close, unique) = rest h in
        (
          λ y k. more y (contains_later y x seen k),
          (more x (contains_here x seen), tt),
          λ y k n. elim (Bool-cases (y == x)) [
            | inl e ↦ subst (λ z. AllIn visited (targets z)) (sym ((==_iff y x).0 e)) found
            | inr e ↦ close y k (ground arith)
          ],
          λ u. unique (h, u),
        )

    descend_all-Grown :
        (depth : ℕ) (records seen : List ℕ)
        → unseen classes seen < depth
        → AllIn classes records
        → Grown records seen (descend_all targets depth records seen)
    unfolding descend_all
    descend_all-Grown zero records seen m h = absurd (omega arith)
    descend_all-Grown (suc depth) [] seen m h = (λ y k. k, tt, λ y k n. cc, λ u. u)
    descend_all-Grown (suc depth) (x ∷ records) seen m (h, hs) =
        let first = descend depth x seen in
        let (more, (found, _), close, unique) =
          descend-Grown depth x seen (contains x seen) refl h (λ n.
            descend_all-Grown depth (targets x) (x ∷ seen)
              (omega (arith, unseen_drop classes x seen h n)) (closed x h)) in
        let (more', found', close', unique') =
          descend_all-Grown (suc depth) records first
            (omega (arith, unseen_mono classes seen first more)) hs in
        let visited = descend_all targets (suc depth) records first in
        (
          λ y k. more' y (more y k),
          (more' x found, found'),
          λ y k n. elim (Bool-cases (contains y first)) [
            | inl e ↦ AllIn-Within (targets y) first visited more' (close y e n)
            | inr e ↦ close' y k e
          ],
          λ u. unique' (unique u),
        )

  -- What holds of the records, and of the targets of each class of which it holds, holds of all
  -- that a walk visits.
  descend_all-All :
      (P : ℕ → Type 0)
      → ((x : ℕ) → P x → All P (targets x))
      → (depth : ℕ) (records seen : List ℕ) → All P records
      → All P seen
      → All P (descend_all targets depth records seen)
  unfolding descend_all
  descend_all-All P step zero records seen h k = k
  descend_all-All P step (suc depth) [] seen h k = k
  descend_all-All P step (suc depth) (x ∷ records) seen (h, hs) k =
      descend_all-All P step (suc depth) records (descend depth x seen) hs (
        go (contains x seen)
          (descend_all-All P step depth (targets x) (x ∷ seen) (step x h) (h, k)))
    where
      go :
          (b : Bool)
          → All P (descend_all targets depth (targets x) (x ∷ seen))
          → All P (elim b as (λ _. List ℕ) [
            | true ↦ seen
            | false ↦ descend_all targets depth (targets x) (x ∷ seen)
          ])
      go true r = k
      go false r = r

  -- A class that some records lead to.
  pub data Reached (records : List ℕ) : ℕ → Type 0 where
    declared : (x : ℕ) → contains x records ≡ true → Reached records x
    referenced : (x y : ℕ) → Reached records x → contains y (targets x) ≡ true → Reached records y

  each : (P : ℕ → Type 0) (xs : List ℕ) → ((x : ℕ) → contains x xs ≡ true → P x) → All P xs
  each P [] h = tt
  each P (x ∷ xs) h = (h x (contains_here x xs), each P xs (λ y k. h y (contains_later y x xs k)))

  -- If a finite list of classes has the records, and is closed under targets, a walk as deep as the
  -- list is long visits each class once, the records and the targets of what it visits among them,
  -- and only classes that the records lead to.
  pub walk_closure-Reached :
      (classes records : List ℕ)
      → All (λ x. AllIn classes (targets x)) classes
      → AllIn classes records
      → IsUnique (walk_closure targets (length classes) records)
        × AllIn (walk_closure targets (length classes) records) records
        × All
            (λ x. AllIn (walk_closure targets (length classes) records) (targets x))
            (walk_closure targets (length classes) records)
        × All (Reached records) (walk_closure targets (length classes) records)
  unfolding walk_closure
  walk_closure-Reached classes records closed h =
      let visited = descend_all targets (suc (length classes)) records [] in
      let (more, found, close, unique) =
        descend_all-Grown classes (closed_at classes closed) (suc (length classes)) records []
          (omega (arith, unseen-length classes [])) h in
      (
        unique tt,
        found,
        each (λ x. AllIn visited (targets x)) visited (λ x k. close x k refl),
        descend_all-All (Reached records)
            (λ x r. each (Reached records) (targets x) (λ y k. referenced x y r k))
            (suc (length classes)) records [] (each (Reached records) records (λ x k. declared x k))
            tt,
      )
    where
      closed_at :
          (xs : List ℕ)
          → All (λ x. AllIn classes (targets x)) xs
          → (x : ℕ) → contains x xs ≡ true
          → AllIn classes (targets x)
      closed_at [] k x h = cc
      closed_at (y ∷ xs) (k, ks) x h = elim (Bool-cases (x == y)) [
        | inl e ↦ subst (λ z. AllIn classes (targets z)) (sym ((==_iff x y).0 e)) k
        | inr e ↦ closed_at xs ks x (rw e at h)
      ]
