-- ===== src/StorageLayout/Closure/Tests.antt =====
-- Four classes of which two reference each other.
use httk_data.Prelude.{ℕ, zero, suc, ◌≡◌, refl, List, [], ◌∷◌, All}
use httk_data.StorageLayout.Closure.{descend_all, walk_closure}
use httk_data.StorageLayout.Closure.Visits.{AllIn, IsUnique, Reached, walk_closure-Reached}

-- Class 0 references 1 and 2, and classes 1 and 2 reference each other; class 3 is apart.
abbrev targets : ℕ → List ℕ
targets zero = 1 ∷ 2 ∷ []
targets (suc zero) = 2 ∷ []
targets (suc (suc zero)) = 1 ∷ []
targets (suc (suc (suc n))) = []

abbrev classes : List ℕ
classes = 0 ∷ 1 ∷ 2 ∷ 3 ∷ []

visited : walk_closure targets 4 (0 ∷ 1 ∷ []) ≡ 2 ∷ 1 ∷ 0 ∷ []
unfolding walk_closure descend_all
visited = refl

walk_closure-Reached_example :
    IsUnique (walk_closure targets 4 (0 ∷ 1 ∷ []))
    × AllIn (walk_closure targets 4 (0 ∷ 1 ∷ [])) (0 ∷ 1 ∷ [])
    × All
        (λ x. AllIn (walk_closure targets 4 (0 ∷ 1 ∷ [])) (targets x))
        (walk_closure targets 4 (0 ∷ 1 ∷ []))
    × All (Reached targets (0 ∷ 1 ∷ [])) (walk_closure targets 4 (0 ∷ 1 ∷ []))
walk_closure-Reached_example =
    walk_closure-Reached targets classes (0 ∷ 1 ∷ [])
      ((refl, (refl, tt)), ((refl, tt), ((refl, tt), (tt, tt)))) (refl, (refl, tt))
