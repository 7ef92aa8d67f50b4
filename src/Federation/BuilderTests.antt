-- ===== src/Federation/BuilderTests.antt =====
-- A federated query as it is built, and an instance of the theorem about its count caches.
use httk_data.Prelude.{ℕ, ◌≡◌, refl, false, none, some, List, [], ◌∷◌, arith, map, pos}
use httk_data.Federation.Child.{predicate, negation, FederatedAst}
use httk_data.Federation.Builder.{new_searcher, shared, origin_sentinel, root_variable}
use httk_data.Federation.Calls.{
  Call, variable, add, output, set_limit, add_offset, count, iterate, results, plans,
}
use httk_data.Federation.SharedCache.{Pairwise, SharesCache, plans-SharesCache}
use httk_data.Federation.Tests.{numbers, stores}

abbrev above : ℕ → FederatedAst ℕ
above n = predicate ("size" ∷ []) "__gt__" (n ∷ [])

-- The second condition comes after the first count and the first results.
abbrev calls : List (Call numbers)
calls =
    variable (shared tt)
    ∷ add (some (above 1))
    ∷ count
    ∷ output root_variable "record"
    ∷ set_limit (some (pos 3))
    ∷ iterate
    ∷ add (some (negation (above 6)))
    ∷ results (("source", origin_sentinel) ∷ [])
    ∷ add_offset (some (pos 1))
    ∷ count
    ∷ []

caches_of_calls :
    map (λ p. p.count_cache) (plans numbers stores (new_searcher numbers none false 0) calls)
    ≡ 1 ∷ 1 ∷ 2 ∷ 2 ∷ []
unfolding plans
caches_of_calls = refl

plans-SharesCache_example :
    Pairwise (SharesCache numbers) (plans numbers stores (new_searcher numbers none false 0) calls)
plans-SharesCache_example =
    plans-SharesCache numbers stores calls (new_searcher numbers none false 0) (omega arith)
