-- ===== src/Federation/Tests.antt =====
-- A federation of two child stores in memory, and an instance of each theorem about it.
use httk_data.Prelude.{
  ℕ, ◌≡◌, refl, Bool, str_eq, true, false, not, ◌&&◌, ◌||◌, String, none, some, List, [], ◌∷◌, map,
  length, ltb, if◌then◌else◌, Result, ok, err, pos, ◌⊎◌, inl,
}
use httk_data.Federation.Stream.{of_list}
use httk_data.Federation.Child.{
  Failure, unsupported, predicate, negation, record_output, origin_output, Types, ChildStore,
}
use httk_data.Federation.Plan.{FederatedError, origin, cell, FederatedPlan, Sources, open_source}
use httk_data.Federation.Execute.{plan_row, execute_plan}
use httk_data.Federation.Count.{Caches, count_source, count_plan}
use httk_data.Federation.Results.{
  slice, absent, integer, get_item, len, first, one, multiple_results,
}
use httk_data.Federation.Limits.{take_limit}
use httk_data.Federation.Union.{Serves, execute_plan-union}
use httk_data.Federation.Page.{shown, first-shown, one-shown, get_item-shown}
use httk_data.Federation.Counting.{len-shown}
use httk_data.Federation.Caching.{count_plan-again}

-- Records are numbers, and the only operation is a comparison with `__gt__`.
abbrev pub numbers : Types
numbers = record { Expression = ℕ → Bool; Argument = ℕ; Target = Unit {0}; Value = ℕ; Cutoff = ℕ }

abbrev passes : List (ℕ → Bool) → ℕ → Bool
passes [] n = true
passes (p ∷ ps) n = p n && passes ps n

abbrev matching : List (ℕ → Bool) → List ℕ → List ℕ
matching tests [] = []
matching tests (n ∷ ns) = let rest = matching tests ns in if passes tests n then n ∷ rest else rest

abbrev greater : String → List ℕ → Result Failure (ℕ → Bool)
greater op (n ∷ []) = if str_eq op "__gt__" then ok (ltb n) else err unsupported
greater op _ = err unsupported

abbrev child : List ℕ → ChildStore numbers
child records = record {
  bind = λ as_of only_latest x. ok tt;
  always = λ x b. ok (λ n. b);
  test = λ x path op arguments. greater op arguments;
  both = λ p q. ok (λ n. p n && q n);
  either = λ p q. ok (λ n. p n || q n);
  inverse = λ p. ok (λ n. not (p n));
  accept = λ q e. ok tt;
  project = λ q o. ok tt;
  limit_to = λ q n. ok tt;
  count = λ q. ok (length (matching q.expressions records));
  iterate = λ q. ok (
      of_list
        (take_limit q.limit (map (λ n. map (λ o. n) q.outputs) (matching q.expressions records))));
}

abbrev pub stores : Sources numbers
stores = ("a", child (1 ∷ 5 ∷ 7 ∷ [])) ∷ ("b", child (2 ∷ 9 ∷ [])) ∷ []

abbrev plan : FederatedPlan numbers
plan = record {
  sources = ("b", tt) ∷ ("a", tt) ∷ [];
  expressions = negation (predicate ("size" ∷ []) "__gt__" (6 ∷ [])) ∷ [];
  outputs = origin_output "source" ∷ record_output "record" ∷ [];
  offset = 1;
  limit = none;
  as_of = none;
  only_latest = false;
  count_cache = 0;
}

abbrev rows : String → Unit {0} → List (List ℕ)
rows source x = if str_eq source "a" then (1 ∷ []) ∷ (5 ∷ []) ∷ [] else (2 ∷ []) ∷ []

yielded :
    execute_plan numbers stores plan none
    ≡ of_list ((origin "a" ∷ cell 1 ∷ []) ∷ (origin "a" ∷ cell 5 ∷ []) ∷ [])
unfolding execute_plan
yielded = refl

a-Serves : Serves numbers stores plan rows ("a", tt)
unfolding open_source
a-Serves = (
  λ l.
      elim l
        as (λ l'.
          open_source numbers stores plan "a" tt l' ≡ ok (of_list (take_limit l' (rows "a" tt)))) [
            | none ↦ refl
            | some n ↦ refl
          ],
  (refl, (refl, tt)),
)

b-Serves : Serves numbers stores plan rows ("b", tt)
unfolding open_source
b-Serves = (
  λ l.
      elim l
        as (λ l'.
          open_source numbers stores plan "b" tt l' ≡ ok (of_list (take_limit l' (rows "b" tt)))) [
            | none ↦ refl
            | some n ↦ refl
          ],
  (refl, tt),
)

execute_plan-union_example :
    execute_plan numbers stores plan (some 1) ≡ of_list ((origin "a" ∷ cell 1 ∷ []) ∷ [])
unfolding plan_row
execute_plan-union_example =
    execute_plan-union numbers stores plan rows (some 1) (b-Serves, (a-Serves, tt))

first-shown_example : first numbers stores plan ≡ ok (some (origin "a" ∷ cell 1 ∷ []))
unfolding plan_row
first-shown_example = first-shown numbers stores plan rows (b-Serves, (a-Serves, tt))

one-shown_example : one numbers stores plan ≡ err multiple_results
one-shown_example = one-shown numbers stores plan rows (b-Serves, (a-Serves, tt))

get_item-shown_example :
    (q : FederatedPlan numbers) × (get_item numbers plan (slice (integer (pos 1)) absent absent)
      ≡ ok q)
    × (shown numbers q rows ≡ (origin "a" ∷ cell 5 ∷ []) ∷ [])
    × (q.count_cache ≡ 0)
unfolding plan_row
get_item-shown_example =
    get_item-shown numbers plan rows (integer (pos 1)) absent absent 1 none refl refl refl

a_counts : count_source numbers stores plan "a" tt ≡ ok 2
unfolding count_source
a_counts = refl

b_counts : count_source numbers stores plan "b" tt ≡ ok 1
unfolding count_source
b_counts = refl

len-shown_example :
    (after : Caches numbers) × (len numbers stores plan (λ i. none) ≡ (ok 2, after))
    × ((after 0 ≡ none) ⊎ (after 0 ≡ some 3))
len-shown_example =
    len-shown numbers stores plan rows (λ i. none) (b_counts, (a_counts, tt)) (inl refl)

count_plan-again_example :
    ((e : FederatedError)
      → (count_plan numbers stores plan (λ i. none)).0 ≡ err e
      → (count_plan numbers stores plan (λ i. none)).1 ≡ (λ i. none))
    × ((n : ℕ) (changed : Sources numbers)
        → (count_plan numbers stores plan (λ i. none)).0 ≡ ok n
        → count_plan numbers changed plan ((count_plan numbers stores plan (λ i. none)).1)
          ≡ (ok n, (count_plan numbers stores plan (λ i. none)).1))
count_plan-again_example = count_plan-again numbers stores plan (λ i. none)

recounted :
    count_plan numbers [] plan ((count_plan numbers stores plan (λ i. none)).1)
    ≡ (ok 3, (count_plan numbers stores plan (λ i. none)).1)
unfolding count_plan
recounted = refl
