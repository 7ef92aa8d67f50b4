-- ===== src/Federation/Results.antt =====
-- `FederatedResultSet`: the length, the slices and the row access of a frozen plan.
use httk_data.Prelude.{
  ℕ, ◌+◌, ◌-◌, min, Bool, true, false, Option, none, some, List, ◌==◌, if◌then◌else◌, Result, ok,
  err, ◌>>=◌, ℤ, pos,
}
use httk_data.Federation.Stream.{Stream, stop, raise, yield_}
use httk_data.Federation.Child.{Types}
use httk_data.Federation.Plan.{FederatedError, Cell, FederatedPlan, Sources}
use httk_data.Federation.Execute.{execute_plan}
use httk_data.Federation.Count.{Caches, count_plan}

-- A slice's bound as Python passes it: `None`, an integer, or another object.
pub data Bound : Type 0 where
  absent : Bound
  integer : ℤ → Bound
  other : Bound

pub data Item : Type 0 where
  slice : Bound → Bound → Bound → Item
  not_a_slice : Item

-- What the result set itself raises, or passes on from its sources.
pub data ResultError : Type 0 where
  slicing_only unit_step_only nonnegative_only no_result multiple_results : ResultError
  source_raised : FederatedError → ResultError

-- A step of `None` or of the integer one.
abbrev pub unit_step : Bound → Bool
unit_step absent = true
unit_step (integer (pos n)) = n == 1
unit_step _ = false

abbrev pub start_of : Bound → Option ℕ
start_of absent = some 0
start_of (integer (pos n)) = some n
start_of _ = none

abbrev pub stop_of : Bound → Option (Option ℕ)
stop_of absent = some none
stop_of (integer (pos n)) = some (some n)
stop_of _ = none

-- The limit of a slice, from the limit of the plan.
abbrev pub remaining : Option ℕ → ℕ → Option ℕ → Option ℕ
remaining none start none = none
remaining none start (some end) = some (end - start)
remaining (some n) start none = some (n - start)
remaining (some n) start (some end) = some (min (n - start) (end - start))

-- `max(total - offset, 0)`, under the limit.
abbrev pub available : Option ℕ → ℕ → ℕ → ℕ
available none offset total = total - offset
available (some n) offset total = min (total - offset) n

abbrev pub limited_to_none : Option ℕ → Bool
limited_to_none none = false
limited_to_none (some n) = n == 0

module _ (t : Types) where
  abbrev pub sliced_plan : FederatedPlan t → ℕ → Option ℕ → FederatedPlan t
  sliced_plan p start end = record p {
    offset = p.offset + start;
    limit = remaining p.limit start end;
  }

  abbrev bounded :
      FederatedPlan t → Option ℕ → Option (Option ℕ) → Result ResultError (FederatedPlan t)
  bounded p (some start) (some end) = ok (sliced_plan p start end)
  bounded p _ _ = err nonnegative_only

  -- `__getitem__`
  unfoldable pub get_item : FederatedPlan t → Item → Result ResultError (FederatedPlan t)
  get_item p not_a_slice = err slicing_only
  get_item p (slice start end step) =
      if unit_step step then bounded p (start_of start) (stop_of end) else err unit_step_only

  abbrev counted :
      FederatedPlan t → Result FederatedError ℕ × Caches t → Result ResultError ℕ × Caches t
  counted p (ok total, caches) = (ok (available p.limit p.offset total), caches)
  counted p (err e, caches) = (err (source_raised e), caches)

  -- `__len__`
  unfoldable pub len : Sources t → FederatedPlan t → Caches t → Result ResultError ℕ × Caches t
  unfolding count_plan
  len stores p caches =
      if limited_to_none p.limit then (ok 0, caches) else counted p (count_plan t stores p caches)

  -- `next(results, None)`, and the rest of the generator.
  abbrev next_row :
      Stream FederatedError (List (Cell t))
      → Result ResultError (Option (List (Cell t)) × Stream FederatedError (List (Cell t)))
  next_row stop = ok (none, stop)
  next_row (raise e) = err (source_raised e)
  next_row (yield_ row rest) = ok (some row, rest)

  abbrev pub first_of :
      Stream FederatedError (List (Cell t)) → Result ResultError (Option (List (Cell t)))
  first_of results = do (row, _) ← next_row results; ok row

  unfoldable pub first : Sources t → FederatedPlan t → Result ResultError (Option (List (Cell t)))
  unfolding execute_plan
  first stores p = first_of (execute_plan t stores p (some 1))

  abbrev only : List (Cell t) → Option (List (Cell t)) → Result ResultError (List (Cell t))
  only row none = ok row
  only row (some _) = err multiple_results

  abbrev sole :
      Option (List (Cell t)) × Stream FederatedError (List (Cell t))
      → Result ResultError (List (Cell t))
  sole (none, rest) = err no_result
  sole (some row, rest) = do (second, _) ← next_row rest; only row second

  abbrev pub one_of : Stream FederatedError (List (Cell t)) → Result ResultError (List (Cell t))
  one_of results = do next ← next_row results; sole next

  unfoldable pub one : Sources t → FederatedPlan t → Result ResultError (List (Cell t))
  unfolding execute_plan
  one stores p = one_of (execute_plan t stores p (some 2))
