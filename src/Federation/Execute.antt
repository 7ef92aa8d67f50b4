-- ===== src/Federation/Execute.antt =====
-- `_execute_plan`, as the stream that its generator yields.
use httk_data.Prelude.{
  ℕ, ◌+◌, min, Bool, false, not, String, Option, none, some, List, [], ◌∷◌, ltb, leb, ◌==◌, length,
  if◌then◌else◌, Result, ok, err,
}
use httk_data.Federation.Stream.{Stream, stop, raise, yield_}
use httk_data.Federation.Child.{Failure, Output, record_output, field_output, origin_output, Types}
use httk_data.Federation.Plan.{
  iteration, FederatedError, source_error, source_failure, child_outputs, with_hidden, Cell, origin,
  cell, FederatedPlan, Sources, open_source,
}

abbrev pub reached : Option ℕ → ℕ → Bool
reached none yielded = false
reached (some n) yielded = leb n yielded

abbrev pub width : List Output → ℕ
width outputs = length (with_hidden (child_outputs outputs))

abbrev pub child_limit_of : ℕ → Option ℕ → Option ℕ
child_limit_of offset none = none
child_limit_of offset (some n) = some (offset + n)

abbrev pub effective_limit : Option ℕ → Option ℕ → Option ℕ
effective_limit limit none = limit
effective_limit none (some m) = some m
effective_limit (some n) (some m) = some (min n m)

module _ (t : Types) where
  open t use {Expression, Argument, Target, Value, Cutoff}

  -- The values of a result row, in the order of the planned outputs.
  unfoldable pub plan_row : String → List Output → List Value → List (Cell t)
  plan_row source [] values = []
  plan_row source (origin_output _ ∷ outputs) values =
      origin source ∷ plan_row source outputs values
  plan_row source (record_output _ ∷ outputs) (v ∷ values) = cell v ∷ plan_row source outputs values
  plan_row source (field_output _ _ ∷ outputs) (v ∷ values) =
      cell v ∷ plan_row source outputs values
  plan_row source (output ∷ outputs) [] = []

  -- The loop over one child's rows, with the rows skipped and yielded so far. `next` goes on with
  -- the next source.
  unfoldable pub emit :
      ℕ
      → Option ℕ
      → List Output
      → String
      → (ℕ → ℕ → Stream FederatedError (List (Cell t)))
      → Stream Failure (List Value)
      → ℕ
      → ℕ
      → Stream FederatedError (List (Cell t))
  unfolding plan_row source_failure
  emit offset limit outputs source next stop skipped yielded = next skipped yielded
  emit offset limit outputs source next (raise e) skipped yielded =
      raise (source_failure source iteration e)
  emit offset limit outputs source next (yield_ row rest) skipped yielded =
      let skip = emit offset limit outputs source next rest (skipped + 1) yielded in
      let more = emit offset limit outputs source next rest skipped (yielded + 1) in
      if not (length row == width outputs)
      then raise (source_error source iteration)
      else if ltb skipped offset
      then skip
      else yield_ (plan_row source outputs row) (if reached limit (yielded + 1) then stop else more)

  abbrev opened :
      ℕ
      → Option ℕ
      → List Output
      → String
      → (ℕ → ℕ → Stream FederatedError (List (Cell t)))
      → Result FederatedError (Stream Failure (List Value))
      → ℕ
      → ℕ
      → Stream FederatedError (List (Cell t))
  opened offset limit outputs source next (err e) skipped yielded = raise e
  opened offset limit outputs source next (ok rows) skipped yielded =
      emit offset limit outputs source next rows skipped yielded

  unfoldable pub run_sources :
      Sources t
      → FederatedPlan t
      → Option ℕ
      → List (String × Target)
      → ℕ
      → ℕ
      → Stream FederatedError (List (Cell t))
  unfolding open_source emit
  run_sources stores p limit [] skipped yielded = stop
  run_sources stores p limit ((source, x) ∷ rest) skipped yielded =
      let next = run_sources stores p limit rest in
      if reached limit yielded
      then stop
      else opened p.offset limit p.outputs source next
          (open_source t stores p source x (child_limit_of p.offset limit)) skipped yielded

  unfoldable pub execute_plan :
      Sources t → FederatedPlan t → Option ℕ → Stream FederatedError (List (Cell t))
  unfolding run_sources
  execute_plan stores p maximum =
      let limit = effective_limit p.limit maximum in
      if reached limit 0 then stop else run_sources stores p limit p.sources 0 0
