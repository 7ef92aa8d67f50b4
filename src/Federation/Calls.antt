-- ===== src/Federation/Calls.antt =====
-- The calls of `FederatedSearcher`, and the plans that a sequence of calls freezes.
use httk_data.Prelude.{
  suc, ◌+◌, Bool, true, false, ◌&&◌, String, Option, none, some, List, [], ◌∷◌, ◌++◌, any, str_eq,
  if◌then◌else◌, Result, ok, err, ◌>>=◌, ℤ, pos, negsuc,
}
use httk_data.Federation.Child.{
  FederatedAst, Output, record_output, field_output, origin_output, Types,
}
use httk_data.Federation.Plan.{
  FederatedError, output_stage, at_stage, output_name, FederatedPlan, Sources, bind_source,
  find_source,
}
use httk_data.Federation.Builder.{
  BuilderError, second_variable, foreign_target, no_variable, foreign_expression, bad_name,
  duplicate_name, foreign_output, no_outputs, bad_limit, bad_offset, no_sorting, source_raised,
  Projection, origin_sentinel, root_variable, root_field, foreign, raised, TargetArgument,
  Prototype, Searcher, frozen, require_variable, owned, bind_all, add_to,
}

abbrev output_of : String → Projection → Option Output
output_of name origin_sentinel = some (origin_output name)
output_of name root_variable = some (record_output name)
output_of name (root_field path) = some (field_output name path)
output_of name foreign = none

abbrev is_origin : Projection → Bool
is_origin origin_sentinel = true
is_origin p = false

abbrev pub is_empty : List Output → Bool
is_empty [] = true
is_empty (o ∷ os) = false

module _ (t : Types) where
  open t use {Argument, Target, Cutoff}

  -- A call of the builder. An argument that is not an expression of this searcher, or not an
  -- integer, is `none`.
  pub data Call : Type 0 where
    variable : TargetArgument t → Call
    add : Option (FederatedAst Argument) → Call
    output : Projection → String → Call
    add_sort : Call
    set_limit : Option ℤ → Call
    add_offset : Option ℤ → Call
    count : Call
    iterate : Call
    results : List (String × Projection) → Call

  -- The validation of an output by a new child searcher of each source.
  unfoldable pub validate_output :
      Sources t
      → FederatedPlan t
      → Output
      → List (String × Target)
      → Result FederatedError (Unit {0})
  validate_output stores p o [] = ok tt
  validate_output stores p o ((source, x) ∷ rest) = do
    done ←
        at_stage source output_stage
          (bind_source t (find_source source stores) p x >>= (λ (c, q). c.project q o))
    validate_output stores p o rest

  abbrev validated :
      Sources t → FederatedPlan t → Projection → Option Output → Result BuilderError Output
  validated stores p value none = err foreign_output
  validated stores p value (some o) =
      if is_origin value
      then ok o
      else raised (validate_output stores p o p.sources >>= (λ done. ok o))

  -- `_output`
  unfoldable pub new_output :
      Sources t → Searcher t → Bool → Projection → String → Result BuilderError Output
  unfolding validate_output
  new_output stores s retain value name = do
    ps ← require_variable t s
    if str_eq name ""
        then err bad_name
        else if retain && any (λ o. str_eq (output_name o) name) s.outputs
        then err duplicate_name
        else validated stores (frozen t s ps []) value (output_of name value)

  unfoldable pub new_outputs :
      Sources t → Searcher t → List (String × Projection) → Result BuilderError (List Output)
  unfolding new_output
  new_outputs stores s [] = ok []
  new_outputs stores s ((name, value) ∷ rest) = do
    o ← new_output stores s false value name
    others ← new_outputs stores s rest
    ok (o ∷ others)

  unfoldable pub planned :
      Sources t → Searcher t → List (String × Projection) → Result BuilderError (List Output)
  unfolding new_outputs
  planned stores s [] = ok s.outputs
  planned stores s (o ∷ rest) = new_outputs stores s (o ∷ rest)

  -- `_plan`
  unfoldable pub plan :
      Sources t
      → Searcher t
      → List (String × Projection)
      → Bool
      → Result BuilderError (FederatedPlan t)
  unfolding planned
  plan stores s outputs require_outputs = do
    ps ← require_variable t s
    os ← planned stores s outputs
    if require_outputs && is_empty os then err no_outputs else ok (frozen t s ps os)

  abbrev pub bound :
      Searcher t
      → Result FederatedError (List (Prototype t))
      → Result BuilderError (Unit {0}) × Searcher t
  bound s (err e) = (err (source_raised e), s)
  bound s (ok ps) = (ok tt, record s { prototypes = some ps })

  -- A new condition makes another unpaged query, so it takes a new cache.
  abbrev pub added :
      Searcher t
      → FederatedAst Argument
      → Option FederatedError × List (Prototype t)
      → Result BuilderError (Unit {0}) × Searcher t
  added s a (some e, ps) = (err (source_raised e), record s { prototypes = some ps })
  added s a (none, ps) = (
    ok tt,
    record s {
      prototypes = some ps;
      expressions = s.expressions ++ a ∷ [];
      count_cache = s.next_cache;
      next_cache = suc s.next_cache;
    },
  )

  abbrev pub add_checked :
      Searcher t
      → Option (FederatedAst Argument)
      → Option (List (Prototype t))
      → Result BuilderError (Unit {0}) × Searcher t
  add_checked s a none = (err no_variable, s)
  add_checked s none (some ps) = (err foreign_expression, s)
  add_checked s (some a) (some ps) = added s a (add_to t a ps)

  abbrev pub variable_checked :
      Sources t
      → Searcher t
      → TargetArgument t
      → Option (List (Prototype t))
      → Result BuilderError (Unit {0}) × Searcher t
  variable_checked stores s x (some ps) = (err second_variable, s)
  variable_checked stores s x none =
      if owned t x
      then bound s (bind_all t (frozen t s [] []) x stores)
      else (err foreign_target, s)

  abbrev pub declared :
      Searcher t → Result BuilderError Output → Result BuilderError (Unit {0}) × Searcher t
  declared s (err e) = (err e, s)
  declared s (ok o) = (ok tt, record s { outputs = s.outputs ++ o ∷ [] })

  abbrev pub limited : Searcher t → Option ℤ → Result BuilderError (Unit {0}) × Searcher t
  limited s none = (err bad_limit, s)
  limited s (some (pos n)) = (ok tt, record s { limit = some n })
  limited s (some (negsuc n)) = (ok tt, record s { limit = none })

  abbrev pub moved : Searcher t → Option ℤ → Result BuilderError (Unit {0}) × Searcher t
  moved s (some (pos n)) = (ok tt, record s { offset = s.offset + n })
  moved s _ = (err bad_offset, s)

  -- What a call does to the searcher, and what it raises.
  unfoldable pub call : Sources t → Searcher t → Call → Result BuilderError (Unit {0}) × Searcher t
  unfolding bind_all add_to new_output
  call stores s (variable x) = variable_checked stores s x s.prototypes
  call stores s (add a) = add_checked s a s.prototypes
  call stores s (output value name) = declared s (new_output stores s true value name)
  call stores s add_sort = (err no_sorting, s)
  call stores s (set_limit n) = limited s n
  call stores s (add_offset n) = moved s n
  call stores s _ = (ok tt, s)

  -- The plan that a call executes or freezes.
  unfoldable pub call_plan :
      Sources t → Searcher t → Call → Result BuilderError (Option (FederatedPlan t))
  unfolding plan
  call_plan stores s count = plan stores s [] false >>= (λ p. ok (some p))
  call_plan stores s iterate = plan stores s [] true >>= (λ p. ok (some p))
  call_plan stores s (results outputs) = plan stores s outputs true >>= (λ p. ok (some p))
  call_plan stores s _ = ok none

  abbrev pub with_plan :
      Result BuilderError (Option (FederatedPlan t))
      → List (FederatedPlan t)
      → List (FederatedPlan t)
  with_plan (ok (some p)) later = p ∷ later
  with_plan _ later = later

  -- The plans of a sequence of calls.
  unfoldable pub plans : Sources t → Searcher t → List Call → List (FederatedPlan t)
  unfolding call call_plan
  plans stores s [] = []
  plans stores s (c ∷ rest) =
      with_plan (call_plan stores s c) (plans stores ((call stores s c).1) rest)
