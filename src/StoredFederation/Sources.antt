-- ===== src/StoredFederation/Sources.antt =====
-- The constructor of `StoredEntryFederation`, `_streams` and the groups of streams that share a
-- prefix. A plan and a store answer as the parameters of a source say.
use httk_data.Prelude.{
  ℕ, zero, suc, ◌+◌, Bool, true, false, not, ◌&&◌, Option, none, some, List, [], ◌∷◌, ◌++◌, map,
  length, any, all, ltb, ◌==◌, if◌then◌else◌, Result, ok, err,
}
use httk_data.Filters.Texts.{same_codes}
use httk_data.StoredFederation.Candidates.{Text, CandidateRow, StoredEntryOrigin}

pub data StoredError (E : Type 0) : Type 0 where
  value_error : StoredError E
  duplicate_entry_id : Text → List StoredEntryOrigin → StoredError E
  plan_error : E → StoredError E

-- The filter of a candidate search: none, the user's, `id = text` or `id > text`.
pub data Condition (F : Type 0) : Type 0 where
  everything : Condition F
  user_filter : F → Condition F
  id_equals : Text → Condition F
  id_after : Text → Condition F

-- A `StoredPropertySqlCandidateStream`.
pub record Searched (V : Type 0) : Type 0 where
  pub backing_name : Text
  pub rows : List (CandidateRow V)
  pub count : ℕ

-- A `StoredPropertySqlPlan`: `candidate_searchers` gets the filter, the sort keys, the prefix of the
-- public ids and the cutoff.
pub record Plan (V F T E : Type 0) : Type 0 where
  pub entry_type : Text
  pub definition_id : Option Text
  pub extends_id : Option Text
  pub backings : ℕ
  pub candidate_searchers :
      Condition F → List (Text × Bool) → Text → Option T → Result E (List (Searched V))

-- A `StoredEntrySource` with its plan and what its store says of timestamps. Entry families are
-- numbered.
pub record StoredEntrySource (V F T E : Type 0) : Type 0 where
  pub name : Text
  pub entry_family : ℕ
  pub public_id_prefix : Text
  pub store_timestamps : Bool
  pub store_timestamp_resolution : ℕ
  pub plan : Plan V F T E

abbrev pub StreamKey : Type 0
StreamKey = ℕ × ℕ

pub record StoredEntryFederation (V F T E : Type 0) : Type 0 where
  pub sources : List (StoredEntrySource V F T E)
  pub page_colliding_streams : List (Text × List StreamKey)
  pub audit_streams : List (Text × List StreamKey)

abbrev pub same_key : StreamKey → StreamKey → Bool
same_key (s, b) (t, c) = s == t && b == c

abbrev pub contains_key : StreamKey → List StreamKey → Bool
contains_key key group = any (same_key key) group

-- `groups.setdefault(prefix, []).append(key)`
abbrev pub add_stream :
    Text → StreamKey → List (Text × List StreamKey) → List (Text × List StreamKey)
add_stream prefix key [] = (prefix, key ∷ []) ∷ []
add_stream prefix key ((other, group) ∷ groups) =
    let later = add_stream prefix key groups in
    if same_codes prefix other then (other, group ++ key ∷ []) ∷ groups else (other, group) ∷ later

abbrev pub several_sources : List StreamKey → Bool
several_sources [] = false
several_sources ((source, backing) ∷ group) = any (λ (key : StreamKey). not (source == key.0)) group

abbrev pub select_groups :
    (List StreamKey → Bool) → List (Text × List StreamKey) → List (Text × List StreamKey)
select_groups test [] = []
select_groups test ((prefix, group) ∷ groups) =
    let later = select_groups test groups in if test group then (prefix, group) ∷ later else later

abbrev pub unique_texts : List Text → Bool
unique_texts [] = true
unique_texts (name ∷ names) = not (any (same_codes name) names) && unique_texts names

abbrev pub same_option : Option Text → Option Text → Bool
same_option none none = true
same_option (some a) (some b) = same_codes a b
same_option none (some b) = false
same_option (some a) none = false

-- The streams of one source, by the positions of its backings.
abbrev pub add_backings :
    ℕ → ℕ → Text → ℕ → List (Text × List StreamKey) → List (Text × List StreamKey)
add_backings source_index backing_index prefix zero groups = groups
add_backings source_index backing_index prefix (suc n) groups =
    add_backings source_index (backing_index + 1) prefix n
      (add_stream prefix (source_index, backing_index) groups)

module _ {V F T E : Type 0} where
  -- `_definition_id`: an empty id is passed over, as `or` does.
  abbrev pub concrete_definition_id : Plan V F T E → Option Text
  concrete_definition_id plan = elim plan.definition_id [
    | none ↦ plan.extends_id
    | some [] ↦ plan.extends_id
    | some (c ∷ cs) ↦ some (c ∷ cs)
  ]

  abbrev pub stream_groups :
      ℕ
      → List (StoredEntrySource V F T E)
      → List (Text × List StreamKey)
      → List (Text × List StreamKey)
  stream_groups index [] groups = groups
  stream_groups index (source ∷ sources) groups =
      stream_groups (index + 1) sources
        (add_backings index 0 source.public_id_prefix source.plan.backings groups)

  abbrev pub same_definition : Plan V F T E → Plan V F T E → Bool
  same_definition first plan =
      same_codes plan.entry_type first.entry_type
      && same_option (concrete_definition_id plan) (concrete_definition_id first)

  abbrev pub grouped : List (StoredEntrySource V F T E) → StoredEntryFederation V F T E
  grouped sources =
      let groups = stream_groups 0 sources [] in
      record {
        sources = sources;
        page_colliding_streams = select_groups several_sources groups;
        audit_streams = select_groups (λ group. ltb 1 (length group)) groups;
      }

  -- `StoredEntryFederation.__init__`
  unfoldable pub new_federation :
      List (StoredEntrySource V F T E) → Result (StoredError E) (StoredEntryFederation V F T E)
  new_federation [] = err value_error
  new_federation (first ∷ rest) =
      if not (unique_texts (map (λ source. source.name) (first ∷ rest)))
      then err value_error
      else if not (all (λ source. source.entry_family == first.entry_family) rest)
      then err value_error
      else if not (all (λ source. same_definition first.plan source.plan) rest)
      then err value_error
      else ok (grouped (first ∷ rest))
