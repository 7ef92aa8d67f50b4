-- ===== src/StoredFederation/Streams.antt =====
-- `_streams` of `StoredEntryFederation`.
use httk_data.Prelude.{
  ℕ, ◌+◌, Bool, true, Option, none, some, List, [], ◌∷◌, ◌++◌, if◌then◌else◌, Result, ok, err,
  ◌>>=◌,
}
use httk_data.StoredFederation.Candidates.{Text}
use httk_data.StoredFederation.Select.{CandidateStream}
use httk_data.StoredFederation.Sources.{
  StoredError, plan_error, Condition, Searched, StoredEntrySource, StoredEntryFederation, StreamKey,
  contains_key,
}

abbrev pub selected : Option (List StreamKey) → StreamKey → Bool
selected none key = true
selected (some group) key = contains_key key group

abbrev pub planned : {E A : Type 0} → Result E A → Result (StoredError E) A
planned (ok a) = ok a
planned (err e) = err (plan_error e)

module _ {V F T E : Type 0} where
  -- The streams of one source's candidate searches.
  abbrev pub source_streams :
      Option (List StreamKey)
      → StoredEntrySource V F T E
      → ℕ
      → ℕ
      → List (Searched V)
      → List (CandidateStream V)
  source_streams stream_keys source source_index backing_index [] = []
  source_streams stream_keys source source_index backing_index (searched ∷ rest) =
      let stream : CandidateStream V = record {
        place = record {
          source = source.name;
          source_index = source_index;
          public_id_prefix = source.public_id_prefix;
          backing_name = searched.backing_name;
          backing_index = backing_index;
        };
        rows = searched.rows;
        count = searched.count;
      } in
      let later = source_streams stream_keys source source_index (backing_index + 1) rest in
      if selected stream_keys (source_index, backing_index) then stream ∷ later else later

  abbrev pub source_as_of : StoredEntrySource V F T E → Option T → Option T
  source_as_of source as_of = if source.store_timestamps then as_of else none

  abbrev pub streams_from :
      Condition F
      → List (Text × Bool)
      → Option (List StreamKey)
      → Option T
      → ℕ
      → List (StoredEntrySource V F T E)
      → Result (StoredError E) (List (CandidateStream V))
  streams_from condition sort stream_keys as_of index [] = ok []
  streams_from condition sort stream_keys as_of index (source ∷ sources) =
      planned (
        source.plan.candidate_searchers condition sort source.public_id_prefix
          (source_as_of source as_of))
      >>= λ found. streams_from condition sort stream_keys as_of (index + 1) sources >>= λ later.
          ok (source_streams stream_keys source index 0 found ++ later)

  -- `_streams`
  abbrev pub streams :
      StoredEntryFederation V F T E
      → Condition F
      → List (Text × Bool)
      → Option (List StreamKey)
      → Option T
      → Result (StoredError E) (List (CandidateStream V))
  streams federation condition sort stream_keys as_of =
      streams_from condition sort stream_keys as_of 0 federation.sources
