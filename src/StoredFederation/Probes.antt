-- ===== src/StoredFederation/Probes.antt =====
-- `_probe_candidate` and `_probe_public_id`.
use httk_data.Prelude.{
  ℕ, zero, suc, ◌+◌, Option, none, some, List, [], ◌∷◌, ◌++◌, map, length, ltb, if◌then◌else◌,
  Result, ok, err, ◌>>=◌,
}
use httk_data.Filters.Texts.{same_codes}
use httk_data.StoredFederation.Candidates.{Text, Candidate, public_id, origin}
use httk_data.StoredFederation.Select.{CandidateStream, candidates_between}
use httk_data.StoredFederation.Sources.{
  StoredError, duplicate_entry_id, id_equals, StoredEntrySource, StoredEntryFederation, StreamKey,
  same_key,
}
use httk_data.StoredFederation.Streams.{streams}
use httk_data.StoredFederation.Bounds.{content_id_for_public_id, is_empty}

abbrev pub named_group : Text → List (Text × List StreamKey) → Option (List StreamKey)
named_group prefix [] = none
named_group prefix ((other, group) ∷ groups) =
    if same_codes prefix other then some group else named_group prefix groups

abbrev pub without_key : StreamKey → List StreamKey → List StreamKey
without_key key [] = []
without_key key (other ∷ group) =
    let later = without_key key group in if same_key key other then later else other ∷ later

-- The first candidate of each stream, after `set_limit(1)`.
abbrev pub first_matches : {V : Type 0} → List (CandidateStream V) → List (Candidate V)
first_matches [] = []
first_matches (stream ∷ rest) = candidates_between 0 1 stream ++ first_matches rest

-- The end of both probes: more than one match is an error.
abbrev pub at_most_one :
    {V E : Type 0} → Text → List (Candidate V) → Result (StoredError E) (List (Candidate V))
at_most_one id matches =
    if ltb 1 (length matches) then err (duplicate_entry_id id (map origin matches)) else ok matches

abbrev pub candidate_key : {V : Type 0} → Candidate V → StreamKey
candidate_key c = (c.place.source_index, c.place.backing_index)

-- The streams whose prefix `public_id` can have, by the positions of their backings.
abbrev pub possible_backings : ℕ → ℕ → ℕ → List StreamKey
possible_backings source_index backing_index zero = []
possible_backings source_index backing_index (suc n) =
    (source_index, backing_index) ∷ possible_backings source_index (backing_index + 1) n

module _ {V F T E : Type 0} where
  unfoldable pub probe_candidate :
      StoredEntryFederation V F T E
      → Candidate V
      → Option T
      → Result (StoredError E) (List (Candidate V))
  probe_candidate federation c as_of =
      elim (named_group c.place.public_id_prefix federation.page_colliding_streams) [
        | none ↦ ok (c ∷ [])
        | some colliding ↦
            streams federation (id_equals (public_id c)) []
              (some (without_key (candidate_key c) colliding)) as_of
            >>= λ found. at_most_one (public_id c) (c ∷ first_matches found)
      ]

  unfoldable pub probe_all :
      StoredEntryFederation V F T E → List (Candidate V) → Option T → Result (StoredError E) Unit
  probe_all federation [] as_of = ok tt
  probe_all federation (c ∷ cs) as_of =
      probe_candidate federation c as_of >>= λ _. probe_all federation cs as_of

  abbrev pub possible_streams : Text → ℕ → List (StoredEntrySource V F T E) → List StreamKey
  possible_streams id index [] = []
  possible_streams id index (source ∷ sources) =
      let later = possible_streams id (index + 1) sources in
      elim (content_id_for_public_id id source.public_id_prefix) [
        | none ↦ later
        | some value ↦ possible_backings index 0 source.plan.backings ++ later
      ]

  unfoldable pub probe_public_id :
      StoredEntryFederation V F T E → Text → Option T → Result (StoredError E) (List (Candidate V))
  probe_public_id federation id as_of =
      let keys = possible_streams id 0 federation.sources in
      if is_empty keys
      then ok []
      else (streams federation (id_equals id) [] (some keys) as_of >>= λ found.
          at_most_one id (first_matches found))
