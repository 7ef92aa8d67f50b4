-- ===== src/StoredFederation/Audit.antt =====
-- `audit_duplicate_ids`. The iterators are what they yield; the store does not change meanwhile.
pub mod Outcome
mod Ids
pub mod Batched
use httk_data.Prelude.{
  ℕ, zero, suc, Bool, true, false, not, ◌&&◌, Option, none, some, List, [], ◌∷◌, ◌++◌, map, length,
  ltb, if◌then◌else◌, Result, ok, err, ◌>>=◌,
}
use httk_data.Filters.Texts.{same_codes}
use httk_data.StoredFederation.Merge.{Entry, push_next, start_heap, contents}
use httk_data.StoredFederation.Candidates.{Text, Place, Candidate, public_id, origin, texts}
use httk_data.StoredFederation.Select.{CandidateStream}
use httk_data.StoredFederation.Sources.{
  StoredError, value_error, duplicate_entry_id, everything, StoredEntryFederation, StreamKey,
}
use httk_data.StoredFederation.Streams.{streams}
use httk_data.StoredFederation.Bounds.{id_text, is_empty}
use httk_data.StoredFederation.Batches.{fresh_iterator, drained}

abbrev pub all_keys : List (Text × List StreamKey) → List StreamKey
all_keys [] = []
all_keys ((prefix, group) ∷ groups) = group ++ all_keys groups

module _ {V : Type 0} where
  abbrev pub same_id : Candidate V → Candidate V → Bool
  same_id c d = same_codes (public_id d) (public_id c)

  -- The inner loop: the candidates with the same id are popped. What is left of the heap is used
  -- only if there are none, and is then the heap.
  unfoldable pub same_group : ℕ → Candidate V → List (Entry (Candidate V)) → List (Candidate V)
  same_group zero c heap = []
  same_group (suc n) c [] = []
  same_group (suc n) c (e ∷ heap) =
      let later = same_group n c (push_next texts public_id e.index e.following heap) in
      if same_id c e.candidate then e.candidate ∷ later else []

module _ {V E : Type 0} where
  -- The outer loop, with at most this number of rounds.
  unfoldable pub audit_loop : ℕ → List (Entry (Candidate V)) → Result (StoredError E) Unit
  audit_loop zero heap = ok tt
  audit_loop (suc n) [] = ok tt
  audit_loop (suc n) (e ∷ heap) =
      let next_heap = push_next texts public_id e.index e.following heap in
      let later = audit_loop n next_heap in
      let group = same_group n e.candidate next_heap in
      if is_empty group
      then later
      else err (duplicate_entry_id (public_id e.candidate) (map origin (e.candidate ∷ group)))

  abbrev pub audit_iterators : List (List (Candidate V)) → Result (StoredError E) Unit
  audit_iterators iterators =
      let heap = start_heap texts public_id 0 iterators [] in
      audit_loop (length (contents heap)) heap

-- The candidates of a stream in batches; no stream has more than its search finds.
abbrev pub batched :
    {V : Type 0}
    → (Place → Option Text → List (Candidate V))
    → ℕ
    → CandidateStream V
    → List (Candidate V)
batched search batch_size stream =
    (drained (search stream.place) batch_size (suc (length (search stream.place none)))
      fresh_iterator).0

module _ {V F T E : Type 0} (search : Place → Option Text → List (Candidate V)) where
  unfoldable pub audit_duplicate_ids :
      StoredEntryFederation V F T E → ℕ → Result (StoredError E) Unit
  audit_duplicate_ids federation batch_size =
      let keys = all_keys federation.audit_streams in
      if ltb batch_size 1
      then err value_error
      else if is_empty keys
      then ok tt
      else (streams federation everything ((id_text, false) ∷ []) (some keys) none >>= λ found.
          audit_iterators (map (batched search batch_size) found))
