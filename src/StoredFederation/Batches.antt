-- ===== src/StoredFederation/Batches.antt =====
-- `_BatchedCandidateIterator`, which reads a stream in batches. `search` answers the iterator's
-- searches: all candidates in the order of their public ids, or those after an id.
pub mod Whole
use httk_data.Prelude.{
  ℕ, zero, suc, Bool, true, false, Option, none, some, List, [], ◌∷◌, length, take, ltb,
  if◌then◌else◌,
}
use httk_data.StoredFederation.Candidates.{Text, Candidate, public_id}

pub record BatchedCandidateIterator (V : Type 0) : Type 0 where
  pub last_public_id : Option Text
  pub rows : List (Candidate V)
  pub done : Bool

-- How a call of the iterator goes: it returns a candidate, raises StopIteration, or is still in its
-- loop after the rounds it was given.
pub data Turn (V : Type 0) : Type 0 where
  yielded : Candidate V → BatchedCandidateIterator V → Turn V
  stop_iteration : Turn V
  unfinished : Turn V

module _ {V : Type 0} where
  abbrev pub ends : Turn V → Bool
  ends (yielded c it) = true
  ends stop_iteration = true
  ends unfinished = false

  abbrev pub fresh_iterator : BatchedCandidateIterator V
  fresh_iterator = record { last_public_id = none; rows = []; done = false }

  -- `values[-1].public_id`, or the id before.
  abbrev pub last_id : Option Text → List (Candidate V) → Option Text
  last_id before [] = before
  last_id before (c ∷ cs) = last_id (some (public_id c)) cs

module _ {V : Type 0} (search : Option Text → List (Candidate V)) (batch_size : ℕ) where
  -- The next batch of the search.
  abbrev pub refill : BatchedCandidateIterator V → BatchedCandidateIterator V
  refill it =
      let values = take batch_size (search it.last_public_id) in
      record {
        last_public_id = last_id it.last_public_id values;
        rows = values;
        done = ltb (length values) batch_size;
      }

  -- `__next__`, with at most this number of rounds of its loop.
  unfoldable pub next_candidate : ℕ → BatchedCandidateIterator V → Turn V
  next_candidate zero it = unfinished
  next_candidate (suc fuel) it = elim it.rows [
    | c ∷ cs ↦
        let rest : BatchedCandidateIterator V = record {
          last_public_id = it.last_public_id;
          rows = cs;
          done = it.done;
        } in
        yielded c rest
    | [] ↦ elim it.done [ true ↦ stop_iteration | false ↦ next_candidate fuel (refill it) ]
  ]

  -- What the iterator yields, with at most this number of calls of two rounds each, and whether
  -- its last call raised StopIteration.
  unfoldable pub drained : ℕ → BatchedCandidateIterator V → List (Candidate V) × Bool
  drained zero it = ([], false)
  drained (suc calls) it = elim (next_candidate 2 it) [
    | unfinished ↦ ([], false)
    | stop_iteration ↦ ([], true)
    | yielded c rest ↦ let later = drained calls rest in (c ∷ later.0, later.1)
  ]
