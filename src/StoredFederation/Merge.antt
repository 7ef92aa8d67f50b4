-- ===== src/StoredFederation/Merge.antt =====
-- The heaps of `_sorted_candidates` and `audit_duplicate_ids`, which merge sorted streams. A heap
-- is the list of its entries in the order in which `heappop` returns them. An entry is a stream's
-- candidate with the stream's index, and with the rest of the stream, which the code finds in
-- `iterators[index]`.
pub mod Order
pub mod Page
use httk_data.Prelude.{ℕ, zero, suc, ◌+◌, Bool, true, false, List, [], ◌∷◌, ◌++◌, if◌then◌else◌}
use httk_data.Prelude.Comparison.{Comparison, numbers, pairs, at_most}

pub record Entry (A : Type 0) : Type 0 where
  pub index : ℕ
  pub candidate : A
  pub following : List A

module _ {A K : Type 0} (o : Comparison K) (key : A → K) where
  -- The tuple that orders the heap. No two entries have the same index, so candidates are not compared.
  abbrev pub rank : Entry A → K × ℕ
  rank e = (key e.candidate, e.index)

  abbrev pub first_of : Entry A → Entry A → Bool
  first_of e f = at_most (pairs o numbers) (rank e) (rank f)

  unfoldable pub push : Entry A → List (Entry A) → List (Entry A)
  push e [] = e ∷ []
  push e (f ∷ heap) = let later = push e heap in if first_of e f then e ∷ f ∷ heap else f ∷ later

  -- The next candidate of a stream is pushed, if it has one.
  abbrev pub push_next : ℕ → List A → List (Entry A) → List (Entry A)
  push_next index [] heap = heap
  push_next index (x ∷ xs) heap =
      push (record { index = index; candidate = x; following = xs }) heap

  -- The first candidate of each stream.
  unfoldable pub start_heap : ℕ → List (List A) → List (Entry A) → List (Entry A)
  start_heap index [] heap = heap
  start_heap index (xs ∷ streams) heap = start_heap (index + 1) streams (push_next index xs heap)

  -- At most this number of rounds of the loop.
  unfoldable pub merged : ℕ → List (Entry A) → List A
  merged zero heap = []
  merged (suc n) [] = []
  merged (suc n) (e ∷ heap) = e.candidate ∷ merged n (push_next e.index e.following heap)

-- What is in a heap and behind it.
abbrev pub contents : {A : Type 0} → List (Entry A) → List A
contents [] = []
contents (e ∷ heap) = e.candidate ∷ (e.following ++ contents heap)

-- The streams one after the other.
abbrev pub union : {A : Type 0} → List (List A) → List A
union [] = []
union (xs ∷ streams) = xs ++ union streams
