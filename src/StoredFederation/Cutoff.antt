-- ===== src/StoredFederation/Cutoff.antt =====
-- `snapshot_cutoff_ns`.
pub mod Latest
use httk_data.Prelude.{
  ℕ, zero, suc, ◌*◌, ◌/◌, min, Option, none, some, List, [], ◌∷◌, if◌then◌else◌, ℤ, pos, negsuc,
}
use httk_data.StoredFederation.Sources.{StoredEntrySource, StoredEntryFederation}

-- The start of the current unit of a clock, in nanoseconds.
abbrev pub bucket : ℕ → ℕ → ℕ
bucket now_ns resolution = (now_ns / resolution) * resolution

abbrev pub minimum : ℕ → List ℕ → ℕ
minimum least [] = least
minimum least (n ∷ ns) = min least (minimum n ns)

abbrev pub one_less : ℕ → ℤ
one_less zero = negsuc 0
one_less (suc n) = pos n

abbrev pub cutoff_of : List ℕ → Option ℤ
cutoff_of [] = none
cutoff_of (n ∷ ns) = some (one_less (minimum n ns))

module _ {V F T E : Type 0} where
  abbrev pub completed_buckets : ℕ → List (StoredEntrySource V F T E) → List ℕ
  completed_buckets now_ns [] = []
  completed_buckets now_ns (source ∷ sources) =
      let later = completed_buckets now_ns sources in
      if source.store_timestamps
      then bucket now_ns source.store_timestamp_resolution ∷ later
      else later

  unfoldable pub snapshot_cutoff_ns : StoredEntryFederation V F T E → ℕ → Option ℤ
  snapshot_cutoff_ns federation now_ns = cutoff_of (completed_buckets now_ns federation.sources)
