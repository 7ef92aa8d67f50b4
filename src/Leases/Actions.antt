-- ===== src/Leases/Actions.antt =====
-- `LeaseTiming`, `Lease` with its two methods, the two queries for writers and `clear_stale_lock`.
use httk_data.Prelude.{
  ℕ, ◌+◌, ◌*◌, Bool, true, false, not, ◌&&◌, List, [], ◌∷◌, ltb, ◌==◌, if◌then◌else◌, Result, ok,
  err,
}
use httk_data.Leases.Server.{Server, DocumentId, fsck, contains_id, is_present}

-- The exceptions: `StoreLockedError`, its subclass `LeaseLostError`, and a plain `RuntimeError`.
pub data LeaseError : Type 0 where
  store_locked : LeaseError
  lease_lost : LeaseError
  missing_generation : LeaseError

-- Milliseconds, where the source has seconds as floats.
pub record LeaseTiming : Type 0 where
  pub refresh_interval : ℕ
  pub stale_multiplier : ℕ
  pub poll_initial : ℕ
  pub poll_max : ℕ

abbrev pub default_timing : LeaseTiming
default_timing = record {
  refresh_interval = 2000;
  stale_multiplier = 4;
  poll_initial = 20;
  poll_max = 250;
}

abbrev pub stale_after : LeaseTiming → ℕ
stale_after t = t.refresh_interval * t.stale_multiplier

pub record Lease : Type 0 where
  pub identifier : DocumentId
  pub owner : ℕ
  pub timing : LeaseTiming
  pub last_refresh : ℕ

abbrev pub cutoff_ms : Lease → ℕ
cutoff_ms l = stale_after l.timing

abbrev is_empty : List DocumentId → Bool
is_empty [] = true
is_empty (_ ∷ _) = false

-- The ids of `all` that are not among `fresh`.
abbrev pub without_ids : List DocumentId → List DocumentId → List DocumentId
without_ids fresh [] = []
without_ids fresh (i ∷ all) =
    if contains_id i fresh then without_ids fresh all else i ∷ without_ids fresh all

module _ (s : Server) where
  open s use {
    Db, update_heartbeat, delete_owned, delete_stale_fsck, newer_writers, all_writers, find,
  }

  -- What the update answers: a match count of zero raises `LeaseLostError`.
  abbrev refreshed : ℕ → Lease → Db × ℕ → Result LeaseError Lease × Db
  refreshed after l (d, matched) =
      if matched == 0 then (err lease_lost, d) else (ok (record l { last_refresh = after }), d)

  -- `before` and `after` are the two readings of `time.monotonic()`.
  unfoldable pub refresh_heartbeat : Bool → ℕ → ℕ → Lease → Db → Result LeaseError Lease × Db
  refresh_heartbeat force before after l d =
      if not force && ltb (2 * before) (l.timing.refresh_interval + 2 * l.last_refresh)
      then (ok l, d)
      else refreshed after l (update_heartbeat l.identifier l.owner d)

  unfoldable pub release : Lease → Db → Db
  release l d = delete_owned l.identifier l.owner d

  unfoldable pub fresh_writer_documents : LeaseTiming → Db → List DocumentId
  fresh_writer_documents t d = newer_writers (stale_after t) d

  -- Both queries on one state of the collection.
  unfoldable pub stale_writer_documents : LeaseTiming → Db → List DocumentId
  unfolding fresh_writer_documents
  stale_writer_documents t d = without_ids (fresh_writer_documents t d) (all_writers d)

  abbrev cleared : Db × ℕ → Result LeaseError (Unit {0}) × Db
  cleared (d, deleted) =
      if deleted == 0 && is_present (find d fsck) then (err store_locked, d) else (ok tt, d)

  unfoldable pub clear_stale_lock : LeaseTiming → Db → Result LeaseError (Unit {0}) × Db
  clear_stale_lock t d = cleared (delete_stale_fsck (stale_after t) d)
