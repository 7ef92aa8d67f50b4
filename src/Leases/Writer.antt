-- ===== src/Leases/Writer.antt =====
-- `acquire_writer`: whole, and as the sequence of database calls that other processes may
-- interleave with. UUIDs are numbers that the caller draws.
use httk_data.Prelude.{ℕ, Bool, true, false, Option, none, some, if◌then◌else◌, Result, ok, err}
use httk_data.Leases.Server.{Server, Document, layout, fsck, writer, is_present}
use httk_data.Leases.Actions.{
  LeaseError, store_locked, missing_generation, LeaseTiming, Lease, refresh_heartbeat, release,
}

pub record WriterLease : Type 0 where
  pub lease : Lease
  pub generation : ℕ

abbrev pub new_writer_lease : ℕ → ℕ → LeaseTiming → ℕ → Lease
new_writer_lease u o t monotonic = record {
  identifier = writer u;
  owner = o;
  timing = t;
  last_refresh = monotonic;
}

abbrev pub generation_field : Option ℕ → Result LeaseError ℕ
generation_field none = err missing_generation
generation_field (some g) = ok g

abbrev pub generation_of : Option Document → Result LeaseError ℕ
generation_of none = err missing_generation
generation_of (some d) = generation_field d.generation

-- Where a writer stands between two database calls. `leaving` is about to release its lease.
pub data Writer : Type 0 where
  start : Writer
  checking : Lease → Writer
  held : WriterLease → Writer
  leaving : Lease → Option LeaseError → Writer
  gone : Option LeaseError → Writer

-- Its document is in the collection, and it has not failed.
abbrev pub is_registered : Writer → Bool
is_registered (checking _) = true
is_registered (held _) = true
is_registered _ = false

abbrev pub is_held : Writer → Bool
is_held (held _) = true
is_held _ = false

module _ (s : Server) where
  open s use {Db, find, upsert_writer}

  -- The reads after the insertion: the fsck lease first, then the generation of the layout.
  unfoldable pub observe : Db → Result LeaseError ℕ
  observe d = if is_present (find d fsck) then err store_locked else generation_of (find d layout)

  abbrev pub checked : Lease → Db → Result LeaseError ℕ → Result LeaseError WriterLease × Db
  checked l d (ok g) = (ok (record { lease = l; generation = g }), d)
  checked l d (err e) = (err e, release s l d)

  unfoldable pub acquire_writer : ℕ → ℕ → LeaseTiming → ℕ → Db → Result LeaseError WriterLease × Db
  acquire_writer u o t monotonic d =
      let d' = upsert_writer u o d in checked (new_writer_lease u o t monotonic) d' (observe d')

  abbrev pub after_check : Lease → Result LeaseError ℕ → Writer
  after_check l (ok g) = held (record { lease = l; generation = g })
  after_check l (err e) = leaving l (some e)

  -- The next call of a writer with the UUID `u` and the owner `o`.
  unfoldable pub writer_step : ℕ → ℕ → LeaseTiming → ℕ → Writer → Db → Writer × Db
  unfolding observe release
  writer_step u o t monotonic start d =
      (checking (new_writer_lease u o t monotonic), upsert_writer u o d)
  writer_step u o t monotonic (checking l) d = (after_check l (observe d), d)
  writer_step u o t monotonic (leaving l e) d = (gone e, release s l d)
  writer_step u o t monotonic w d = (w, d)

  abbrev pub after_beat : WriterLease → Result LeaseError Lease → Writer
  after_beat w (ok l) = held (record w { lease = l })
  after_beat w (err e) = leaving w.lease (some e)

  -- A heartbeat of a writer that holds its lease; an exception ends its block.
  unfoldable pub writer_beat : Bool → ℕ → ℕ → Writer → Db → Writer × Db
  unfolding refresh_heartbeat
  writer_beat force before after (held w) d =
      let (r, d') = refresh_heartbeat s force before after w.lease d in (after_beat w r, d')
  writer_beat force before after w d = (w, d)

  -- The end of a block that holds the lease.
  unfoldable pub writer_finish : Writer → Writer
  writer_finish (held w) = leaving w.lease none
  writer_finish w = w
