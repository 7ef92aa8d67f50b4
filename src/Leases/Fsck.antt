-- ===== src/Leases/Fsck.antt =====
-- `acquire_fsck` as the sequence of its database calls.
use httk_data.Prelude.{
  ℕ, ◌*◌, min, Bool, true, false, Option, none, some, List, [], ◌∷◌, if◌then◌else◌, Result, ok, err,
}
use httk_data.Leases.Server.{Server, DocumentId}
use httk_data.Leases.Server
use httk_data.Leases.Actions.{
  LeaseError, store_locked, LeaseTiming, Lease, stale_after, without_ids, refresh_heartbeat,
  release, fresh_writer_documents,
}

-- Where `acquire_fsck` stands between two calls. `rechecking` and `listing` are the two queries of
-- `_stale_writer_documents`; `leaving` is about to release its lease.
pub data Fsck : Type 0 where
  installing : Fsck
  replacing : Fsck
  opening : Lease → Fsck
  polling : Lease → ℕ → Fsck
  rechecking : Lease → ℕ → Fsck
  listing : Lease → ℕ → List DocumentId → Fsck
  sleeping : Lease → ℕ → Fsck
  held : Lease → Fsck
  leaving : Lease → Option LeaseError → Fsck
  gone : Option LeaseError → Fsck

abbrev pub new_fsck_lease : Bool → ℕ → LeaseTiming → ℕ → Lease
new_fsck_lease force o t monotonic = record {
  identifier = Server.fsck;
  owner = o;
  timing = t;
  last_refresh = if force then monotonic else 0;
}

-- Its document is installed, and it has not failed.
abbrev pub is_installed : Fsck → Bool
is_installed installing = false
is_installed replacing = false
is_installed (leaving _ _) = false
is_installed (gone _) = false
is_installed _ = true

-- A poll has found no fresh writer.
abbrev pub is_drained : Fsck → Bool
is_drained (rechecking _ _) = true
is_drained (listing _ _ _) = true
is_drained (held _) = true
is_drained _ = false

abbrev pub is_held : Fsck → Bool
is_held (held _) = true
is_held _ = false

abbrev pub polled : Lease → ℕ → List DocumentId → Fsck
polled l delay [] = rechecking l delay
polled l delay (_ ∷ _) = sleeping l delay

abbrev pub listed : Bool → Lease → List DocumentId → Fsck
listed force l [] = held l
listed force l (_ ∷ _) = if force then held l else leaving l (some store_locked)

abbrev pub after_beat : Lease → ℕ → Result LeaseError Lease → Fsck
after_beat l delay (ok l') = polling l' delay
after_beat l delay (err e) = leaving l (some e)

module _ (s : Server) where
  open s use {Db, insert_fsck, replace_stale_fsck, all_writers}

  abbrev pub installed : Bool → Lease → Db → Option Db → Fsck × Db
  installed force l d (some d') = (opening l, d')
  installed force l d none = (if force then replacing else gone (some store_locked), d)

  abbrev pub replaced : Lease → Db × Bool → Fsck × Db
  replaced l (d, done) = (if done then opening l else gone (some store_locked), d)

  -- The next call, with `force`, the owner drawn and two readings of the monotonic clock. The call
  -- after a sleep is the heartbeat, with the delay doubled up to its limit.
  unfoldable pub fsck_step : Bool → ℕ → LeaseTiming → ℕ → ℕ → Fsck → Db → Fsck × Db
  unfolding refresh_heartbeat release fresh_writer_documents
  fsck_step force o t before after installing d =
      installed force (new_fsck_lease force o t after) d (insert_fsck o d)
  fsck_step force o t before after replacing d =
      replaced (new_fsck_lease force o t after) (replace_stale_fsck o (stale_after t) d)
  fsck_step force o t before after (opening l) d =
      let (r, d') = refresh_heartbeat s true before after l d in (after_beat l t.poll_initial r, d')
  fsck_step force o t before after (polling l delay) d =
      (polled l delay (fresh_writer_documents s t d), d)
  fsck_step force o t before after (rechecking l delay) d =
      (listing l delay (fresh_writer_documents s t d), d)
  fsck_step force o t before after (listing l delay fresh) d =
      (listed force l (without_ids fresh (all_writers d)), d)
  fsck_step force o t before after (sleeping l delay) d =
      let (r, d') = refresh_heartbeat s false before after l d in
      (after_beat l (min t.poll_max (delay * 2)) r, d')
  fsck_step force o t before after (leaving l e) d = (gone e, release s l d)
  fsck_step force o t before after f d = (f, d)

  -- The end of the run that holds the lease.
  unfoldable pub fsck_finish : Fsck → Fsck
  fsck_finish (held l) = leaving l none
  fsck_finish f = f
