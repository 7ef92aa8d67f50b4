-- ===== src/Leases/Tests.antt =====
-- Runs of the lease protocol over the concrete server, and an instance of each theorem about it.
use httk_data.Prelude.{
  ℕ, ◌⊎◌, ◌↔◌, ◌≡◌, refl, true, false, not, ◌&&◌, none, some, [], ◌∷◌, arith, if◌then◌else◌, ok,
  err,
}
use httk_data.Leases.Server.{
  DocumentId, Document, layout, fsck, writer, same_id, is_writer_document, is_fresh_writer,
  is_stale, is_present, new_writer, contains_id,
}
use httk_data.Leases.Actions.{
  store_locked, lease_lost, Lease, default_timing, stale_after, refresh_heartbeat, release,
  stale_writer_documents, clear_stale_lock,
}
use httk_data.Leases.Writer
use httk_data.Leases.Writer.{
  held, WriterLease, new_writer_lease, writer_step, writer_beat, observe, acquire_writer,
}
use httk_data.Leases.Fsck
use httk_data.Leases.Fsck.{fsck_step, polling, leaving, new_fsck_lease}
use httk_data.Leases.System.{Draws, System, by_writer, by_fsck, at_start, Run, here, next}
use httk_data.Leases.Memory.{Memory, memory, memory_documented, query}
use httk_data.Leases.Exclusion.{Run-exclusive}
use httk_data.Leases.Outcomes.{
  granted, admission, is_ok, acquire_writer_outcome, clear_stale_lock_outcome,
  refresh_heartbeat_displaced, contains-stale_writer_documents,
}
use httk_data.Leases.Drain.{step, step-step-step-polling, late_beat_defeats_fsck}

abbrev layout_document : Document
layout_document = record { is_writer = false; owner = 0; heartbeat = none; generation = some 5 }

abbrev fresh_store : Memory
fresh_store = record { time = 100000; entries = (layout, some layout_document) ∷ [] }

abbrev draws : Draws
draws = record {
  uuid = 7;
  writer_owner = 1;
  fsck_owner = 2;
  force = false;
  timing = default_timing;
}

-- fsck polls, a writer registers, sees the lock and leaves, and fsck gets its lease.
run : (x : System memory) × Run memory draws x × (Fsck.is_held x.fsck ≡ true)
unfolding fsck_step writer_step query
run = (
  _,
  next
      (next
        (next
          (next
            (next
              (next
                (next (next (here (at_start fresh_store refl)) (by_fsck _ 0 0) (λ h. cc))
                  (by_fsck _ 0 0) (λ h. cc))
                (by_fsck _ 0 0) (λ h. cc))
              (by_fsck _ 0 0) (λ h. cc))
            (by_writer _ 0) (λ h. refl))
          (by_writer _ 0) (λ h. cc))
        (by_writer _ 0) (λ h. cc))
      (by_fsck _ 0 0) (λ h. cc),
  refl,
)

Run-exclusive_example : Writer.is_held run.0.writer ≡ false
Run-exclusive_example = Run-exclusive memory memory_documented draws run.1 run.2

-- A collection with a locked store: the fsck lease of owner 2, last refreshed at `t`.
abbrev locked_store : ℕ → Memory
locked_store t = record {
  time = 100000;
  entries =
      (fsck, some (record { is_writer = false; owner = 2; heartbeat = some t; generation = none }))
      ∷ (layout, some layout_document)
      ∷ [];
}

acquire_writer_outcome_example :
    ((acquire_writer memory 7 1 default_timing 0 (locked_store 99000)).0
      ≡ granted (new_writer_lease 7 1 default_timing 0) (
          admission
            (memory.find (locked_store 99000) fsck)
            (memory.find (locked_store 99000) layout)))
    × ((j : DocumentId)
        → memory.find (acquire_writer memory 7 1 default_timing 0 (locked_store 99000)).1 j ≡ (
            if is_ok (
                admission
                  (memory.find (locked_store 99000) fsck)
                  (memory.find (locked_store 99000) layout))
              && same_id (writer 7) j
            then some (new_writer 1 100000)
            else memory.find (locked_store 99000) j))
acquire_writer_outcome_example =
    acquire_writer_outcome memory memory_documented 7 1 default_timing 0 (locked_store 99000) refl

locked_out : (acquire_writer memory 7 1 default_timing 0 (locked_store 99000)).0 ≡ err store_locked
unfolding acquire_writer observe release
locked_out = refl

admitted :
    (acquire_writer memory 7 1 default_timing 3 fresh_store).0
    ≡ ok (record { lease = new_writer_lease 7 1 default_timing 3; generation = 5 })
unfolding acquire_writer observe
admitted = refl

clear_stale_lock_outcome_example :
    ((clear_stale_lock memory default_timing (locked_store 90000)).0 ≡ (
      if is_present (memory.find (locked_store 90000) fsck)
        && not
            (is_stale 100000 (stale_after default_timing) (memory.find (locked_store 90000) fsck))
      then err store_locked
      else ok tt))
    × ((j : DocumentId)
        → memory.find (clear_stale_lock memory default_timing (locked_store 90000)).1 j ≡ (
            if same_id fsck j
              && is_stale 100000
                  (stale_after default_timing)
                  (memory.find (locked_store 90000) fsck)
            then none
            else memory.find (locked_store 90000) j))
clear_stale_lock_outcome_example =
    clear_stale_lock_outcome memory memory_documented default_timing (locked_store 90000)

abbrev fsck_lease : ℕ → Lease
fsck_lease o = new_fsck_lease false o default_timing 0

refresh_heartbeat_displaced_example :
    ((refresh_heartbeat memory true 0 0 (fsck_lease 3) (locked_store 99000)).0 ≡ err lease_lost)
    × ((j : DocumentId)
        → memory.find (refresh_heartbeat memory true 0 0 (fsck_lease 3) (locked_store 99000)).1 j
          ≡ memory.find (locked_store 99000) j)
refresh_heartbeat_displaced_example =
    refresh_heartbeat_displaced memory memory_documented 0 0 (fsck_lease 3) (locked_store 99000)
      refl

-- Beside the lock of owner 2, a writer whose heartbeat is ten seconds old.
abbrev slow_writer : Memory
slow_writer = record {
  time = 100000;
  entries = (writer 7, some (new_writer 1 90000)) ∷ (locked_store 100000).entries;
}

contains-stale_writer_documents_example :
    contains_id (writer 7) (stale_writer_documents memory default_timing slow_writer)
    ≡ is_writer_document (some (new_writer 1 90000))
      && not (is_fresh_writer 100000 (stale_after default_timing) (some (new_writer 1 90000)))
contains-stale_writer_documents_example =
    contains-stale_writer_documents memory memory_documented default_timing slow_writer (writer 7)

nothing_fresh :
    (i : DocumentId)
    → is_fresh_writer 100000 (stale_after default_timing) (memory.find slow_writer i) ≡ false
nothing_fresh i = ground arith

step-step-step-polling_example :
    (let s = step memory memory_documented false 2 default_timing in
      let end = s (s (s (polling (fsck_lease 2) 20) slow_writer) slow_writer) slow_writer in
      ((end ≡ Fsck.held (fsck_lease 2)) ⊎ (end ≡ leaving (fsck_lease 2) (some store_locked)))
      × ((end ≡ Fsck.held (fsck_lease 2)) ↔ (
          (false ≡ true)
          ⊎ ((i : DocumentId) → is_writer_document (memory.find slow_writer i) ≡ false))))
step-step-step-polling_example =
    step-step-step-polling memory memory_documented false 2 default_timing (fsck_lease 2) 20
      slow_writer nothing_fresh

abbrev slow_lease : WriterLease
slow_lease = record { lease = new_writer_lease 7 1 default_timing 0; generation = 5 }

late_beat_defeats_fsck_example :
    (let f =
        step memory memory_documented false 2 default_timing
          (polling (fsck_lease 2) 20)
          slow_writer in
      let (w', d') = writer_beat memory true 0 0 (held slow_lease) slow_writer in
      (step memory memory_documented false 2 default_timing
          (step memory memory_documented false 2 default_timing f d')
          d'
        ≡ Fsck.held (fsck_lease 2))
      × (Writer.is_held w' ≡ true))
late_beat_defeats_fsck_example =
    late_beat_defeats_fsck memory memory_documented 2 default_timing (fsck_lease 2) 20 slow_lease 7
      0 0 slow_writer (omega arith) refl refl refl nothing_fresh (λ i h. ground arith)
