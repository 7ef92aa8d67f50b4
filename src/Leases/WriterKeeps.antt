-- ===== src/Leases/WriterKeeps.antt =====
-- The calls of a writer keep the invariant.
use httk_data.Prelude.{ℕ, ◌≡◌, refl, ◌∙◌, Bool, true, arith, Result, ok, err}
use httk_data.Leases.Server
use httk_data.Leases.Server.{
  Server, Documented, DocumentId, is_fresh_writer, owned_by, same_id, new_fsck, contains_id,
}
use httk_data.Leases.Heartbeat.{owned_by-refresh_heartbeat, Continues, refresh_heartbeat-Continues}
use httk_data.Leases.Actions.{LeaseError, store_locked, Lease}
use httk_data.Leases.Writer
use httk_data.Leases.Writer.{
  observe, after_check, WriterLease, Writer, start, checking, held, leaving, gone, writer_step,
  writer_beat, writer_finish, is_registered,
}
use httk_data.Leases.Fsck.{Fsck, is_drained}
use httk_data.Leases.System.{Draws}
use httk_data.Leases.Invariant.{Inv, is_drained→is_installed}

module _ (s : Server) (law : Documented s) (p : Draws) where
  open s use {Db, now, find}
  open p use {uuid, writer_owner, fsck_owner, force, timing}

  observe_locked :
      (d : Db) → owned_by fsck_owner (find d Server.fsck) ≡ true → observe s d ≡ err store_locked
  unfolding observe
  observe_locked d h = ground arith

  after_check-Inv :
      (r : Result LeaseError ℕ) (l : Lease) (f : Fsck) (d : Db)
      → (is_drained f ≡ true → r ≡ err store_locked)
      → Inv s law p (checking l) f d
      → Inv s law p (after_check s l r) f d
  after_check-Inv (ok g) l f d locked i = record {
    unused = λ h. cc;
    writer_lease = i.writer_lease;
    fsck_lease = i.fsck_lease;
    owned = i.owned;
    exclusive = λ h. cc (locked h);
  }
  after_check-Inv (err e) l f d locked i = record {
    unused = λ h. cc;
    writer_lease = i.writer_lease;
    fsck_lease = i.fsck_lease;
    owned = i.owned;
    exclusive = λ h. refl;
  }

  pub writer_step-Inv :
      (monotonic : ℕ) (w : Writer) (f : Fsck) (d : Db)
      → Inv s law p w f d
      → (let r = writer_step s uuid writer_owner timing monotonic w d in Inv s law p r.0 f r.1)
  unfolding writer_step
  writer_step-Inv m start f d i = record {
    unused = λ h. cc;
    writer_lease = (refl, refl);
    fsck_lease = i.fsck_lease;
    owned = λ h.
        rw (law.find-upsert_writer uuid writer_owner d Server.fsck (i.unused refl)) (i.owned h);
    exclusive = λ h. refl;
  }
  writer_step-Inv m (checking l) f d i =
      after_check-Inv (observe s d) l f d
        (λ h. observe_locked d (i.owned (is_drained→is_installed f h))) i
  writer_step-Inv m (leaving l _) f d i = record {
    unused = λ h. cc;
    writer_lease = tt;
    fsck_lease = i.fsck_lease;
    owned = λ h.
        rw (law.find-delete_owned l.identifier l.owner d Server.fsck, i.writer_lease.0) (i.owned h);
    exclusive = λ h. refl;
  }
  writer_step-Inv m (held w) f d i = i
  writer_step-Inv m (gone e) f d i = i

  after_beat-Inv :
      (r : Result LeaseError Lease) (w : WriterLease) (f : Fsck) (d d' : Db)
      → Continues s law w.lease r
      → (owned_by fsck_owner (find d' Server.fsck) ≡ owned_by fsck_owner (find d Server.fsck))
      → Inv s law p (held w) f d
      → Inv s law p (Writer.after_beat s w r) f d'
  after_beat-Inv (ok l) w f d d' (ei, eo) same i = record {
    unused = λ h. cc;
    writer_lease = (ei ∙ i.writer_lease.0, eo ∙ i.writer_lease.1);
    fsck_lease = i.fsck_lease;
    owned = λ h. same ∙ i.owned h;
    exclusive = i.exclusive;
  }
  after_beat-Inv (err e) w f d d' _ same i = record {
    unused = λ h. cc;
    writer_lease = i.writer_lease;
    fsck_lease = i.fsck_lease;
    owned = λ h. same ∙ i.owned h;
    exclusive = λ h. refl;
  }

  pub writer_beat-Inv :
      (forced : Bool) (before after : ℕ) (w : Writer) (f : Fsck) (d : Db)
      → Inv s law p w f d
      → (let r = writer_beat s forced before after w d in Inv s law p r.0 f r.1)
  unfolding writer_beat
  writer_beat-Inv forced before after (held w) f d i =
      after_beat-Inv _ w f d _ (refresh_heartbeat-Continues s law forced before after w.lease d)
        (owned_by-refresh_heartbeat s law forced before after w.lease d fsck_owner Server.fsck) i
  writer_beat-Inv forced before after start f d i = i
  writer_beat-Inv forced before after _ f d i = i

  pub writer_finish-Inv :
      (w : Writer) (f : Fsck) (d : Db) → Inv s law p w f d → Inv s law p (writer_finish s w) f d
  unfolding writer_finish
  writer_finish-Inv (held w) f d i = record {
    unused = λ h. cc;
    writer_lease = i.writer_lease;
    fsck_lease = i.fsck_lease;
    owned = i.owned;
    exclusive = λ h. refl;
  }
  writer_finish-Inv start f d i = i
  writer_finish-Inv _ f d i = i
