-- ===== src/Leases/Exclusion.antt =====
-- A timely writer and an fsck run never both hold their leases.
use httk_data.Prelude.{◌≡◌, refl, ◌∙◌, ap, true, false}
use httk_data.Leases.Server.{Server, Documented, owned_by}
use httk_data.Leases.Writer
use httk_data.Leases.Writer.{
  observe, after_check, WriterLease, Writer, start, checking, held, leaving, gone, writer_step,
  writer_beat, writer_finish, is_registered,
}
use httk_data.Leases.Fsck
use httk_data.Leases.Fsck.{Fsck, fsck_step, fsck_finish, is_installed, is_drained}
use httk_data.Leases.System.{
  Draws, System, Respects, Step, by_writer, beat, finish, by_fsck, finish_fsck, other, Timely,
  Start, at_start, Run, here, next,
}
use httk_data.Leases.Invariant.{Inv, is_held→is_drained}
use httk_data.Leases.WriterKeeps.{writer_step-Inv, writer_beat-Inv, writer_finish-Inv}
use httk_data.Leases.FsckKeeps.{fsck_step-Inv, fsck_finish-Inv}

module _ (s : Server) (law : Documented s) (p : Draws) where
  open s use {Db, now, find}
  open p use {uuid, writer_owner, fsck_owner, force, timing}

  other-Inv :
      (x : System s) (d : Db)
      → Respects s p x d
      → Inv s law p x.writer x.fsck x.db
      → Inv s law p x.writer x.fsck d
  other-Inv x d r i = record {
    unused = λ h. r.same_writer ∙ i.unused h;
    writer_lease = i.writer_lease;
    fsck_lease = i.fsck_lease;
    owned = λ h. ap (owned_by fsck_owner) (r.same_fsck h) ∙ i.owned h;
    exclusive = i.exclusive;
  }

  Step-Inv :
      {x y : System s}
      → Step s p x y
      → Timely s p x
      → Inv s law p x.writer x.fsck x.db
      → Inv s law p y.writer y.fsck y.db
  Step-Inv (by_writer x m) t i = writer_step-Inv s law p m x.writer x.fsck x.db i
  Step-Inv (beat x b m n) t i = writer_beat-Inv s law p b m n x.writer x.fsck x.db i
  Step-Inv (finish x) t i = writer_finish-Inv s law p x.writer x.fsck x.db i
  Step-Inv (by_fsck x m n) t i = fsck_step-Inv s law p m n x.writer x.fsck x.db t i
  Step-Inv (finish_fsck x) t i = fsck_finish-Inv s law p x.writer x.fsck x.db i
  Step-Inv (other x d r) t i = other-Inv x d r i

  Start-Inv : {x : System s} → Start s p x → Inv s law p x.writer x.fsck x.db
  Start-Inv (at_start d h) = record {
    unused = λ _. h;
    writer_lease = tt;
    fsck_lease = tt;
    owned = λ h. cc;
    exclusive = λ h. refl;
  }

  Start-Timely : {x : System s} → Start s p x → Timely s p x
  Start-Timely (at_start d h) = λ r. cc

  Run-Timely : {x : System s} → Run s p x → Timely s p x
  Run-Timely (here b) = Start-Timely b
  Run-Timely (next r st t) = t

  Run-Inv : {x : System s} → Run s p x → Inv s law p x.writer x.fsck x.db
  Run-Inv (here b) = Start-Inv b
  Run-Inv (next r st t) = Step-Inv st (Run-Timely r) (Run-Inv r)

  -- In every run in which the writer is timely, whatever the other processes do to other documents
  -- and however the calls interleave: while fsck holds its lease, forced or not, the writer does
  -- not hold one.
  pub Run-exclusive :
      {x : System s} → Run s p x → Fsck.is_held x.fsck ≡ true → Writer.is_held x.writer ≡ false
  Run-exclusive r h = (Run-Inv r).exclusive (is_held→is_drained _ h)
