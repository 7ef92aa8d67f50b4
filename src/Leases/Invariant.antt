-- ===== src/Leases/Invariant.antt =====
-- The invariant of the lease protocol: who owns which document, and why a drained run excludes a
-- writer.
use httk_data.Prelude.{ℕ, ◌≡◌, refl, ◌∙◌, Bool, true, false, none, arith}
use httk_data.Leases.Server
use httk_data.Leases.Server.{
  Server, Documented, DocumentId, is_fresh_writer, owned_by, same_id, new_fsck, contains_id,
}
use httk_data.Leases.Actions.{Lease}
use httk_data.Leases.Writer
use httk_data.Leases.Writer.{
  observe, after_check, WriterLease, Writer, start, checking, held, leaving, gone, writer_step,
  writer_beat, writer_finish, is_registered,
}
use httk_data.Leases.Fsck
use httk_data.Leases.Fsck.{Fsck, fsck_step, fsck_finish, is_installed, is_drained}
use httk_data.Leases.System.{Draws}

-- The lease of a writer that has one carries the UUID and the owner that it drew.
abbrev pub Carries : DocumentId → ℕ → Lease → Type 0
Carries i o l = (l.identifier ≡ i) × (l.owner ≡ o)

abbrev pub WriterLeaseOf : ℕ → ℕ → Writer → Type 0
WriterLeaseOf u o start = Unit
WriterLeaseOf u o (checking l) = Carries (Server.writer u) o l
WriterLeaseOf u o (held w) = Carries (Server.writer u) o w.lease
WriterLeaseOf u o (leaving l _) = Carries (Server.writer u) o l
WriterLeaseOf u o (gone _) = Unit

abbrev pub FsckLeaseOf : ℕ → Fsck → Type 0
FsckLeaseOf o Fsck.installing = Unit
FsckLeaseOf o Fsck.replacing = Unit
FsckLeaseOf o (Fsck.opening l) = Carries Server.fsck o l
FsckLeaseOf o (Fsck.polling l _) = Carries Server.fsck o l
FsckLeaseOf o (Fsck.rechecking l _) = Carries Server.fsck o l
FsckLeaseOf o (Fsck.listing l _ _) = Carries Server.fsck o l
FsckLeaseOf o (Fsck.sleeping l _) = Carries Server.fsck o l
FsckLeaseOf o (Fsck.held l) = Carries Server.fsck o l
FsckLeaseOf o (Fsck.leaving l _) = Carries Server.fsck o l
FsckLeaseOf o (Fsck.gone _) = Unit

abbrev pub is_start : Writer → Bool
is_start start = true
is_start _ = false

pub is_drained→is_installed : (f : Fsck) → is_drained f ≡ true → is_installed f ≡ true
is_drained→is_installed (Fsck.rechecking _ _) h = refl
is_drained→is_installed (Fsck.installing) h = cc
is_drained→is_installed (Fsck.replacing) h = cc
is_drained→is_installed _ h = ground arith

pub is_held→is_drained : (f : Fsck) → Fsck.is_held f ≡ true → is_drained f ≡ true
is_held→is_drained (Fsck.held _) h = refl
is_held→is_drained Fsck.installing h = h
is_held→is_drained (Fsck.rechecking _ _) h = refl
is_held→is_drained (Fsck.listing _ _ _) h = refl
is_held→is_drained _ h = h

pub unregistered : (w : Writer) → is_registered w ≡ false → Writer.is_held w ≡ false
unregistered (held w) h = h
unregistered start h = refl
unregistered _ h = refl

module _ (s : Server) (law : Documented s) (p : Draws) where
  open s use {Db, now, find}
  open p use {uuid, writer_owner, fsck_owner, force, timing}

  pub record Inv (w : Writer) (f : Fsck) (d : Db) : Type 0 where
    pub unused : is_start w ≡ true → find d (Server.writer uuid) ≡ none
    pub writer_lease : WriterLeaseOf uuid writer_owner w
    pub fsck_lease : FsckLeaseOf fsck_owner f
    pub owned : is_installed f ≡ true → owned_by fsck_owner (find d Server.fsck) ≡ true
    pub exclusive : is_drained f ≡ true → Writer.is_held w ≡ false

  -- Before a poll has found no fresh writer, there is nothing to exclude.
  pub undrained :
      (f' : Fsck) {w : Writer} {f : Fsck} {d d' : Db}
      → Inv w f d
      → find d' (Server.writer uuid) ≡ find d (Server.writer uuid)
      → FsckLeaseOf fsck_owner f'
      → (is_installed f' ≡ true → owned_by fsck_owner (find d' Server.fsck) ≡ true)
      → is_drained f' ≡ false
      → Inv w f' d'
  undrained f' i same l o n = record {
    unused = λ h. same ∙ i.unused h;
    writer_lease = i.writer_lease;
    fsck_lease = l;
    owned = o;
    exclusive = λ h. cc;
  }

  -- From one drained state to another.
  pub drained :
      (f' : Fsck) {w : Writer} {f : Fsck} {d : Db}
      → Inv w f d
      → FsckLeaseOf fsck_owner f'
      → is_drained f ≡ true
      → Inv w f' d
  drained f' {f} i l n = record {
    unused = i.unused;
    writer_lease = i.writer_lease;
    fsck_lease = l;
    owned = λ h. i.owned (is_drained→is_installed f n);
    exclusive = λ h. i.exclusive n;
  }
