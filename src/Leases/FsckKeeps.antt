-- ===== src/Leases/FsckKeeps.antt =====
-- The calls of fsck keep the invariant.
use httk_data.Prelude.{
  ℕ, ◌≡◌, refl, ◌∙◌, sym, ap, subst, inl, inr, Option, List, Option-cases, Bool-cases, Bool, true,
  false, none, some, [], ◌∷◌, arith, if◌then◌else◌, Result, ok, err,
}
use mathlib.Core.Option.{some-injective}
use httk_data.Leases.Server
use httk_data.Leases.Server.{
  Server, Documented, DocumentId, is_fresh_writer, owned_by, same_id, new_fsck, contains_id,
}
use httk_data.Leases.Heartbeat.{owned_by-refresh_heartbeat, Continues, refresh_heartbeat-Continues}
use httk_data.Leases.Actions.{LeaseError, store_locked, Lease, stale_after, refresh_heartbeat}
use httk_data.Leases.Writer.{Writer, is_registered}
use httk_data.Leases.Fsck
use httk_data.Leases.Fsck.{Fsck, fsck_step, fsck_finish, is_installed, is_drained}
use httk_data.Leases.System.{Draws}
use httk_data.Leases.Invariant.{Inv, Carries, unregistered, drained, undrained}

module _ (s : Server) (law : Documented s) (p : Draws) where
  open s use {Db, now, find}
  open p use {uuid, writer_owner, fsck_owner, force, timing}

  -- An insertion that succeeds adds the fsck document alone.
  find-insert_fsck :
      (d d' : Db) (j : DocumentId)
      → s.insert_fsck fsck_owner d ≡ some d'
      → find d' j ≡ (if same_id Server.fsck j then some (new_fsck fsck_owner) else find d j)
  find-insert_fsck d d' j e = elim (Option-cases (find d Server.fsck)) [
    | inl absent ↦
        let (d2, inserted, _, at) = law.insert_fsck_new fsck_owner d absent in
        subst
          (λ x. find x j ≡ (if same_id Server.fsck j then some (new_fsck fsck_owner) else find d j))
          (some-injective _ _ (sym inserted ∙ e)) (at j)
    | inr (x, there) ↦ cc (e, law.insert_fsck_duplicate fsck_owner d (rw there))
  ]

  insert-Inv :
      (forced : Bool) (l : Lease) (w : Writer) (d : Db) (o : Option Db)
      → Carries Server.fsck fsck_owner l
      → s.insert_fsck fsck_owner d ≡ o
      → Inv s law p w Fsck.installing d
      → (let r = Fsck.installed s forced l d o in Inv s law p w r.0 r.1)
  insert-Inv forced l w d (some d') c e i =
      undrained s law p (Fsck.opening l) i (find-insert_fsck d d' (Server.writer uuid) e) c
        (λ _. rw (find-insert_fsck d d' Server.fsck e) (ground arith)) refl
  insert-Inv true l w d none c e i = undrained s law p Fsck.replacing i refl tt (λ h. cc) refl
  insert-Inv false l w d none c e i =
      undrained s law p (Fsck.gone (some store_locked)) i refl tt (λ h. cc) refl

  replace-Inv :
      (l : Lease) (cutoff : ℕ) (w : Writer) (d : Db)
      → Carries Server.fsck fsck_owner l
      → Inv s law p w Fsck.replacing d
      → (let r = Fsck.replaced s l (s.replace_stale_fsck fsck_owner cutoff d) in
          Inv s law p w r.0 r.1)
  replace-Inv l cutoff w d c i = elim (Bool-cases (s.replace_stale_fsck fsck_owner cutoff d).1) [
    | inl h ↦ rw h (
        undrained s law p (Fsck.opening l) i
          (law.find-replace_stale_fsck fsck_owner cutoff d (Server.writer uuid)) c
          (λ _. ground (
            arith,
            law.find-replace_stale_fsck fsck_owner cutoff d Server.fsck,
            law.replaced fsck_owner cutoff d,
          ))
          refl)
    | inr h ↦ rw h (
        undrained s law p (Fsck.gone (some store_locked)) i
          (law.find-replace_stale_fsck fsck_owner cutoff d (Server.writer uuid)) tt (λ h. cc) refl)
  ]

  fsck_beat-Inv :
      (r : Result LeaseError Lease) (l : Lease) (delay : ℕ) (w : Writer) (f : Fsck) (d d' : Db)
      → Continues s law l r
      → Carries Server.fsck fsck_owner l
      → owned_by fsck_owner (find d' Server.fsck) ≡ true
      → find d' (Server.writer uuid) ≡ find d (Server.writer uuid)
      → Inv s law p w f d
      → Inv s law p w (Fsck.after_beat l delay r) d'
  fsck_beat-Inv (ok l') l delay w f d d' (ei, eo) (ci, co) own same i =
      undrained s law p (Fsck.polling l' delay) i same (ei ∙ ci, eo ∙ co) (λ _. own) refl
  fsck_beat-Inv (err e) l delay w f d d' _ c own same i =
      undrained s law p (Fsck.leaving l (some e)) i same c (λ h. cc) refl

  fsck_beat-writer :
      (forced : Bool) (before after : ℕ) (l : Lease) (d : Db)
      → Carries Server.fsck fsck_owner l
      → find (refresh_heartbeat s forced before after l d).1 (Server.writer uuid)
        ≡ find d (Server.writer uuid)
  unfolding refresh_heartbeat
  fsck_beat-writer forced before after l d c = ground (
    arith,
    law.find-update_heartbeat l.identifier l.owner d (Server.writer uuid),
    ap (λ j. same_id j (Server.writer uuid)) c.0,
  )

  -- A timely writer appears in every poll, so an empty poll finds it unregistered.
  polled-Inv :
      (ids : List DocumentId) (l : Lease) (delay : ℕ) (w : Writer) (d : Db)
      → contains_id (Server.writer uuid) ids
        ≡ is_fresh_writer (now d) (stale_after timing) (find d (Server.writer uuid))
      → (is_registered w ≡ true
          → is_fresh_writer (now d) (stale_after timing) (find d (Server.writer uuid)) ≡ true)
      → Inv s law p w (Fsck.polling l delay) d
      → Inv s law p w (Fsck.polled l delay ids) d
  polled-Inv [] l delay w d listed timely i = record {
    unused = i.unused;
    writer_lease = i.writer_lease;
    fsck_lease = i.fsck_lease;
    owned = i.owned;
    exclusive = λ h.
        unregistered w
          (elim (Bool-cases (is_registered w)) [ inl r ↦ cc (listed, timely r) | inr r ↦ r ]);
  }
  polled-Inv (_ ∷ _) l delay w d listed timely i =
      undrained s law p (Fsck.sleeping l delay) i refl i.fsck_lease i.owned refl

  listed-Inv :
      (forced : Bool) (stale : List DocumentId) (l : Lease) (delay : ℕ) (fresh : List DocumentId)
      (w : Writer) (d : Db)
      → Inv s law p w (Fsck.listing l delay fresh) d
      → Inv s law p w (Fsck.listed forced l stale) d
  listed-Inv forced [] l delay fresh w d i = drained s law p (Fsck.held l) i i.fsck_lease refl
  listed-Inv true (_ ∷ _) l delay fresh w d i = drained s law p (Fsck.held l) i i.fsck_lease refl
  listed-Inv false (_ ∷ _) l delay fresh w d i =
      undrained s law p (Fsck.leaving l (some store_locked)) i refl i.fsck_lease (λ h. cc) refl

  pub fsck_step-Inv :
      (before after : ℕ) (w : Writer) (f : Fsck) (d : Db)
      → (is_registered w ≡ true
          → is_fresh_writer (now d) (stale_after timing) (find d (Server.writer uuid)) ≡ true)
      → Inv s law p w f d
      → (let r = fsck_step s force fsck_owner timing before after f d in Inv s law p w r.0 r.1)
  unfolding fsck_step
  fsck_step-Inv before after w Fsck.installing d timely i =
      insert-Inv force _ w d (s.insert_fsck fsck_owner d) (refl, refl) refl i
  fsck_step-Inv before after w Fsck.replacing d timely i = replace-Inv _ _ w d (refl, refl) i
  fsck_step-Inv before after w (Fsck.opening l) d timely i =
      fsck_beat-Inv _ l _ w _ d _ (refresh_heartbeat-Continues s law true before after l d)
        i.fsck_lease
        (owned_by-refresh_heartbeat s law true before after l d fsck_owner Server.fsck
          ∙ i.owned refl)
        (fsck_beat-writer true before after l d i.fsck_lease) i
  fsck_step-Inv before after w (Fsck.polling l delay) d timely i =
      polled-Inv _ l delay w d
        (law.contains-newer_writers (stale_after timing) d (Server.writer uuid)) timely i
  fsck_step-Inv before after w (Fsck.rechecking l delay) d timely i =
      drained s law p (Fsck.listing l delay _) i i.fsck_lease refl
  fsck_step-Inv before after w (Fsck.listing l delay fresh) d timely i =
      listed-Inv force _ l delay fresh w d i
  fsck_step-Inv before after w (Fsck.sleeping l delay) d timely i =
      fsck_beat-Inv _ l _ w _ d _ (refresh_heartbeat-Continues s law false before after l d)
        i.fsck_lease
        (owned_by-refresh_heartbeat s law false before after l d fsck_owner Server.fsck
          ∙ i.owned refl)
        (fsck_beat-writer false before after l d i.fsck_lease) i
  fsck_step-Inv before after w (Fsck.leaving l e) d timely i =
      undrained s law p (Fsck.gone e) i
        (rw (law.find-delete_owned l.identifier l.owner d (Server.writer uuid), i.fsck_lease.0)) tt
        (λ h. cc) refl
  fsck_step-Inv before after w (Fsck.held l) d timely i = i
  fsck_step-Inv before after w (Fsck.gone e) d timely i = i

  pub fsck_finish-Inv :
      (w : Writer) (f : Fsck) (d : Db) → Inv s law p w f d → Inv s law p w (fsck_finish s f) d
  unfolding fsck_finish
  fsck_finish-Inv w (Fsck.held l) d i =
      undrained s law p (Fsck.leaving l none) i refl i.fsck_lease (λ h. cc) refl
  fsck_finish-Inv w Fsck.installing d i = i
  fsck_finish-Inv w _ d i = i
