-- ===== src/Leases/Drain.antt =====
-- What the polls of `acquire_fsck` conclude, and the heartbeat that slips between two of its queries.
use httk_data.Prelude.{
  ℕ, ◌<◌, ◌≡◌, refl, sym, ap, subst, ◌∙◌, ◌⊎◌, ◌↔◌, inl, inr, some, ◌∷◌, Bool-cases, Bool, true,
  false, not, ◌&&◌, List, [], arith, if◌then◌else◌,
}
use httk_data.Leases.Server.{
  Server, Documented, DocumentId, writer, same_id, beat, owned_by, is_fresh_writer,
  is_writer_document, contains_id,
}
use httk_data.Leases.Actions.{
  store_locked, Lease, LeaseTiming, stale_after, without_ids, stale_writer_documents,
}
use httk_data.Leases.Outcomes.{
  empty_of_contains, same_id_sound, contains-without_ids, contains-stale_writer_documents,
}
use httk_data.Leases.Writer
use httk_data.Leases.Writer.{Writer, held, WriterLease, writer_beat}
use httk_data.Leases.Fsck.{Fsck, leaving, polling, rechecking, fsck_step, polled, listed}

without_ids-eq-nil :
    (fresh all : List DocumentId)
    → ((i : DocumentId) → contains_id i all && not (contains_id i fresh) ≡ false)
    → without_ids fresh all ≡ []
without_ids-eq-nil fresh all h =
    empty_of_contains (without_ids fresh all) (λ i. rw (contains-without_ids fresh all i) (h i))

module _ (s : Server) (law : Documented s) (force : Bool) (o : ℕ) (t : LeaseTiming) where
  open s use {Db, now, find}

  abbrev pub step : Fsck → Db → Fsck
  step f d = (fsck_step s force o t 0 0 f d).0

  poll_empty :
      (l : Lease) (delay : ℕ) (d : Db)
      → ((i : DocumentId) → is_fresh_writer (now d) (stale_after t) (find d i) ≡ false)
      → step (polling l delay) d ≡ rechecking l delay
  unfolding fsck_step
  poll_empty l delay d quiet = ap (polled l delay) (
      empty_of_contains (s.newer_writers (stale_after t) d)
        (λ i. rw (law.contains-newer_writers (stale_after t) d i) (quiet i)))

  recheck-list :
      (l : Lease) (delay : ℕ) (d : Db)
      → step (step (rechecking l delay) d) d ≡ listed force l (stale_writer_documents s t d)
  unfolding fsck_step stale_writer_documents
  recheck-list l delay d = refl

  -- With no fresh writer, the stale writers are all writers.
  stale-writers :
      (d : Db)
      → ((i : DocumentId) → is_fresh_writer (now d) (stale_after t) (find d i) ≡ false)
      → (i : DocumentId)
      → contains_id i (stale_writer_documents s t d) ≡ is_writer_document (find d i)
  stale-writers d quiet i = contains-stale_writer_documents s law t d i ∙ ground (arith, quiet i)

  after_polls :
      (l : Lease) (delay : ℕ) (d : Db)
      → ((i : DocumentId) → is_fresh_writer (now d) (stale_after t) (find d i) ≡ false)
      → step (step (step (polling l delay) d) d) d ≡ listed force l (stale_writer_documents s t d)
  after_polls l delay d quiet =
      ap (λ f. step (step f d) d) (poll_empty l delay d quiet) ∙ recheck-list l delay d

-- The two outcomes of a list of stale writers.
listed-cases :
    (force : Bool) (l : Lease) (stale : List DocumentId)
    → (listed force l stale ≡ Fsck.held l) ⊎ (listed force l stale ≡ leaving l (some store_locked))
listed-cases force l [] = inl refl
listed-cases true l (_ ∷ _) = inl refl
listed-cases false l (_ ∷ _) = inr refl

listed-held :
    (force : Bool) (l : Lease) (stale : List DocumentId)
    → (listed force l stale ≡ Fsck.held l) ↔ ((force ≡ true) ⊎ (stale ≡ []))
listed-held force l [] = (λ h. inr refl, λ h. refl)
listed-held true l (i ∷ stale) = (λ h. inl refl, λ h. refl)
listed-held false l (i ∷ stale) = (λ h. cc, λ h. elim h [ inl e ↦ cc | inr e ↦ cc ])

module _ (s : Server) (law : Documented s) (force : Bool) (o : ℕ) (t : LeaseTiming) where
  open s use {Db, now, find}

  no_stale-no_writers :
      (d : Db)
      → ((i : DocumentId) → is_fresh_writer (now d) (stale_after t) (find d i) ≡ false)
      → (stale_writer_documents s t d ≡ [])
        ↔ ((i : DocumentId) → is_writer_document (find d i) ≡ false)
  no_stale-no_writers d quiet = (
    λ e i. sym (stale-writers s law force o t d quiet i) ∙ ap (contains_id i) e,
    λ h.
        empty_of_contains (stale_writer_documents s t d)
          (λ i. stale-writers s law force o t d quiet i ∙ h i),
  )

  -- With the collection at rest and no fresh writer, one poll and the two queries for stale writers
  -- end the wait: fsck has its lease, or is giving up with `StoreLockedError`. It has its lease
  -- exactly if it is forced or no writer is registered at all.
  pub step-step-step-polling :
      (l : Lease) (delay : ℕ) (d : Db)
      → ((i : DocumentId) → is_fresh_writer (now d) (stale_after t) (find d i) ≡ false)
      → (let f = step s law force o t (polling l delay) d in
          let end = step s law force o t (step s law force o t f d) d in
          ((end ≡ Fsck.held l) ⊎ (end ≡ leaving l (some store_locked)))
          × ((end ≡ Fsck.held l)
              ↔ ((force ≡ true) ⊎ ((i : DocumentId) → is_writer_document (find d i) ≡ false))))
  step-step-step-polling l delay d quiet =
      let stale = stale_writer_documents s t d in
      let e = after_polls s law force o t l delay d quiet in
      let none_left = no_stale-no_writers d quiet in
      let held_if = listed-held force l stale in
      (
        subst (λ f. (f ≡ Fsck.held l) ⊎ (f ≡ leaving l (some store_locked))) (sym e)
            (listed-cases force l stale),
        (
          λ h. elim (held_if.0 (sym e ∙ h)) [ inl a ↦ inl a | inr a ↦ inr (none_left.0 a) ],
          λ h. e ∙ held_if.1 (elim h [ inl a ↦ inl a | inr a ↦ inr (none_left.1 a) ]),
        ),
      )

module _ (s : Server) (law : Documented s) (o : ℕ) (t : LeaseTiming) where
  open s use {Db, now, find}

  late_beat-find :
      (w : WriterLease) (u before after : ℕ) (d : Db) (j : DocumentId)
      → w.lease.identifier ≡ writer u
      → owned_by w.lease.owner (find d (writer u)) ≡ true
      → find (writer_beat s true before after (held w) d).1 j
        ≡ (if same_id (writer u) j then beat (now d) (find d j) else find d j)
  unfolding writer_beat
  late_beat-find w u before after d j e own = ground (
    arith,
    law.find-update_heartbeat w.lease.identifier w.lease.owner d j,
    ap (λ i. same_id i j) e,
    ap (λ i. owned_by w.lease.owner (find d i)) e,
  )

  late_beat-held :
      (w : WriterLease) (before after : ℕ) (d : Db)
      → owned_by w.lease.owner (find d w.lease.identifier) ≡ true
      → Writer.is_held (writer_beat s true before after (held w) d).0 ≡ true
  unfolding writer_beat
  late_beat-held w before after d own =
      ground (arith, law.matched_count w.lease.identifier w.lease.owner d)

  late_beat-now :
      (w : WriterLease) (before after : ℕ) (d : Db)
      → now (writer_beat s true before after (held w) d).1 ≡ now d
  unfolding writer_beat
  late_beat-now w before after d =
      ground (arith, law.now-update_heartbeat w.lease.identifier w.lease.owner d)

  -- A sole writer that has just beaten is missed by the query for stale writers.
  no_stale_writer :
      (u : ℕ) (d : Db)
      → 0 < stale_after t
      → is_writer_document (find d (writer u)) ≡ true
      → is_fresh_writer (now d) (stale_after t) (find d (writer u)) ≡ true
      → ((i : DocumentId) → same_id (writer u) i ≡ false → is_writer_document (find d i) ≡ false)
      → stale_writer_documents s t d ≡ []
  no_stale_writer u d pos is_w fresh sole = empty_of_contains (stale_writer_documents s t d) (λ i.
      contains-stale_writer_documents s law t d i ∙ (elim (Bool-cases (same_id (writer u) i)) [
        | inl h ↦ ground (
          arith,
          ap (λ k. is_fresh_writer (now d) (stale_after t) (find d k))
              (same_id_sound (writer u) i h),
        )
        | inr h ↦ ground (arith, sole i h)
      ]))

  -- An unforced fsck and a writer can hold their leases together: the heartbeat of the sole writer
  -- is stale when fsck polls, and the writer refreshes it before the first query of
  -- `_stale_writer_documents`, which then counts it among the fresh writers.
  pub late_beat_defeats_fsck :
      (l : Lease) (delay : ℕ) (w : WriterLease) (u before after : ℕ) (d : Db)
      → 0 < stale_after t
      → w.lease.identifier ≡ writer u
      → owned_by w.lease.owner (find d (writer u)) ≡ true
      → is_writer_document (find d (writer u)) ≡ true
      → ((i : DocumentId) → is_fresh_writer (now d) (stale_after t) (find d i) ≡ false)
      → ((i : DocumentId) → same_id (writer u) i ≡ false → is_writer_document (find d i) ≡ false)
      → (let polled = step s law false o t (polling l delay) d in
          let (w', d') = writer_beat s true before after (held w) d in
          (step s law false o t (step s law false o t polled d') d' ≡ Fsck.held l)
          × (Writer.is_held w' ≡ true))
  late_beat_defeats_fsck l delay w u before after d pos id own is_w quiet sole =
      let d' : Db = (writer_beat s true before after (held w) d).1 in
      (
        ap (λ f. step s law false o t (step s law false o t f d') d')
              (poll_empty s law false o t l delay d quiet)
            ∙ recheck-list s law false o t l delay d'
            ∙ ap (listed false l) (
                no_stale_writer u d' pos
                  (ground (arith, late_beat-find w u before after d (writer u) id own))
                  (ground (
                    arith,
                    late_beat-find w u before after d (writer u) id own,
                    late_beat-now w before after d,
                  ))
                  (λ i h. ground (arith, late_beat-find w u before after d i id own, sole i h))),
        late_beat-held w before after d (rw id own),
      )
