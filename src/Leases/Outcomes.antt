-- ===== src/Leases/Outcomes.antt =====
-- How the operations of leases.py end, on every branch.
use httk_data.Prelude.{
  ℕ, ◌≡◌, refl, ◌∙◌, ap, inl, inr, Bool, true, false, not, ◌&&◌, Option, none, some, List, [], ◌∷◌,
  arith, if◌then◌else◌, Bool-cases, Result, ok, err,
}
use httk_data.Leases.Server.{
  Server, Documented, Document, DocumentId, layout, fsck, writer, same_id, owned_by, is_present,
  is_fresh_writer, is_writer_document, is_stale, contains_id, new_writer,
}
use httk_data.Leases.Actions.{
  LeaseError, store_locked, missing_generation, lease_lost, Lease, LeaseTiming, stale_after,
  without_ids, refresh_heartbeat, release, stale_writer_documents, clear_stale_lock,
}
use httk_data.Leases.Writer.{
  WriterLease, new_writer_lease, generation_of, generation_field, observe, checked, acquire_writer,
}

-- What a writer gets for the generation that it observed.
abbrev pub granted : Lease → Result LeaseError ℕ → Result LeaseError WriterLease
granted l (ok g) = ok (record { lease = l; generation = g })
granted l (err e) = err e

abbrev pub is_ok : Result LeaseError ℕ → Bool
is_ok (ok g) = true
is_ok (err e) = false

pub same_id_refl : (i : DocumentId) → same_id i i ≡ true
same_id_refl layout = refl
same_id_refl fsck = refl
same_id_refl (writer n) = ground arith

pub same_id_sound : (i j : DocumentId) → same_id i j ≡ true → i ≡ j
same_id_sound layout layout h = refl
same_id_sound fsck fsck h = refl
same_id_sound (writer m) (writer n) h = ap writer (ground arith)
same_id_sound layout fsck h = cc
same_id_sound _ _ h = cc

-- A list of ids that holds none is empty.
pub empty_of_contains :
    (ids : List DocumentId) → ((i : DocumentId) → contains_id i ids ≡ false) → ids ≡ []
empty_of_contains [] h = refl
empty_of_contains (i ∷ ids) h = absurd (ground (arith, h i, same_id_refl i))

pub contains-without_ids :
    (fresh all : List DocumentId) (i : DocumentId)
    → contains_id i (without_ids fresh all) ≡ contains_id i all && not (contains_id i fresh)
contains-without_ids fresh [] i = refl
contains-without_ids fresh (j ∷ all) i = elim (Bool-cases (same_id j i)) [
  | inl e ↦ ground (
    arith,
    contains-without_ids fresh all i,
    ap (λ k. contains_id k fresh) (same_id_sound j i e),
    e,
  )
  | inr e ↦ ground (arith, contains-without_ids fresh all i, e)
]

-- Whether a writer is to be admitted, by the fsck lease and the layout that there are.
abbrev pub admission : Option Document → Option Document → Result LeaseError ℕ
admission (some lease) found = err store_locked
admission none none = err missing_generation
admission none (some found) = elim found.generation [
  | none ↦ err missing_generation
  | some g ↦ ok g
]

generation_field-elim :
    (g : Option ℕ)
    → generation_field g
      ≡ elim g as (λ x. Result LeaseError ℕ) [ none ↦ err missing_generation | some n ↦ ok n ]
generation_field-elim none = refl
generation_field-elim (some g) = refl

guarded_admission :
    (lease found : Option Document)
    → (if is_present lease then err store_locked else generation_of found) ≡ admission lease found
guarded_admission (some lease) found = refl
guarded_admission none none = refl
guarded_admission none (some found) = generation_field-elim found.generation

module _ (s : Server) (law : Documented s) where
  open s use {Db, now, find}

  -- The stale writers are the writer documents whose heartbeat is no newer than the cutoff.
  pub contains-stale_writer_documents :
      (t : LeaseTiming) (d : Db) (i : DocumentId)
      → contains_id i (stale_writer_documents s t d)
        ≡ is_writer_document (find d i) && not (is_fresh_writer (now d) (stale_after t) (find d i))
  unfolding stale_writer_documents
  contains-stale_writer_documents t d i =
      contains-without_ids (s.newer_writers (stale_after t) d) (s.all_writers d) i
      ∙ ground (arith, law.contains-newer_writers (stale_after t) d i, law.contains-all_writers d i)

  -- A run of fsck whose lease another run has taken over stops at its next forced heartbeat, and
  -- leaves the collection as it was.
  pub refresh_heartbeat_displaced :
      (before after : ℕ) (l : Lease) (d : Db)
      → owned_by l.owner (find d l.identifier) ≡ false
      → ((refresh_heartbeat s true before after l d).0 ≡ err lease_lost)
        × ((j : DocumentId) → find (refresh_heartbeat s true before after l d).1 j ≡ find d j)
  unfolding refresh_heartbeat
  refresh_heartbeat_displaced before after l d h = (
    ground (arith, law.matched_count l.identifier l.owner d),
    λ j. ground (
      arith,
      law.matched_count l.identifier l.owner d,
      law.find-update_heartbeat l.identifier l.owner d j,
    ),
  )

  outcome-Checked :
      (r : Result LeaseError ℕ) (u o : ℕ) (t : LeaseTiming) (m : ℕ) (d : Db)
      → find d (writer u) ≡ none
      → (let out = checked s (new_writer_lease u o t m) (s.upsert_writer u o d) r in
          (out.0 ≡ granted (new_writer_lease u o t m) r)
          × ((j : DocumentId)
              → find out.1 j ≡ (
                  if is_ok r && same_id (writer u) j
                  then some (new_writer o (now d))
                  else find d j)))
  unfolding release
  outcome-Checked (ok g) u o t m d new = (refl, λ j. law.find-upsert_writer u o d j new)
  outcome-Checked (err e) u o t m d new = (
    refl,
    λ j. elim (Bool-cases (same_id (writer u) j)) [
      | inl h ↦ ground (
        arith,
        law.find-delete_owned (writer u) o (s.upsert_writer u o d) j,
        law.find-upsert_writer u o d (writer u) new,
        same_id_refl (writer u),
        ap (find d) (same_id_sound (writer u) j h),
      )
      | inr h ↦ ground (
        arith,
        law.find-delete_owned (writer u) o (s.upsert_writer u o d) j,
        law.find-upsert_writer u o d j new,
      )
    ],
  )

  observe-upsert_writer :
      (u o : ℕ) (d : Db)
      → find d (writer u) ≡ none
      → observe s (s.upsert_writer u o d) ≡ observe s d
  unfolding observe
  observe-upsert_writer u o d new =
      rw (law.find-upsert_writer u o d fsck new, law.find-upsert_writer u o d layout new)

  observe-admission : (d : Db) → observe s d ≡ admission (find d fsck) (find d layout)
  unfolding observe
  observe-admission d = guarded_admission (find d fsck) (find d layout)

  -- A writer is admitted exactly when the collection that it found has no fsck lease and a layout
  -- with a generation, which its lease then carries. A refused writer leaves every document as it
  -- was; an admitted one adds its own document with the present time as heartbeat, and no other.
  pub acquire_writer_outcome :
      (u o : ℕ) (t : LeaseTiming) (m : ℕ) (d : Db)
      → find d (writer u) ≡ none
      → ((acquire_writer s u o t m d).0
          ≡ granted (new_writer_lease u o t m) (admission (find d fsck) (find d layout)))
        × ((j : DocumentId)
            → find (acquire_writer s u o t m d).1 j ≡ (
                if is_ok (admission (find d fsck) (find d layout)) && same_id (writer u) j
                then some (new_writer o (now d))
                else find d j))
  unfolding acquire_writer
  acquire_writer_outcome u o t m d new =
      let e : observe s (s.upsert_writer u o d) ≡ admission (find d fsck) (find d layout) =
        observe-upsert_writer u o d new ∙ observe-admission d in
      rw (← e) (outcome-Checked _ u o t m d new)

  -- Clearing the lock removes the fsck lease exactly when it is stale, changes no other document,
  -- and fails exactly when a lease is there that is not stale.
  pub clear_stale_lock_outcome :
      (t : LeaseTiming) (d : Db)
      → ((clear_stale_lock s t d).0 ≡ (
          if is_present (find d fsck) && not (is_stale (now d) (stale_after t) (find d fsck))
          then err store_locked
          else ok tt))
        × ((j : DocumentId)
            → find (clear_stale_lock s t d).1 j ≡ (
                if same_id fsck j && is_stale (now d) (stale_after t) (find d fsck)
                then none
                else find d j))
  unfolding clear_stale_lock
  clear_stale_lock_outcome t d = (
    ground (
      arith,
      law.deleted_count (stale_after t) d,
      law.find-delete_stale_fsck (stale_after t) d fsck,
    ),
    λ j. ground (
      arith,
      law.deleted_count (stale_after t) d,
      law.find-delete_stale_fsck (stale_after t) d j,
    ),
  )
