-- ===== src/Leases/Server.antt =====
-- The metadata collection that the leases live in. MongoDB itself is not part of the repository:
-- its operations are the fields of `Server`, with the documented behaviour that leases.py relies
-- on as laws about the document that each `_id` names. Times are milliseconds of the server clock.
use httk_data.Prelude.{
  ℕ, ◌+◌, ◌≡◌, Bool, true, false, ◌&&◌, Option, none, some, List, ltb, ◌==◌, not, if◌then◌else◌,
}

-- The `_id`s of the collection: "layout", "lease/fsck" and "lease/<uuid>".
pub data DocumentId : Type 0 where
  layout : DocumentId
  fsck : DocumentId
  writer : ℕ → DocumentId

abbrev pub same_id : DocumentId → DocumentId → Bool
same_id layout layout = true
same_id fsck fsck = true
same_id (writer i) (writer j) = i == j
same_id _ _ = false

-- The fields that leases.py reads or writes. `is_writer` says that "kind" is "writer".
pub record Document : Type 0 where
  pub is_writer : Bool
  pub owner : ℕ
  pub heartbeat : Option ℕ
  pub generation : Option ℕ

-- `$gt: [$heartbeat, $$NOW - cutoff]`. A null sorts below every date.
abbrev pub is_newer : ℕ → ℕ → Option ℕ → Bool
is_newer now cutoff none = false
is_newer now cutoff (some t) = ltb now (t + cutoff)

abbrev pub owned_by : ℕ → Option Document → Bool
owned_by o none = false
owned_by o (some d) = d.owner == o

abbrev pub is_fresh_writer : ℕ → ℕ → Option Document → Bool
is_fresh_writer now cutoff none = false
is_fresh_writer now cutoff (some d) = d.is_writer && is_newer now cutoff d.heartbeat

abbrev pub is_writer_document : Option Document → Bool
is_writer_document none = false
is_writer_document (some d) = d.is_writer

abbrev pub is_stale : ℕ → ℕ → Option Document → Bool
is_stale now cutoff none = false
is_stale now cutoff (some d) = not (is_newer now cutoff d.heartbeat)

abbrev pub is_present : Option Document → Bool
is_present none = false
is_present (some d) = true

abbrev pub beat : ℕ → Option Document → Option Document
beat now none = none
beat now (some d) = some (record d { heartbeat = some now })

abbrev pub take_over : ℕ → ℕ → Option Document → Option Document
take_over o now none = none
take_over o now (some d) = some (record d { owner = o; heartbeat = some now })

abbrev pub new_writer : ℕ → ℕ → Document
new_writer o now = record { is_writer = true; owner = o; heartbeat = some now; generation = none }

abbrev pub new_fsck : ℕ → Document
new_fsck o = record { is_writer = false; owner = o; heartbeat = none; generation = none }

abbrev pub contains_id : DocumentId → List DocumentId → Bool
contains_id i List.[] = false
contains_id i (List.◌∷◌ j js) = if same_id j i then true else contains_id i js

pub record Server : Type 1 where
  pub Db : Type 0
  -- `$$NOW`
  pub now : Db → ℕ
  -- The document with an `_id`.
  pub find : Db → DocumentId → Option Document
  -- `update_one({_id, owner}, heartbeat: $$NOW)` and its `matched_count`
  pub update_heartbeat : DocumentId → ℕ → Db → Db × ℕ
  -- `delete_one({_id, owner})`
  pub delete_owned : DocumentId → ℕ → Db → Db
  -- `update_one({_id}, {kind, owner, heartbeat: $$NOW}, upsert=True)`
  pub upsert_writer : ℕ → ℕ → Db → Db
  -- `insert_one({_id: "lease/fsck", owner, heartbeat: None})`; `none` is `DuplicateKeyError`
  pub insert_fsck : ℕ → Db → Option Db
  -- `find_one_and_update` of a fsck lease whose heartbeat is not newer than the cutoff
  pub replace_stale_fsck : ℕ → ℕ → Db → Db × Bool
  -- `delete_one` of such a lease, and its `deleted_count`
  pub delete_stale_fsck : ℕ → Db → Db × ℕ
  -- `aggregate`: the `_id`s of the writers that are newer than the cutoff
  pub newer_writers : ℕ → Db → List DocumentId
  -- `find({kind: "writer"})`
  pub all_writers : Db → List DocumentId

-- What the documentation of MongoDB promises of these operations.
pub record Documented (s : Server) : Type 0 where
  pub now-update_heartbeat :
      (i : DocumentId) (o : ℕ) (d : s.Db) → s.now (s.update_heartbeat i o d).0 ≡ s.now d
  pub find-update_heartbeat :
      (i : DocumentId) (o : ℕ) (d : s.Db) (j : DocumentId)
      → s.find (s.update_heartbeat i o d).0 j ≡ (
          if same_id i j && owned_by o (s.find d i)
          then beat (s.now d) (s.find d j)
          else s.find d j)
  pub matched_count :
      (i : DocumentId) (o : ℕ) (d : s.Db)
      → (s.update_heartbeat i o d).1 ≡ (if owned_by o (s.find d i) then 1 else 0)
  pub now-delete_owned :
      (i : DocumentId) (o : ℕ) (d : s.Db) → s.now (s.delete_owned i o d) ≡ s.now d
  pub find-delete_owned :
      (i : DocumentId) (o : ℕ) (d : s.Db) (j : DocumentId)
      → s.find (s.delete_owned i o d) j
        ≡ (if same_id i j && owned_by o (s.find d i) then none else s.find d j)
  pub now-upsert_writer : (u o : ℕ) (d : s.Db) → s.now (s.upsert_writer u o d) ≡ s.now d
  -- The `_id` is a new UUID, so the upsert is used at an `_id` that has no document.
  pub find-upsert_writer :
      (u o : ℕ) (d : s.Db) (j : DocumentId)
      → s.find d (writer u) ≡ none
      → s.find (s.upsert_writer u o d) j
        ≡ (if same_id (writer u) j then some (new_writer o (s.now d)) else s.find d j)
  pub insert_fsck_duplicate :
      (o : ℕ) (d : s.Db) → is_present (s.find d fsck) ≡ true → s.insert_fsck o d ≡ none
  pub insert_fsck_new :
      (o : ℕ) (d : s.Db)
      → s.find d fsck ≡ none
      → (d' : s.Db) × (s.insert_fsck o d ≡ some d')
        × (s.now d' ≡ s.now d)
        × ((j : DocumentId)
            → s.find d' j ≡ (if same_id fsck j then some (new_fsck o) else s.find d j))
  pub now-replace_stale_fsck :
      (o cutoff : ℕ) (d : s.Db) → s.now (s.replace_stale_fsck o cutoff d).0 ≡ s.now d
  pub replaced :
      (o cutoff : ℕ) (d : s.Db)
      → (s.replace_stale_fsck o cutoff d).1 ≡ is_stale (s.now d) cutoff (s.find d fsck)
  pub find-replace_stale_fsck :
      (o cutoff : ℕ) (d : s.Db) (j : DocumentId)
      → s.find (s.replace_stale_fsck o cutoff d).0 j ≡ (
          if same_id fsck j && is_stale (s.now d) cutoff (s.find d fsck)
          then take_over o (s.now d) (s.find d j)
          else s.find d j)
  pub deleted_count :
      (cutoff : ℕ) (d : s.Db)
      → (s.delete_stale_fsck cutoff d).1
        ≡ (if is_stale (s.now d) cutoff (s.find d fsck) then 1 else 0)
  pub find-delete_stale_fsck :
      (cutoff : ℕ) (d : s.Db) (j : DocumentId)
      → s.find (s.delete_stale_fsck cutoff d).0 j
        ≡ (if same_id fsck j && is_stale (s.now d) cutoff (s.find d fsck) then none else s.find d j)
  pub contains-newer_writers :
      (cutoff : ℕ) (d : s.Db) (i : DocumentId)
      → contains_id i (s.newer_writers cutoff d) ≡ is_fresh_writer (s.now d) cutoff (s.find d i)
  pub contains-all_writers :
      (d : s.Db) (i : DocumentId)
      → contains_id i (s.all_writers d) ≡ is_writer_document (s.find d i)
