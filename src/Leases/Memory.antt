-- ===== src/Leases/Memory.antt =====
-- A small concrete server that meets the documented laws: a clock and an association list of
-- documents. It shows that the laws can hold, and runs the tests.
use httk_data.Prelude.{
  ℕ, ◌≡◌, refl, sym, ◌∙◌, ap, Bool, true, false, ◌&&◌, Option, none, some, List, [], ◌∷◌, arith,
  inl, inr, Bool-cases, if◌then◌else◌,
}
use httk_data.Leases.Server.{
  Server, Document, Documented, DocumentId, fsck, writer, same_id, owned_by, is_fresh_writer,
  is_writer_document, is_stale, is_present, beat, take_over, new_writer, new_fsck, contains_id,
}
use httk_data.Leases.Outcomes.{same_id_sound}

-- The latest entry of an id counts; `none` is a document that was deleted.
abbrev Entries : Type 0
Entries = List (DocumentId × Option Document)

pub record Memory : Type 0 where
  pub time : ℕ
  pub entries : Entries

abbrev lookup : DocumentId → Entries → Option Document
lookup i [] = none
lookup i ((j, x) ∷ m) = if same_id j i then x else lookup i m

abbrev has_key : DocumentId → Entries → Bool
has_key i [] = false
has_key i ((j, _) ∷ m) = if same_id j i then true else has_key i m

abbrev write : DocumentId → Option Document → Memory → Memory
write i o d = record d { entries = (i, o) ∷ d.entries }

abbrev read : Memory → DocumentId → Option Document
read d i = lookup i d.entries

-- The ids of the documents that pass a test.
unfoldable pub query : (Option Document → Bool) → Entries → Entries → List DocumentId
query p m [] = []
query p m ((j, _) ∷ r) = if p (lookup j m) then j ∷ query p m r else query p m r

contains-query :
    (p : Option Document → Bool) (m r : Entries) (i : DocumentId)
    → contains_id i (query p m r) ≡ has_key i r && p (lookup i m)
unfolding query
contains-query p m [] i = refl
contains-query p m ((j, x) ∷ r) i = elim (Bool-cases (same_id j i)) [
  | inl h ↦ ground (arith, contains-query p m r i, ap (λ k. p (lookup k m)) (same_id_sound j i h))
  | inr h ↦ ground (arith, contains-query p m r i)
]

lookup_missing : (i : DocumentId) (m : Entries) → has_key i m ≡ false → lookup i m ≡ none
lookup_missing i [] h = refl
lookup_missing i ((j, x) ∷ m) h = ground (arith, lookup_missing i m)

contains-query_self :
    (p : Option Document → Bool) (m : Entries) (i : DocumentId)
    → p none ≡ false
    → contains_id i (query p m m) ≡ p (lookup i m)
contains-query_self p m i n = contains-query p m m i ∙ elim (Bool-cases (has_key i m)) [
  | inl h ↦ rw h
  | inr h ↦ rw h (rw (lookup_missing i m h) (sym n))
]

abbrev pub memory : Server
memory = record {
  Db = Memory;
  now = λ d. d.time;
  find = read;
  update_heartbeat =
      λ i o d. if owned_by o (read d i) then (write i (beat d.time (read d i)) d, 1) else (d, 0);
  delete_owned = λ i o d. if owned_by o (read d i) then write i none d else d;
  upsert_writer = λ u o d. write (writer u) (some (new_writer o d.time)) d;
  insert_fsck =
      λ o d. if is_present (read d fsck) then none else some (write fsck (some (new_fsck o)) d);
  replace_stale_fsck = λ o cutoff d.
      if is_stale d.time cutoff (read d fsck)
      then (write fsck (take_over o d.time (read d fsck)) d, true)
      else (d, false);
  delete_stale_fsck =
      λ cutoff d. if is_stale d.time cutoff (read d fsck) then (write fsck none d, 1) else (d, 0);
  newer_writers = λ cutoff d. query (is_fresh_writer d.time cutoff) d.entries d.entries;
  all_writers = λ d. query is_writer_document d.entries d.entries;
}

find-beat :
    (i : DocumentId) (o : ℕ) (d : Memory) (j : DocumentId)
    → read (memory.update_heartbeat i o d).0 j
      ≡ (if same_id i j && owned_by o (read d i) then beat d.time (read d j) else read d j)
find-beat i o d j = elim (Bool-cases (same_id i j)) [
  | inl h ↦ ground (arith, ap (read d) (same_id_sound i j h))
  | inr h ↦ ground arith
]

pub memory_documented : Documented memory
memory_documented = record {
  now-update_heartbeat = λ i o d. ground arith;
  find-update_heartbeat = find-beat;
  matched_count = λ i o d. ground arith;
  now-delete_owned = λ i o d. ground arith;
  find-delete_owned = λ i o d j. ground arith;
  now-upsert_writer = λ u o d. refl;
  find-upsert_writer = λ u o d j h. refl;
  insert_fsck_duplicate = λ o d h. ground arith;
  insert_fsck_new = λ o d h. (write fsck (some (new_fsck o)) d, rw h, refl, λ j. refl);
  now-replace_stale_fsck = λ o cutoff d. ground arith;
  replaced = λ o cutoff d. ground arith;
  find-replace_stale_fsck = λ o cutoff d j. elim (Bool-cases (same_id fsck j)) [
    | inl h ↦ ground (arith, ap (read d) (same_id_sound fsck j h))
    | inr h ↦ ground arith
  ];
  deleted_count = λ cutoff d. ground arith;
  find-delete_stale_fsck = λ cutoff d j. ground arith;
  contains-newer_writers =
      λ cutoff d i. contains-query_self (is_fresh_writer d.time cutoff) d.entries i refl;
  contains-all_writers = λ d i. contains-query_self is_writer_document d.entries i refl;
}
