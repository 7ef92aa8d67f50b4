-- ===== src/StorageLayout/Closure.antt =====
-- src/httk/store/storage_layout.py: `_walk_closure`. Record classes are numbered; `targets` are the
-- classes that the schema of a class references.
mod Unseen
pub mod Visits
mod Tests
use httk_data.Prelude.{ℕ, zero, suc, Bool, true, false, ◌||◌, List, [], ◌∷◌, ◌==◌, length}

-- `record in seen`
abbrev pub contains : ℕ → List ℕ → Bool
contains x [] = false
contains x (y ∷ ys) = x == y || contains x ys

module _ (targets : ℕ → List ℕ) where
  -- `descend` for one class after the other, with at most this depth of calls. The classes seen are
  -- those visited, the latest first.
  unfoldable pub descend_all : ℕ → List ℕ → List ℕ → List ℕ
  descend_all zero records seen = seen
  descend_all (suc depth) [] seen = seen
  descend_all (suc depth) (record_ ∷ records) seen =
      descend_all (suc depth) records (elim (contains record_ seen) [
        | true ↦ seen
        | false ↦ descend_all depth (targets record_) (record_ ∷ seen)
      ])

  -- The records of all families in order. No chain of calls is longer than there are classes.
  unfoldable pub walk_closure : ℕ → List ℕ → List ℕ
  walk_closure classes records = descend_all (suc classes) records []
