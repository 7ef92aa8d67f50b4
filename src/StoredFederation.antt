-- ===== src/StoredFederation.antt =====
-- src/httk/store/backend/sql/stored_federation.py: one page of the entries of several stores.
pub mod Merge
pub mod Candidates
pub mod Select
pub mod Sources
pub mod Streams
pub mod Bounds
pub mod Probes
pub mod Query
pub mod Batches
pub mod Audit
pub mod Cutoff
mod Tests
