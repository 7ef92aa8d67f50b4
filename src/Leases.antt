-- ===== src/Leases.antt =====
-- The cross-process writer and fsck leases of src/httk/store/backend/mongo/leases.py.
pub mod Server
pub mod Actions
pub mod Writer
pub mod Fsck
mod Heartbeat
pub mod System
mod Invariant
mod WriterKeeps
mod FsckKeeps
mod Exclusion
mod Outcomes
mod Drain
mod Memory
mod Tests
