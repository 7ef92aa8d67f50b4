-- ===== src/Clock.antt =====
-- src/httk/store/store_timestamp.py: the guarded clock of a store that stamps its records.
pub mod Capture
mod Order
pub mod State
mod Tests
