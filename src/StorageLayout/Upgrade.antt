-- ===== src/StorageLayout/Upgrade.antt =====
-- src/httk/store/storage_layout.py: the comparison of schema fingerprints, and additive upgrades.
pub mod Fingerprint
pub mod Classify
mod Tests
