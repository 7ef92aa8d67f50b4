-- ===== src/StorageLayout.antt =====
-- src/httk/store/storage_layout.py: the declared layout of a store, the classes that it reaches, and
-- the upgrade of a schema.
pub mod Upgrade
pub mod Closure
pub mod Families
