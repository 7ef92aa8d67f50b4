-- ===== src/Filters.antt =====
-- src/httk/store/query/optimade_filters.py: OPTIMADE filters as search expressions.
pub mod Syntax
pub mod Decimal
pub mod Texts
pub mod Values
pub mod Handlers
pub mod Settings
pub mod Translate
pub mod Tables
pub mod Meaning
mod Sets
mod Unknown
mod Swap
mod SemiJoin
mod Mismatch
mod Tests
