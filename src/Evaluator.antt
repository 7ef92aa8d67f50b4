-- ===== src/Evaluator.antt =====
-- src/httk/store/backend/mongo/evaluator.py: exact three-valued predicates over hydrated records.
pub mod Syntax
pub mod Compare
pub mod Evaluate
pub mod Root
mod Supported
mod Causes
mod Total
mod Negation
mod Exists
mod Tests
