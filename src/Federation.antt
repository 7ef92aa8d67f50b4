-- ===== src/Federation.antt =====
-- src/httk/store/federated_store.py: read-only queries over an ordered collection of stores.
pub mod Stream
pub mod Child
pub mod Plan
pub mod Execute
pub mod Count
pub mod Results
pub mod Builder
pub mod Calls
mod Page
mod Counting
mod Caching
mod Progress
mod Frozen
mod SharedCache
mod Tests
mod BuilderTests
mod Limits
mod Union
