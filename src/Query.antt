-- ===== src/Query.antt =====
-- Notions that the query languages of src/httk/store share.
pub mod Truth
