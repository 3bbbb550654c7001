-- ===== src/Ingest.antt =====
-- app/core/ingest: what a document leaves behind when it is removed.
pub mod Compensator
pub mod Pending
pub mod Cleanup
pub mod Untouched
pub mod Resumption
