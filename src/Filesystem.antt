-- ===== src/Filesystem.antt =====
-- The exported filesystem (package filesystem): conditional requests,
-- atomic uploads and their receipts.
pub mod Preconditions
pub mod Upload
