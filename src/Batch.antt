-- ===== src/Batch.antt =====
-- internal/batch/: requests that are handled together.
pub mod Defs
pub mod Partition
pub mod Replies
mod Examples
