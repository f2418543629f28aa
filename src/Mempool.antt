-- ===== src/Mempool.antt =====
-- internal/mempool/: pools of objects.
pub mod Defs
pub mod Reuse
mod Examples
