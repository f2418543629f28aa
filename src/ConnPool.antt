-- ===== src/ConnPool.antt =====
-- internal/connpool/pool.go: the connection pool. Each function is what one critical section of the
-- pool's mutex does; Get has one before it dials or waits, and one after each.
pub mod Defs
pub mod Bounds
pub mod Closing
mod Examples
