-- ===== src/Isolation.antt =====
-- internal/security/isolation.go: which service may call which.
pub mod Access
pub mod Rules
pub mod Records
pub mod Isolator
pub mod Calls
mod Examples
