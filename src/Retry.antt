-- ===== src/Retry.antt =====
-- internal/retry/retry.go: the interceptors that repeat a call, and the budget that they share.
pub mod Budget
pub mod Interceptor
pub mod Attempts
pub mod Calls
pub mod Retrier
pub mod Agreement
mod Examples
