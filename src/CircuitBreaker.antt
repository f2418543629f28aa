-- ===== src/CircuitBreaker.antt =====
-- internal/circuitbreaker/circuitbreaker.go: the breaker's state and its methods. A method takes
-- the time that its call of time.Now() returns; the mutex makes each method one step. The goroutines
-- that call the listeners are the log `notified`. `scale n f` stands for uint32(float64(n) * f).
pub mod Defs
pub mod Invariant
pub mod Trip
pub mod HalfOpen
pub mod Notify
mod Examples
