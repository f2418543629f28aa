-- ===== src/RateLimit.antt =====
-- ratelimit/: the limiters that keep their state in the process. A request is a call of the
-- interceptor at a time; what the handler does is not modelled, only whether it is called.
pub mod Strategy
pub mod FixWindow
pub mod SlideWindow
pub mod TokenBucket
pub mod TokenBucketLimiter
pub mod Adaptive
mod Examples
