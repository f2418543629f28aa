-- ===== src/Resolver.antt =====
-- resolver.go: how a client learns the addresses of a service, and the cache and fallback it uses.
pub mod Defs
pub mod Builder
pub mod Changes
pub mod Cache
pub mod Fallback
mod Examples
