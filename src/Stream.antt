-- ===== src/Stream.antt =====
-- internal/stream/: the limits on the messages of streams.
pub mod Defs
pub mod Load
mod Examples
