-- ===== src/Plugin.antt =====
-- plugin/plugin.go: the manager of plugins and their lifecycle.
pub mod Defs
pub mod Order
mod Examples
