-- ===== src/Token.antt =====
-- auth/token/: access tokens, the stores in memory of tokens and of revoked ones, and the service.
pub mod Store
pub mod Blacklist
pub mod Claims
pub mod Manager
pub mod Service
pub mod Revocation
pub mod Rotation
pub mod Encoding
pub mod Issue
mod Escape
pub mod Sample
mod Examples
