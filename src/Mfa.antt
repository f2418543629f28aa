-- ===== src/Mfa.antt =====
-- auth/mfa/: one-time passwords, where they are stored, and the second factor of a login.
pub mod Totp
pub mod Repository
pub mod Provider
pub mod Authenticator
pub mod Window
pub mod Confirmation
pub mod Enrolment
mod Examples
