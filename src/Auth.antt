-- ===== src/Auth.antt =====
-- auth/: extractors of tokens, the authorizer by roles and the interceptor that uses both.
pub mod Extractor
pub mod Authorizer
pub mod Roles
pub mod Interceptor
pub mod Tokens
mod Examples
