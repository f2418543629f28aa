-- ===== src/Rbac.antt =====
-- auth/authorization/rbac.go: roles, the permissions that methods ask for, and the interceptors.
pub mod Defs
pub mod Roles
pub mod Access
mod Examples
