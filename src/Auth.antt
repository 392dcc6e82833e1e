-- ===== src/Auth.antt =====
-- auth/trustlist_auth: the authentication library.
pub mod Tokens
pub mod Errors
pub mod Rbac
pub mod Database
pub mod RoleStore
pub mod External
pub mod Samples
pub mod Provider
pub mod Audit
pub mod Service
