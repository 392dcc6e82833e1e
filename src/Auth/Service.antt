-- ===== src/Auth/Service.antt =====
-- auth/trustlist_auth/service.py: the class `AuthService`, over the in-memory provider. A method is an
-- action on the provider, the database of the caller's transaction and the sink of the audit trail.
pub mod World
pub mod Methods
pub mod Access
pub mod Isolation
pub mod Sound
pub mod Histories
pub mod Outcomes
mod Examples
