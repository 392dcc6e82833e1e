-- ===== src/DataModel.antt =====
-- data-model: the canonical store's declared tables, the migration that creates them, and what the two
-- have to do with each other and with the authentication library.
pub mod Ddl
pub mod Models
pub mod Migration
pub mod Script
pub mod EvidenceCurrent
pub mod Constraints
mod Examples
