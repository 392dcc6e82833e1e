-- ===== src/DataModel/Models.antt =====
-- data-model/trustlist_data_model/models.py: the metadata of the canonical store. The children hold the
-- declarative form of a table, the enum types and the models.
pub mod Declaration
pub mod Enums
pub mod Domains
pub mod Accounts
use trustlist_core.Base.{String, List, [], ◌∷◌}
use Declaration.{Model}
use Domains.{
  domain, pool, domain_pool_membership, provenance, evidence, attestation, score, score_history,
}
use Accounts.{
  user_account, user_session, user_role_assignment, auth_audit_event, operator_account_extension,
  brand_customer_account_extension, foundation_user_account_extension,
}

-- `APPEND_ONLY_TABLES`
abbrev pub append_only : List String
append_only = "evidence" ∷ "provenance" ∷ "score_history" ∷ "attestation" ∷ "auth_audit_event" ∷ []

-- The tables of `Base.metadata`, in the order of their classes.
abbrev pub metadata : List Model
metadata =
    domain ∷ pool ∷ domain_pool_membership ∷ provenance ∷ evidence ∷ attestation ∷ score
    ∷ score_history ∷ user_account ∷ user_session ∷ user_role_assignment ∷ auth_audit_event
    ∷ operator_account_extension ∷ brand_customer_account_extension
    ∷ foundation_user_account_extension ∷ []
