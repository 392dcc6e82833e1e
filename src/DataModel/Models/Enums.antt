-- ===== src/DataModel/Models/Enums.antt =====
-- data-model/trustlist_data_model/models.py: the PostgreSQL enum types of the columns.
use trustlist_core.Base.{[], ◌∷◌}
use trustlist_core.DataModel.Ddl.{enumeration, SqlType}

-- `domain_status_enum`
abbrev pub domain_status_enum : SqlType
domain_status_enum =
    enumeration "domain_status" ("green" ∷ "grey" ∷ "red" ∷ "under_review" ∷ "dormant" ∷ [])

-- `attestation_membership_status_enum`
abbrev pub attestation_membership_status_enum : SqlType
attestation_membership_status_enum =
    enumeration "attestation_membership_status"
      ("inferred" ∷ "operator_attested" ∷ "contested" ∷ [])

-- `evidence_source_enum`
abbrev pub evidence_source_enum : SqlType
evidence_source_enum =
    enumeration "evidence_source" ("system" ∷ "human" ∷ "contributor" ∷ "cti_partner" ∷ [])

-- `attestation_verification_status_enum`
abbrev pub attestation_verification_status_enum : SqlType
attestation_verification_status_enum =
    enumeration "attestation_verification_status"
      ("pending" ∷ "verified" ∷ "rejected" ∷ "revoked" ∷ [])

-- `score_verdict_enum`
abbrev pub score_verdict_enum : SqlType
score_verdict_enum = enumeration "score_verdict" ("green" ∷ "grey" ∷ "red" ∷ "under_review" ∷ [])

-- `user_archetype_enum`
abbrev pub user_archetype_enum : SqlType
user_archetype_enum =
    enumeration "user_archetype" ("operator" ∷ "brand_customer" ∷ "foundation_internal" ∷ [])

-- `auth_audit_event_type_enum`
abbrev pub auth_audit_event_type_enum : SqlType
auth_audit_event_type_enum = enumeration "auth_audit_event_type" (
    "login_success" ∷ "login_failure" ∷ "mfa_challenge_issued" ∷ "mfa_challenge_success"
    ∷ "mfa_challenge_failure" ∷ "password_change" ∷ "role_grant" ∷ "role_revoke" ∷ "account_disable"
    ∷ "session_revoke" ∷ [])

-- `operator_verification_tier_enum`
abbrev pub operator_verification_tier_enum : SqlType
operator_verification_tier_enum =
    enumeration "operator_verification_tier" ("tier_0" ∷ "tier_1" ∷ "tier_2" ∷ [])

-- `foundation_governance_role_enum`
abbrev pub foundation_governance_role_enum : SqlType
foundation_governance_role_enum = enumeration "foundation_governance_role" (
    "trust_council_voting" ∷ "trust_council_observer" ∷ "adjudicator" ∷ "ops_staff" ∷ "maintainer"
    ∷ [])
