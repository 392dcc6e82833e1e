-- ===== src/DataModel/Migration/Enums.antt =====
-- data-model/migrations/versions/0001_create_canonical_data_model.py: `_ENUMS`, and the reference to
-- one of its types, which raises for a name that it does not hold.
use trustlist_core.Base.{String, List, [], ◌∷◌, map, String-eq}
use trustlist_core.Base.Dict.{Dict, lookup}
use trustlist_core.Base.Result.{Result, ok, or_raise, ◌>>=◌, IsOk, value_of}
use trustlist_core.DataModel.Ddl.{SqlType, enumeration, Operation, create_type}

pub data KeyError : Type 0 where
  key_error : KeyError

-- `_ENUMS`
abbrev pub enums : Dict String (List String)
enums =
    ("domain_status", "green" ∷ "grey" ∷ "red" ∷ "under_review" ∷ "dormant" ∷ [])
    ∷ ("attestation_membership_status", "inferred" ∷ "operator_attested" ∷ "contested" ∷ [])
    ∷ ("evidence_source", "system" ∷ "human" ∷ "contributor" ∷ "cti_partner" ∷ [])
    ∷ ("attestation_verification_status", "pending" ∷ "verified" ∷ "rejected" ∷ "revoked" ∷ [])
    ∷ ("score_verdict", "green" ∷ "grey" ∷ "red" ∷ "under_review" ∷ [])
    ∷ ("user_archetype", "operator" ∷ "brand_customer" ∷ "foundation_internal" ∷ [])
    ∷ (
      "auth_audit_event_type",
      "login_success" ∷ "login_failure" ∷ "mfa_challenge_issued" ∷ "mfa_challenge_success"
          ∷ "mfa_challenge_failure" ∷ "password_change" ∷ "role_grant" ∷ "role_revoke"
          ∷ "account_disable" ∷ "session_revoke" ∷ [],
    )
    ∷ ("operator_verification_tier", "tier_0" ∷ "tier_1" ∷ "tier_2" ∷ [])
    ∷ (
      "foundation_governance_role",
      "trust_council_voting" ∷ "trust_council_observer" ∷ "adjudicator" ∷ "ops_staff" ∷ "maintainer"
          ∷ [],
    )
    ∷ []

-- `_ENUMS[name]` as a column type.
unfoldable pub enum_type : String → Result KeyError SqlType
unfolding lookup
enum_type name = or_raise (lookup name enums) key_error >>= λ values. ok (enumeration name values)

-- `_enum(name)`, of a call that returns
abbrev pub enum : (name : String) → IsOk (enum_type name) → SqlType
enum name returned = value_of (enum_type name) returned

-- `_create_enum_types`
abbrev pub create_enum_types : List Operation
create_enum_types =
    map (λ (name, labels). create_type (record { name = name; labels = labels })) enums
