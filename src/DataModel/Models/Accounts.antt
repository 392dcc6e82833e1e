-- ===== src/DataModel/Models/Accounts.antt =====
-- data-model/trustlist_data_model/models.py: the tables about accounts, sessions, roles and the audit trail.
use trustlist_core.Base.{true, false, none, some, [], ◌∷◌}
use trustlist_core.DataModel.Ddl.{
  uuid, text, timestamptz, bytea, jsonb, inet, varchar, key, check, foreign_key,
}
use trustlist_core.DataModel.Models.Declaration.{
  Model, mapped_column, uuid_pk, created_at, updated_at,
}
use trustlist_core.DataModel.Models.Enums.{
  user_archetype_enum, auth_audit_event_type_enum, operator_verification_tier_enum,
  foundation_governance_role_enum,
}

-- `UserAccount`
abbrev pub user_account : Model
user_account = record {
  tablename = "user_account";
  columns =
      uuid_pk "user_id"
      ∷ mapped_column "archetype" user_archetype_enum none false (some false) none
      ∷ mapped_column "email" (varchar 320) none false (some false) none
      ∷ mapped_column "email_verified_at" timestamptz none false (some true) none
      ∷ mapped_column "password_hash" bytea none false (some false) none
      ∷ mapped_column "totp_secret" bytea none false (some true) none
      ∷ mapped_column "totp_enrolled_at" timestamptz none false (some true) none
      ∷ created_at "created_at"
      ∷ updated_at "updated_at"
      ∷ mapped_column "disabled_at" timestamptz none false (some true) none
      ∷ [];
  uniques =
      key "uq_user_account_archetype_email" ("archetype" ∷ "email" ∷ [])
      ∷ key "uq_user_account_user_id_archetype" ("user_id" ∷ "archetype" ∷ [])
      ∷ [];
  checks = [];
  foreign_keys = [];
  indexes = [];
}

-- `UserSession`
abbrev pub user_session : Model
user_session = record {
  tablename = "user_session";
  columns =
      uuid_pk "session_id"
      ∷ mapped_column "user_id" uuid (some ("user_account", "user_id")) false (some false) none
      ∷ created_at "created_at"
      ∷ mapped_column "last_seen_at" timestamptz none false (some false) (some "now()")
      ∷ mapped_column "revoked_at" timestamptz none false (some true) none
      ∷ mapped_column "device_fingerprint" text none false (some true) none
      ∷ mapped_column "ip_address_observed" inet none false (some true) none
      ∷ [];
  uniques = [];
  checks = [];
  foreign_keys = [];
  indexes = key "ix_user_session_user_id_revoked_at" ("user_id" ∷ "revoked_at" ∷ []) ∷ [];
}

-- `UserRoleAssignment`
abbrev pub user_role_assignment : Model
user_role_assignment = record {
  tablename = "user_role_assignment";
  columns =
      mapped_column "user_id" uuid none true none none
      ∷ mapped_column "account_archetype" user_archetype_enum none false (some false) none
      ∷ mapped_column "role" text none true none none
      ∷ mapped_column "granted_at" timestamptz none true none (some "now()")
      ∷ mapped_column "granted_by_user_id" uuid (some ("user_account", "user_id")) false (some true)
          none
      ∷ mapped_column "revoked_at" timestamptz none false (some true) none
      ∷ mapped_column "customer_id" uuid none false (some true) none
      ∷ [];
  uniques = [];
  checks =
      check "customer_id_required_for_brand_customer"
        "(account_archetype = 'brand_customer' AND customer_id IS NOT NULL) OR (account_archetype <> 'brand_customer' AND customer_id IS NULL)"
      ∷ [];
  foreign_keys =
      foreign_key "fk_user_role_assignment_user_id_user_account"
        ("user_id" ∷ "account_archetype" ∷ [])
        (("user_account", "user_id") ∷ ("user_account", "archetype") ∷ [])
      ∷ [];
  indexes = [];
}

-- `AuthAuditEvent`
abbrev pub auth_audit_event : Model
auth_audit_event = record {
  tablename = "auth_audit_event";
  columns =
      uuid_pk "auth_audit_event_id"
      ∷ mapped_column "user_id" uuid (some ("user_account", "user_id")) false (some true) none
      ∷ mapped_column "event_type" auth_audit_event_type_enum none false (some false) none
      ∷ mapped_column "occurred_at" timestamptz none false (some false) (some "now()")
      ∷ mapped_column "ip_address_observed" inet none false (some true) none
      ∷ mapped_column "user_agent_observed" text none false (some true) none
      ∷ mapped_column "event_details" jsonb none false (some false) (some "'{}'::jsonb")
      ∷ [];
  uniques = [];
  checks = [];
  foreign_keys = [];
  indexes =
      key "ix_auth_audit_event_user_id_occurred_at" ("user_id" ∷ "occurred_at DESC" ∷ []) ∷ [];
}

-- `OperatorAccountExtension`
abbrev pub operator_account_extension : Model
operator_account_extension = record {
  tablename = "operator_account_extension";
  columns =
      mapped_column "user_id" uuid (some ("user_account", "user_id")) true none none
      ∷ mapped_column "verification_tier" operator_verification_tier_enum none false (some false)
          (some "'tier_0'")
      ∷ mapped_column "tier_1_verifications" jsonb none false (some false) (some "'[]'::jsonb")
      ∷ mapped_column "tier_2_verification" jsonb none false (some true) none
      ∷ mapped_column "display_name" text none false (some true) none
      ∷ [];
  uniques = [];
  checks = [];
  foreign_keys = [];
  indexes = [];
}

-- `BrandCustomerAccountExtension`
abbrev pub brand_customer_account_extension : Model
brand_customer_account_extension = record {
  tablename = "brand_customer_account_extension";
  columns =
      mapped_column "user_id" uuid (some ("user_account", "user_id")) true none none
      ∷ mapped_column "customer_id" uuid none false (some false) none
      ∷ mapped_column "display_name" text none false (some true) none
      ∷ [];
  uniques = [];
  checks = check "customer_id_not_null" "customer_id IS NOT NULL" ∷ [];
  foreign_keys = [];
  indexes = [];
}

-- `FoundationUserAccountExtension`
abbrev pub foundation_user_account_extension : Model
foundation_user_account_extension = record {
  tablename = "foundation_user_account_extension";
  columns =
      mapped_column "user_id" uuid (some ("user_account", "user_id")) true none none
      ∷ mapped_column "governance_role" foundation_governance_role_enum none false (some false) none
      ∷ mapped_column "display_name" text none false (some true) none
      ∷ [];
  uniques = [];
  checks = [];
  foreign_keys = [];
  indexes = [];
}
