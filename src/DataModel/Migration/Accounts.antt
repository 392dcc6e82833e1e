-- ===== src/DataModel/Migration/Accounts.antt =====
-- data-model/migrations/versions/0001_create_canonical_data_model.py: the
-- `create_table` and `create_index` calls about accounts, sessions, roles and the audit trail.
use trustlist_core.Base.{true, false, none, some, [], ◌∷◌}
use trustlist_core.DataModel.Ddl.{
  uuid, text, timestamptz, bytea, jsonb, inet, varchar, column, key, check, foreign_key, index_on,
  Table, Index,
}
use trustlist_core.DataModel.Models.Declaration.{ck_name}
use trustlist_core.DataModel.Migration.Enums.{enum, enum_type}

-- `op.create_table("user_account", ...)`
abbrev pub user_account : Table
unfolding enum_type
user_account = record {
  name = "user_account";
  columns =
      column "user_id" uuid (some "gen_random_uuid()") false
      ∷ column "archetype" (enum "user_archetype" tt) none false
      ∷ column "email" (varchar 320) none false
      ∷ column "email_verified_at" timestamptz none true
      ∷ column "password_hash" bytea none false
      ∷ column "totp_secret" bytea none true
      ∷ column "totp_enrolled_at" timestamptz none true
      ∷ column "created_at" timestamptz (some "now()") false
      ∷ column "updated_at" timestamptz (some "now()") false
      ∷ column "disabled_at" timestamptz none true
      ∷ [];
  primary_key = key "pk_user_account" ("user_id" ∷ []);
  uniques =
      key "uq_user_account_archetype_email" ("archetype" ∷ "email" ∷ [])
      ∷ key "uq_user_account_user_id_archetype" ("user_id" ∷ "archetype" ∷ [])
      ∷ [];
  checks = [];
  foreign_keys = [];
}

-- `op.create_table("user_session", ...)`
abbrev pub user_session : Table
user_session = record {
  name = "user_session";
  columns =
      column "session_id" uuid (some "gen_random_uuid()") false
      ∷ column "user_id" uuid none false
      ∷ column "created_at" timestamptz (some "now()") false
      ∷ column "last_seen_at" timestamptz (some "now()") false
      ∷ column "revoked_at" timestamptz none true
      ∷ column "device_fingerprint" text none true
      ∷ column "ip_address_observed" inet none true
      ∷ [];
  primary_key = key "pk_user_session" ("session_id" ∷ []);
  uniques = [];
  checks = [];
  foreign_keys =
      foreign_key "fk_user_session_user_id_user_account" ("user_id" ∷ [])
        (("user_account", "user_id") ∷ [])
      ∷ [];
}

abbrev pub ix_user_session_user_id_revoked_at : Index
ix_user_session_user_id_revoked_at =
    index_on "ix_user_session_user_id_revoked_at" "user_session" ("user_id" ∷ "revoked_at" ∷ [])

-- `op.create_table("user_role_assignment", ...)`
abbrev pub user_role_assignment : Table
unfolding enum_type
user_role_assignment = record {
  name = "user_role_assignment";
  columns =
      column "user_id" uuid none false
      ∷ column "account_archetype" (enum "user_archetype" tt) none false
      ∷ column "role" text none false
      ∷ column "granted_at" timestamptz (some "now()") false
      ∷ column "granted_by_user_id" uuid none true
      ∷ column "revoked_at" timestamptz none true
      ∷ column "customer_id" uuid none true
      ∷ [];
  primary_key = key "pk_user_role_assignment" ("user_id" ∷ "role" ∷ "granted_at" ∷ []);
  uniques = [];
  checks =
      check
        (ck_name "user_role_assignment"
          "ck_user_role_assignment_customer_id_required_for_brand_customer")
        "(account_archetype = 'brand_customer' AND customer_id IS NOT NULL) OR (account_archetype <> 'brand_customer' AND customer_id IS NULL)"
      ∷ [];
  foreign_keys =
      foreign_key "fk_user_role_assignment_granted_by_user_id_user_account"
        ("granted_by_user_id" ∷ []) (("user_account", "user_id") ∷ [])
      ∷ foreign_key "fk_user_role_assignment_user_id_user_account"
          ("user_id" ∷ "account_archetype" ∷ [])
          (("user_account", "user_id") ∷ ("user_account", "archetype") ∷ [])
      ∷ [];
}

-- `op.create_table("auth_audit_event", ...)`
abbrev pub auth_audit_event : Table
unfolding enum_type
auth_audit_event = record {
  name = "auth_audit_event";
  columns =
      column "auth_audit_event_id" uuid (some "gen_random_uuid()") false
      ∷ column "user_id" uuid none true
      ∷ column "event_type" (enum "auth_audit_event_type" tt) none false
      ∷ column "occurred_at" timestamptz (some "now()") false
      ∷ column "ip_address_observed" inet none true
      ∷ column "user_agent_observed" text none true
      ∷ column "event_details" jsonb (some "'{}'::jsonb") false
      ∷ [];
  primary_key = key "pk_auth_audit_event" ("auth_audit_event_id" ∷ []);
  uniques = [];
  checks = [];
  foreign_keys =
      foreign_key "fk_auth_audit_event_user_id_user_account" ("user_id" ∷ [])
        (("user_account", "user_id") ∷ [])
      ∷ [];
}

abbrev pub ix_auth_audit_event_user_id_occurred_at : Index
ix_auth_audit_event_user_id_occurred_at =
    index_on "ix_auth_audit_event_user_id_occurred_at" "auth_audit_event"
      ("user_id" ∷ "occurred_at DESC" ∷ [])

-- `op.create_table("operator_account_extension", ...)`
abbrev pub operator_account_extension : Table
unfolding enum_type
operator_account_extension = record {
  name = "operator_account_extension";
  columns =
      column "user_id" uuid none false
      ∷ column "verification_tier" (enum "operator_verification_tier" tt) (some "'tier_0'") false
      ∷ column "tier_1_verifications" jsonb (some "'[]'::jsonb") false
      ∷ column "tier_2_verification" jsonb none true
      ∷ column "display_name" text none true
      ∷ [];
  primary_key = key "pk_operator_account_extension" ("user_id" ∷ []);
  uniques = [];
  checks = [];
  foreign_keys =
      foreign_key "fk_operator_account_extension_user_id_user_account" ("user_id" ∷ [])
        (("user_account", "user_id") ∷ [])
      ∷ [];
}

-- `op.create_table("brand_customer_account_extension", ...)`
abbrev pub brand_customer_account_extension : Table
brand_customer_account_extension = record {
  name = "brand_customer_account_extension";
  columns =
      column "user_id" uuid none false
      ∷ column "customer_id" uuid none false
      ∷ column "display_name" text none true
      ∷ [];
  primary_key = key "pk_brand_customer_account_extension" ("user_id" ∷ []);
  uniques = [];
  checks =
      check
        (ck_name "brand_customer_account_extension"
          "ck_brand_customer_account_extension_customer_id_not_null")
        "customer_id IS NOT NULL"
      ∷ [];
  foreign_keys =
      foreign_key "fk_brand_customer_account_extension_user_id_user_account" ("user_id" ∷ [])
        (("user_account", "user_id") ∷ [])
      ∷ [];
}

-- `op.create_table("foundation_user_account_extension", ...)`
abbrev pub foundation_user_account_extension : Table
unfolding enum_type
foundation_user_account_extension = record {
  name = "foundation_user_account_extension";
  columns =
      column "user_id" uuid none false
      ∷ column "governance_role" (enum "foundation_governance_role" tt) none false
      ∷ column "display_name" text none true
      ∷ [];
  primary_key = key "pk_foundation_user_account_extension" ("user_id" ∷ []);
  uniques = [];
  checks = [];
  foreign_keys =
      foreign_key "fk_foundation_user_account_extension_user_id_user_account" ("user_id" ∷ [])
        (("user_account", "user_id") ∷ [])
      ∷ [];
}
