-- ===== src/DataModel/Migration.antt =====
-- data-model/migrations/versions/0001_create_canonical_data_model.py: the migration as the list of the
-- operations that it sends to the database, in their order. The children hold the enum types and the
-- tables. The environment migrations/env.py hands the models' metadata to Alembic, whose `create_table`
-- applies its naming convention for a CHECK to the name that the migration gives: the tables have the name
-- that results, before SQLAlchemy shortens one of more than 63 characters.
pub mod Enums
pub mod Domains
pub mod Accounts
use trustlist_core.Base.{String, List, [], ◌∷◌, ◌++◌, map, not, String-eq}
use trustlist_core.Base.Lists.{keep, contains}
use trustlist_core.DataModel.Ddl.{
  View, Operation, create_table, create_index, create_unique_index, create_view, refresh_view,
  create_role, grant, select, insert, update, delete, unique_index_on,
}
use Enums.{create_enum_types}
use Domains.{
  domain, pool, domain_pool_membership, provenance, evidence, attestation, score, score_history,
  ix_domain_current_status, ix_domain_last_scored_at,
  ix_domain_pool_membership_domain_id_valid_until, ix_evidence_domain_id_signal_class_observed_at,
  ix_score_history_domain_id_computed_at,
}
use Accounts.{
  user_account, user_session, user_role_assignment, auth_audit_event, operator_account_extension,
  brand_customer_account_extension, foundation_user_account_extension,
  ix_user_session_user_id_revoked_at, ix_auth_audit_event_user_id_occurred_at,
}

-- `APP_ROLE`
abbrev pub app_role : String
app_role = "trustlist_app"

-- `APPEND_ONLY_TABLES`
abbrev pub append_only_tables : List String
append_only_tables =
    "evidence" ∷ "provenance" ∷ "score_history" ∷ "attestation" ∷ "auth_audit_event" ∷ []

-- `ALL_TABLES`
abbrev pub all_tables : List String
all_tables =
    "domain" ∷ "pool" ∷ "domain_pool_membership" ∷ "attestation" ∷ "evidence" ∷ "provenance"
    ∷ "score" ∷ "score_history" ∷ "user_account" ∷ "user_session" ∷ "user_role_assignment"
    ∷ "auth_audit_event" ∷ "operator_account_extension" ∷ "brand_customer_account_extension"
    ∷ "foundation_user_account_extension" ∷ []

-- `_create_tables`
abbrev pub create_tables : List Operation
create_tables =
    create_table domain
    ∷ create_index ix_domain_current_status
    ∷ create_index ix_domain_last_scored_at
    ∷ create_table pool
    ∷ create_table user_account
    ∷ create_table domain_pool_membership
    ∷ create_index ix_domain_pool_membership_domain_id_valid_until
    ∷ create_table provenance
    ∷ create_table evidence
    ∷ create_index ix_evidence_domain_id_signal_class_observed_at
    ∷ create_table attestation
    ∷ create_table score
    ∷ create_table score_history
    ∷ create_index ix_score_history_domain_id_computed_at
    ∷ create_table user_session
    ∷ create_index ix_user_session_user_id_revoked_at
    ∷ create_table user_role_assignment
    ∷ create_table auth_audit_event
    ∷ create_index ix_auth_audit_event_user_id_occurred_at
    ∷ create_table operator_account_extension
    ∷ create_table brand_customer_account_extension
    ∷ create_table foundation_user_account_extension
    ∷ []

-- The query of the view `evidence_current`.
abbrev pub evidence_current : View
evidence_current = record {
  name = "evidence_current";
  distinct = "domain_id" ∷ "signal_class" ∷ "source_url" ∷ [];
  columns =
      "evidence_id" ∷ "domain_id" ∷ "signal_class" ∷ "source" ∷ "method" ∷ "source_url"
      ∷ "observed_at" ∷ "recorded_at" ∷ "contributor_identity" ∷ "observed_value" ∷ "provenance_id"
      ∷ [];
  source = "evidence";
  order =
      "domain_id" ∷ "signal_class" ∷ "source_url" ∷ "observed_at DESC" ∷ "recorded_at DESC"
      ∷ "evidence_id DESC" ∷ [];
}

-- `_create_evidence_current_view`
abbrev pub create_evidence_current_view : List Operation
create_evidence_current_view =
    create_view evidence_current
    ∷ create_unique_index (
        unique_index_on "ux_evidence_current_natural_key" "evidence_current"
          ("domain_id" ∷ "signal_class" ∷ "source_url" ∷ []))
    ∷ refresh_view "evidence_current"
    ∷ []

abbrev pub mutable : List String
mutable = keep (λ t. not (contains t append_only_tables)) all_tables

-- `_create_application_role`
abbrev pub create_application_role : List Operation
create_application_role =
    create_role app_role ∷ map (λ table. grant (select ∷ insert ∷ []) table app_role) all_tables
    ++ map (λ table. grant (update ∷ delete ∷ []) table app_role) mutable
    ++ grant (select ∷ []) "evidence_current" app_role ∷ []

abbrev pub upgrade : List Operation
upgrade =
    create_enum_types ++ create_tables ++ create_evidence_current_view ++ create_application_role

-- `downgrade`, which sends nothing
abbrev pub downgrade : List Operation
downgrade = []
