-- ===== src/DataModel/Migration/Domains.antt =====
-- data-model/migrations/versions/0001_create_canonical_data_model.py: the
-- `create_table` and `create_index` calls about domains, pools, evidence and scores.
use trustlist_core.Base.{true, false, none, some, [], ◌∷◌}
use trustlist_core.DataModel.Ddl.{
  uuid, text, timestamptz, bytea, jsonb, boolean, varchar, numeric, column, key, check, foreign_key,
  index_on, Table, Index,
}
use trustlist_core.DataModel.Models.Declaration.{ck_name}
use trustlist_core.DataModel.Migration.Enums.{enum, enum_type}

-- `op.create_table("domain", ...)`
abbrev pub domain : Table
unfolding enum_type
domain = record {
  name = "domain";
  columns =
      column "domain_id" uuid (some "gen_random_uuid()") false
      ∷ column "normalised_url" (varchar 255) none false
      ∷ column "current_status" (enum "domain_status" tt) none false
      ∷ column "current_score" (numeric 6 3) none true
      ∷ column "score_version" text none true
      ∷ column "last_scored_at" timestamptz none true
      ∷ column "created_at" timestamptz (some "now()") false
      ∷ column "updated_at" timestamptz (some "now()") false
      ∷ [];
  primary_key = key "pk_domain" ("domain_id" ∷ []);
  uniques = key "uq_domain_normalised_url" ("normalised_url" ∷ []) ∷ [];
  checks =
      check (ck_name "domain" "ck_domain_normalised_url_is_normalised")
        "normalised_url = lower(normalised_url) AND normalised_url !~ '^[a-z][a-z0-9+.-]*://' AND normalised_url NOT LIKE 'www.%' AND normalised_url NOT LIKE '%?%' AND normalised_url NOT LIKE '%#%' AND normalised_url !~ '\\s' AND length(normalised_url) > 0"
      ∷ [];
  foreign_keys = [];
}

abbrev pub ix_domain_current_status : Index
ix_domain_current_status = index_on "ix_domain_current_status" "domain" ("current_status" ∷ [])

abbrev pub ix_domain_last_scored_at : Index
ix_domain_last_scored_at = index_on "ix_domain_last_scored_at" "domain" ("last_scored_at" ∷ [])

-- `op.create_table("pool", ...)`
abbrev pub pool : Table
unfolding enum_type
pool = record {
  name = "pool";
  columns =
      column "pool_id" uuid (some "gen_random_uuid()") false
      ∷ column "canonical_handle" (varchar 128) none false
      ∷ column "derived_status" (enum "domain_status" tt) none true
      ∷ column "derived_score" (numeric 6 3) none true
      ∷ column "attestation_flag" boolean (some "false") false
      ∷ column "created_at" timestamptz (some "now()") false
      ∷ column "updated_at" timestamptz (some "now()") false
      ∷ [];
  primary_key = key "pk_pool" ("pool_id" ∷ []);
  uniques = key "uq_pool_canonical_handle" ("canonical_handle" ∷ []) ∷ [];
  checks = [];
  foreign_keys = [];
}

-- `op.create_table("domain_pool_membership", ...)`
abbrev pub domain_pool_membership : Table
unfolding enum_type
domain_pool_membership = record {
  name = "domain_pool_membership";
  columns =
      column "domain_id" uuid none false
      ∷ column "pool_id" uuid none false
      ∷ column "valid_from" timestamptz none false
      ∷ column "valid_until" timestamptz none true
      ∷ column "confidence" (numeric 4 3) none false
      ∷ column "attestation_status" (enum "attestation_membership_status" tt) none false
      ∷ column "created_at" timestamptz (some "now()") false
      ∷ [];
  primary_key = key "pk_domain_pool_membership" ("domain_id" ∷ "pool_id" ∷ "valid_from" ∷ []);
  uniques = [];
  checks =
      check
        (ck_name "domain_pool_membership" "ck_domain_pool_membership_confidence_in_unit_interval")
        "confidence >= 0 AND confidence <= 1"
      ∷ [];
  foreign_keys =
      foreign_key "fk_domain_pool_membership_domain_id_domain" ("domain_id" ∷ [])
        (("domain", "domain_id") ∷ [])
      ∷ foreign_key "fk_domain_pool_membership_pool_id_pool" ("pool_id" ∷ [])
          (("pool", "pool_id") ∷ [])
      ∷ [];
}

abbrev pub ix_domain_pool_membership_domain_id_valid_until : Index
ix_domain_pool_membership_domain_id_valid_until =
    index_on "ix_domain_pool_membership_domain_id_valid_until" "domain_pool_membership"
      ("domain_id" ∷ "valid_until" ∷ [])

-- `op.create_table("provenance", ...)`
abbrev pub provenance : Table
unfolding enum_type
provenance = record {
  name = "provenance";
  columns =
      column "provenance_id" uuid (some "gen_random_uuid()") false
      ∷ column "source" (enum "evidence_source" tt) none false
      ∷ column "method" text none false
      ∷ column "observed_at" timestamptz none false
      ∷ column "contributor_id" uuid none true
      ∷ column "contributor_identity" text none true
      ∷ column "created_at" timestamptz (some "now()") false
      ∷ [];
  primary_key = key "pk_provenance" ("provenance_id" ∷ []);
  uniques = [];
  checks = [];
  foreign_keys =
      foreign_key "fk_provenance_contributor_id_user_account" ("contributor_id" ∷ [])
        (("user_account", "user_id") ∷ [])
      ∷ [];
}

-- `op.create_table("evidence", ...)`
abbrev pub evidence : Table
unfolding enum_type
evidence = record {
  name = "evidence";
  columns =
      column "evidence_id" uuid (some "gen_random_uuid()") false
      ∷ column "domain_id" uuid none false
      ∷ column "signal_class" text none false
      ∷ column "source" (enum "evidence_source" tt) none false
      ∷ column "method" text none false
      ∷ column "source_url" text (some "''") false
      ∷ column "observed_at" timestamptz none false
      ∷ column "recorded_at" timestamptz (some "now()") false
      ∷ column "contributor_identity" text none true
      ∷ column "observed_value" jsonb none false
      ∷ column "provenance_id" uuid none false
      ∷ [];
  primary_key = key "pk_evidence" ("evidence_id" ∷ []);
  uniques = [];
  checks = [];
  foreign_keys =
      foreign_key "fk_evidence_domain_id_domain" ("domain_id" ∷ []) (("domain", "domain_id") ∷ [])
      ∷ foreign_key "fk_evidence_provenance_id_provenance" ("provenance_id" ∷ [])
          (("provenance", "provenance_id") ∷ [])
      ∷ [];
}

abbrev pub ix_evidence_domain_id_signal_class_observed_at : Index
ix_evidence_domain_id_signal_class_observed_at =
    index_on "ix_evidence_domain_id_signal_class_observed_at" "evidence"
      ("domain_id" ∷ "signal_class" ∷ "observed_at DESC" ∷ [])

-- `op.create_table("attestation", ...)`
abbrev pub attestation : Table
unfolding enum_type
attestation = record {
  name = "attestation";
  columns =
      column "attestation_id" uuid (some "gen_random_uuid()") false
      ∷ column "domain_id" uuid none false
      ∷ column "pool_id" uuid none true
      ∷ column "operator_user_id" uuid none false
      ∷ column "signature" bytea none false
      ∷ column "signed_at" timestamptz none false
      ∷ column "verification_status" (enum "attestation_verification_status" tt) none false
      ∷ column "created_at" timestamptz (some "now()") false
      ∷ [];
  primary_key = key "pk_attestation" ("attestation_id" ∷ []);
  uniques = [];
  checks = [];
  foreign_keys =
      foreign_key "fk_attestation_domain_id_domain" ("domain_id" ∷ [])
        (("domain", "domain_id") ∷ [])
      ∷ foreign_key "fk_attestation_pool_id_pool" ("pool_id" ∷ []) (("pool", "pool_id") ∷ [])
      ∷ foreign_key "fk_attestation_operator_user_id_user_account" ("operator_user_id" ∷ [])
          (("user_account", "user_id") ∷ [])
      ∷ [];
}

-- `op.create_table("score", ...)`
abbrev pub score : Table
unfolding enum_type
score = record {
  name = "score";
  columns =
      column "domain_id" uuid none false
      ∷ column "composite_score" (numeric 6 3) none false
      ∷ column "verdict" (enum "score_verdict" tt) none false
      ∷ column "category_scores" jsonb none false
      ∷ column "rationale_summary" text none true
      ∷ column "severity_flag" boolean (some "false") false
      ∷ column "algorithm_version" text none false
      ∷ column "computed_at" timestamptz none false
      ∷ [];
  primary_key = key "pk_score" ("domain_id" ∷ []);
  uniques = [];
  checks = [];
  foreign_keys =
      foreign_key "fk_score_domain_id_domain" ("domain_id" ∷ []) (("domain", "domain_id") ∷ [])
      ∷ [];
}

-- `op.create_table("score_history", ...)`
abbrev pub score_history : Table
unfolding enum_type
score_history = record {
  name = "score_history";
  columns =
      column "score_history_id" uuid (some "gen_random_uuid()") false
      ∷ column "domain_id" uuid none false
      ∷ column "composite_score" (numeric 6 3) none false
      ∷ column "verdict" (enum "score_verdict" tt) none false
      ∷ column "category_scores" jsonb none false
      ∷ column "rationale_summary" text none true
      ∷ column "severity_flag" boolean (some "false") false
      ∷ column "algorithm_version" text none false
      ∷ column "computed_at" timestamptz none false
      ∷ [];
  primary_key = key "pk_score_history" ("score_history_id" ∷ []);
  uniques = [];
  checks = [];
  foreign_keys =
      foreign_key "fk_score_history_domain_id_domain" ("domain_id" ∷ [])
        (("domain", "domain_id") ∷ [])
      ∷ [];
}

abbrev pub ix_score_history_domain_id_computed_at : Index
ix_score_history_domain_id_computed_at =
    index_on "ix_score_history_domain_id_computed_at" "score_history"
      ("domain_id" ∷ "computed_at DESC" ∷ [])
