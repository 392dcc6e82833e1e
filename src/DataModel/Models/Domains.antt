-- ===== src/DataModel/Models/Domains.antt =====
-- data-model/trustlist_data_model/models.py: the tables about domains, pools, evidence and scores.
use trustlist_core.Base.{true, false, none, some, [], ◌∷◌}
use trustlist_core.DataModel.Ddl.{
  uuid, text, timestamptz, bytea, jsonb, boolean, varchar, numeric, key, check,
}
use trustlist_core.DataModel.Models.Declaration.{
  Model, mapped_column, uuid_pk, created_at, updated_at,
}
use trustlist_core.DataModel.Models.Enums.{
  domain_status_enum, attestation_membership_status_enum, evidence_source_enum,
  attestation_verification_status_enum, score_verdict_enum,
}

-- `Domain`
abbrev pub domain : Model
domain = record {
  tablename = "domain";
  columns =
      uuid_pk "domain_id"
      ∷ mapped_column "normalised_url" (varchar 255) none false (some false) none
      ∷ mapped_column "current_status" domain_status_enum none false (some false) none
      ∷ mapped_column "current_score" (numeric 6 3) none false (some true) none
      ∷ mapped_column "score_version" text none false (some true) none
      ∷ mapped_column "last_scored_at" timestamptz none false (some true) none
      ∷ created_at "created_at"
      ∷ updated_at "updated_at"
      ∷ [];
  uniques = key "uq_domain_normalised_url" ("normalised_url" ∷ []) ∷ [];
  checks =
      check "normalised_url_is_normalised"
        "normalised_url = lower(normalised_url) AND normalised_url !~ '^[a-z][a-z0-9+.-]*://' AND normalised_url NOT LIKE 'www.%' AND normalised_url NOT LIKE '%?%' AND normalised_url NOT LIKE '%#%' AND normalised_url !~ '\\s' AND length(normalised_url) > 0"
      ∷ [];
  foreign_keys = [];
  indexes =
      key "ix_domain_current_status" ("current_status" ∷ [])
      ∷ key "ix_domain_last_scored_at" ("last_scored_at" ∷ [])
      ∷ [];
}

-- `Pool`
abbrev pub pool : Model
pool = record {
  tablename = "pool";
  columns =
      uuid_pk "pool_id"
      ∷ mapped_column "canonical_handle" (varchar 128) none false (some false) none
      ∷ mapped_column "derived_status" domain_status_enum none false (some true) none
      ∷ mapped_column "derived_score" (numeric 6 3) none false (some true) none
      ∷ mapped_column "attestation_flag" boolean none false (some false) (some "false")
      ∷ created_at "created_at"
      ∷ updated_at "updated_at"
      ∷ [];
  uniques = key "uq_pool_canonical_handle" ("canonical_handle" ∷ []) ∷ [];
  checks = [];
  foreign_keys = [];
  indexes = [];
}

-- `DomainPoolMembership`
abbrev pub domain_pool_membership : Model
domain_pool_membership = record {
  tablename = "domain_pool_membership";
  columns =
      mapped_column "domain_id" uuid (some ("domain", "domain_id")) true none none
      ∷ mapped_column "pool_id" uuid (some ("pool", "pool_id")) true none none
      ∷ mapped_column "valid_from" timestamptz none true none none
      ∷ mapped_column "valid_until" timestamptz none false (some true) none
      ∷ mapped_column "confidence" (numeric 4 3) none false (some false) none
      ∷ mapped_column "attestation_status" attestation_membership_status_enum none false
          (some false) none
      ∷ created_at "created_at"
      ∷ [];
  uniques = [];
  checks = check "confidence_in_unit_interval" "confidence >= 0 AND confidence <= 1" ∷ [];
  foreign_keys = [];
  indexes =
      key "ix_domain_pool_membership_domain_id_valid_until" ("domain_id" ∷ "valid_until" ∷ []) ∷ [];
}

-- `Provenance`
abbrev pub provenance : Model
provenance = record {
  tablename = "provenance";
  columns =
      uuid_pk "provenance_id"
      ∷ mapped_column "source" evidence_source_enum none false (some false) none
      ∷ mapped_column "method" text none false (some false) none
      ∷ mapped_column "observed_at" timestamptz none false (some false) none
      ∷ mapped_column "contributor_id" uuid (some ("user_account", "user_id")) false (some true)
          none
      ∷ mapped_column "contributor_identity" text none false (some true) none
      ∷ created_at "created_at"
      ∷ [];
  uniques = [];
  checks = [];
  foreign_keys = [];
  indexes = [];
}

-- `Evidence`
abbrev pub evidence : Model
evidence = record {
  tablename = "evidence";
  columns =
      uuid_pk "evidence_id"
      ∷ mapped_column "domain_id" uuid (some ("domain", "domain_id")) false (some false) none
      ∷ mapped_column "signal_class" text none false (some false) none
      ∷ mapped_column "source" evidence_source_enum none false (some false) none
      ∷ mapped_column "method" text none false (some false) none
      ∷ mapped_column "source_url" text none false (some false) (some "''")
      ∷ mapped_column "observed_at" timestamptz none false (some false) none
      ∷ mapped_column "recorded_at" timestamptz none false (some false) (some "now()")
      ∷ mapped_column "contributor_identity" text none false (some true) none
      ∷ mapped_column "observed_value" jsonb none false (some false) none
      ∷ mapped_column "provenance_id" uuid (some ("provenance", "provenance_id")) false (some false)
          none
      ∷ [];
  uniques = [];
  checks = [];
  foreign_keys = [];
  indexes =
      key "ix_evidence_domain_id_signal_class_observed_at"
        ("domain_id" ∷ "signal_class" ∷ "observed_at DESC" ∷ [])
      ∷ [];
}

-- `Attestation`
abbrev pub attestation : Model
attestation = record {
  tablename = "attestation";
  columns =
      uuid_pk "attestation_id"
      ∷ mapped_column "domain_id" uuid (some ("domain", "domain_id")) false (some false) none
      ∷ mapped_column "pool_id" uuid (some ("pool", "pool_id")) false (some true) none
      ∷ mapped_column "operator_user_id" uuid (some ("user_account", "user_id")) false (some false)
          none
      ∷ mapped_column "signature" bytea none false (some false) none
      ∷ mapped_column "signed_at" timestamptz none false (some false) none
      ∷ mapped_column "verification_status" attestation_verification_status_enum none false
          (some false) none
      ∷ created_at "created_at"
      ∷ [];
  uniques = [];
  checks = [];
  foreign_keys = [];
  indexes = [];
}

-- `Score`
abbrev pub score : Model
score = record {
  tablename = "score";
  columns =
      mapped_column "domain_id" uuid (some ("domain", "domain_id")) true none none
      ∷ mapped_column "composite_score" (numeric 6 3) none false (some false) none
      ∷ mapped_column "verdict" score_verdict_enum none false (some false) none
      ∷ mapped_column "category_scores" jsonb none false (some false) none
      ∷ mapped_column "rationale_summary" text none false (some true) none
      ∷ mapped_column "severity_flag" boolean none false (some false) (some "false")
      ∷ mapped_column "algorithm_version" text none false (some false) none
      ∷ mapped_column "computed_at" timestamptz none false (some false) none
      ∷ [];
  uniques = [];
  checks = [];
  foreign_keys = [];
  indexes = [];
}

-- `ScoreHistory`
abbrev pub score_history : Model
score_history = record {
  tablename = "score_history";
  columns =
      uuid_pk "score_history_id"
      ∷ mapped_column "domain_id" uuid (some ("domain", "domain_id")) false (some false) none
      ∷ mapped_column "composite_score" (numeric 6 3) none false (some false) none
      ∷ mapped_column "verdict" score_verdict_enum none false (some false) none
      ∷ mapped_column "category_scores" jsonb none false (some false) none
      ∷ mapped_column "rationale_summary" text none false (some true) none
      ∷ mapped_column "severity_flag" boolean none false (some false) (some "false")
      ∷ mapped_column "algorithm_version" text none false (some false) none
      ∷ mapped_column "computed_at" timestamptz none false (some false) none
      ∷ [];
  uniques = [];
  checks = [];
  foreign_keys = [];
  indexes =
      key "ix_score_history_domain_id_computed_at" ("domain_id" ∷ "computed_at DESC" ∷ []) ∷ [];
}
