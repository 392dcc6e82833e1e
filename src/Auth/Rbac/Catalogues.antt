-- ===== src/Auth/Rbac/Catalogues.antt =====
-- auth/trustlist_auth/rbac.py: the three catalogues that Stage 0 declares. That each construction
-- returns is part of its definition: `value_of` takes the proof.
use trustlist_core.Base.{String, Bool, true, false, List, [], ◌∷◌}
use trustlist_core.Base.Dict.{insert}
use trustlist_core.Base.Result.{value_of}
use trustlist_core.Auth.Rbac.Model.{
  Archetype, operator, brand_customer, foundation_internal, Permission, account_manage, team_manage,
  domain_view, evidence_submit, attestation_deploy, decision_contest, audit_manage, audit_view,
  certification_generate, data_source_connect, governance_vote, governance_observe,
  adjudication_review, platform_operate, codebase_maintain, same_archetype,
}
use trustlist_core.Auth.Rbac.Framework.{Role, RoleCatalogue, catalogue}

-- `_role`
abbrev role : String → Archetype → List Permission → String → Bool → Role
role identifier archetype permissions description feature_flagged_off = record {
  identifier = identifier;
  archetype = archetype;
  permissions = permissions;
  description = description;
  feature_flagged_off = feature_flagged_off;
}

abbrev pub operator_roles : List Role
operator_roles =
    role "owner" operator
      (account_manage ∷ team_manage ∷ domain_view ∷ evidence_submit ∷ attestation_deploy
        ∷ decision_contest ∷ [])
      "Account owner — full control including account-level settings." false
    ∷ role "admin" operator
        (team_manage ∷ domain_view ∷ evidence_submit ∷ attestation_deploy ∷ decision_contest ∷ [])
        "Administrator — manages the team and all operator workflows." false
    ∷ role "operator" operator
        (domain_view ∷ evidence_submit ∷ attestation_deploy ∷ decision_contest ∷ [])
        "Operator — the default workhorse role; full domain workflows, no team administration."
        false
    ∷ role "read_only" operator (domain_view ∷ [])
        "Read-only — views scores and signals, makes no changes." false
    ∷ []

unfoldable pub operator_catalogue : RoleCatalogue
unfolding catalogue insert same_archetype
operator_catalogue = value_of (catalogue operator operator_roles) tt

abbrev pub brand_customer_roles : List Role
brand_customer_roles =
    role "owner" brand_customer
      (account_manage ∷ team_manage ∷ audit_manage ∷ audit_view ∷ certification_generate
        ∷ data_source_connect ∷ [])
      "Account owner — full control including account-level settings." false
    ∷ role "admin" brand_customer
        (team_manage ∷ audit_manage ∷ audit_view ∷ certification_generate ∷ data_source_connect
          ∷ [])
        "Administrator — manages the team and all brand-customer workflows." false
    ∷ role "operator" brand_customer
        (audit_manage ∷ audit_view ∷ certification_generate ∷ data_source_connect ∷ [])
        "Operator — the default workhorse role; runs audits and certifications, no team administration. Same name as the operator-archetype Operator role but a distinct scope."
        false
    ∷ role "analyst" brand_customer (audit_manage ∷ audit_view ∷ certification_generate ∷ [])
        "Analyst — runs and interprets audits; cannot connect data sources." false
    ∷ role "read_only" brand_customer (audit_view ∷ [])
        "Read-only — views audit results, makes no changes." false
    ∷ []

unfoldable pub brand_customer_catalogue : RoleCatalogue
unfolding catalogue insert same_archetype
brand_customer_catalogue = value_of (catalogue brand_customer brand_customer_roles) tt

abbrev pub foundation_internal_roles : List Role
foundation_internal_roles =
    role "maintainer" foundation_internal (codebase_maintain ∷ platform_operate ∷ [])
      "Foundation maintainer — open-source codebase maintainer. Active at Stage 0." false
    ∷ role "ops_staff" foundation_internal (platform_operate ∷ [])
        "Foundation operations staff — incorporation, partnership and community work. Active at Stage 0."
        false
    ∷ role "trust_council_voting" foundation_internal (governance_vote ∷ governance_observe ∷ [])
        "Trust Council voting member. Feature-flagged off until Foundation incorporation and Trust Council seating."
        true
    ∷ role "trust_council_observer" foundation_internal (governance_observe ∷ [])
        "Trust Council observer (IAB-SA, commercial-entity). Feature-flagged off until Trust Council seating."
        true
    ∷ role "adjudicator" foundation_internal (adjudication_review ∷ [])
        "Designated adjudicator — staffs the contestation review queue. Feature-flagged off until Foundation incorporation."
        true
    ∷ []

unfoldable pub foundation_internal_catalogue : RoleCatalogue
unfolding catalogue insert same_archetype
foundation_internal_catalogue =
    value_of (catalogue foundation_internal foundation_internal_roles) tt

-- `CATALOGUES` and `catalogue_for`
unfoldable pub catalogue_for : Archetype → RoleCatalogue
unfolding operator_catalogue brand_customer_catalogue foundation_internal_catalogue
catalogue_for operator = operator_catalogue
catalogue_for brand_customer = brand_customer_catalogue
catalogue_for foundation_internal = foundation_internal_catalogue
