-- ===== src/DataModel/Examples.antt =====
-- The theorems about the data model at concrete inputs.
use Prim.Native.Char.{code}
use Prim.Native.String.{[], ◌∷◌}
use trustlist_core.Auth.Samples.{all_readable}
use trustlist_core.Base.{
  ℕ, String, true, false, none, some, List, [], ◌∷◌, ◌++◌, ◌≡◌, refl, ◌&&◌, ◌==◌, String-eq,
  is_some, arith, Bool, ◌||◌, ltb, nat_eq,
}
use trustlist_core.Base.Lists.{contains, IsIn, All}
use trustlist_core.DataModel.Ddl.{Table, Index, EnumType, Operation, update, create_table}
use trustlist_core.DataModel.Models.{metadata}
use trustlist_core.DataModel.Models.Declaration.{mapped}
use trustlist_core.DataModel.Migration.{
  upgrade, app_role, create_tables, create_evidence_current_view, create_application_role,
}
use trustlist_core.DataModel.Migration.Enums.{create_enum_types, enum_type}
use trustlist_core.DataModel.Script.{tables, indexes, enum_types, find, granted}
use trustlist_core.DataModel.Script.Agreement.{
  twice_named_tables, view_index, declared_indexes, declared_enums, upgrade_lem,
}
use trustlist_core.DataModel.Script.Privileges.{allowed, privileges_lem}
use trustlist_core.DataModel.Script.Order.{created, IsInOrder, upgrade-IsInOrder}
use trustlist_core.DataModel.Migration.Domains.{domain}
use trustlist_core.DataModel.Script.Labels.{labels, labels_lem}
use trustlist_core.Base.Result.{ok, err}
use trustlist_core.Base.Tests.{if◌then◌else◌}
use trustlist_core.Auth.Database.{
  event_type_value, event_types, Database, RoleAssignment, AuditEvent, login_success,
  insert_assignment, insert_audit_event, refusal,
}
use trustlist_core.DataModel.Models.Accounts.{user_role_assignment, auth_audit_event}
use trustlist_core.DataModel.Constraints.{admits, converts}
use trustlist_core.DataModel.Constraints.Statements.{
  assignment_row, event_row, rows_of, customer_condition, insert_lem,
}
use trustlist_core.Auth.Rbac.Model.{archetype_value, archetypes, find_member, brand_customer}
use trustlist_core.Auth.Rbac.Framework.{has_role}
use trustlist_core.Auth.Rbac.Catalogues.{foundation_internal_catalogue}
use trustlist_core.DataModel.EvidenceCurrent.{Evidence, same_key, evidence_order, evidence_current}
use trustlist_core.DataModel.EvidenceCurrent.Sorting.{Order, order_by, insert_by}
use trustlist_core.DataModel.EvidenceCurrent.Latest.{Stands, Apart, evidence_current_lem}

upgrade_lem_example :
    (find Table.name "evidence" (tables upgrade) ≡ find Table.name "evidence" twice_named_tables)
    × (find Index.name "evidence" (indexes upgrade)
        ≡ find Index.name "evidence" (view_index ∷ declared_indexes metadata))
    × (find EnumType.name "evidence" (enum_types upgrade)
        ≡ find EnumType.name "evidence" (declared_enums metadata))
upgrade_lem_example = upgrade_lem "evidence"

privileges_lem_example :
    granted update "evidence" "trustlist_app" upgrade
    ≡ (allowed update "evidence" && (app_role == "trustlist_app"))
privileges_lem_example = privileges_lem update "evidence" "trustlist_app"

-- The operations after the enum types, the first of them left out.
abbrev tail_of : List Operation → List Operation
tail_of [] = []
tail_of (op ∷ ops) = ops

upgrade-IsInOrder_example : IsInOrder (created create_enum_types) (create_table domain)
unfolding enum_type
upgrade-IsInOrder_example =
    upgrade-IsInOrder create_enum_types
      (tail_of create_tables ++ create_evidence_current_view ++ create_application_role)
      (create_table domain) refl

labels_lem_example :
    (contains "role_grant" (labels "auth_audit_event" "event_type")
      ≡ is_some (find_member event_type_value "role_grant" event_types))
    × (contains "role_grant" (labels "user_account" "archetype")
        ≡ is_some (find_member archetype_value "role_grant" archetypes))
    × (contains "role_grant" (labels "user_role_assignment" "account_archetype")
        ≡ is_some (find_member archetype_value "role_grant" archetypes))
    × (contains "role_grant" (labels "foundation_user_account_extension" "governance_role")
        ≡ has_role foundation_internal_catalogue "role_grant")
labels_lem_example = labels_lem "role_grant"

-- The collation "C": texts by their code points.
text_le : String → String → Bool
text_le [] t = true
text_le (c ∷ s) [] = false
text_le (c ∷ s) (d ∷ t) = ltb (code c) (code d) || (nat_eq (code c) (code d) && text_le s t)

text_le_total : (s t : String) → text_le s t ≡ false → text_le t s ≡ true
unfolding text_le
text_le_total [] t h = ground arith
text_le_total (c ∷ s) [] h = refl
text_le_total (c ∷ s) (d ∷ t) h = ground (arith, h, text_le_total s t)

text_le_trans : (s t u : String) → text_le s t ≡ true → text_le t u ≡ true → text_le s u ≡ true
unfolding text_le
text_le_trans [] t u h k = refl
text_le_trans (c ∷ s) [] u h k = ground arith
text_le_trans (c ∷ s) (d ∷ t) [] h k = ground arith
text_le_trans (c ∷ s) (d ∷ t) (e ∷ u) h k = ground (arith, h, k, text_le_trans s t u)

abbrev code_points : Order String
code_points = record { le = text_le; le_total = text_le_total; le_trans = text_le_trans }

abbrev row : ℕ → String → ℕ → ℕ → Evidence
row evidence_id source_url observed_at recorded_at = record {
  evidence_id = evidence_id;
  domain_id = 7;
  signal_class = "dns";
  source = "system";
  method = "probe";
  source_url = source_url;
  observed_at = observed_at;
  recorded_at = recorded_at;
  contributor_identity = none;
  observed_value = "{}";
  provenance_id = 1;
}

abbrev rows : List Evidence
rows = row 1 "" 10 11 ∷ row 2 "/a" 10 11 ∷ row 3 "" 20 21 ∷ row 4 "" 20 21 ∷ []

evidence_current_rows : evidence_current code_points rows ≡ row 4 "" 20 21 ∷ row 2 "/a" 10 11 ∷ []
unfolding evidence_current evidence_order order_by insert_by text_le
evidence_current_rows = refl

evidence_current_lem_example :
    All (λ r. Stands code_points (evidence_current code_points rows) r) rows
    × All (λ s. IsIn s rows) (evidence_current code_points rows)
    × Apart same_key (evidence_current code_points rows)
evidence_current_lem_example = evidence_current_lem code_points rows

-- A grant of a brand-customer role without a customer, and an event about an account that is missing.
abbrev unscoped : RoleAssignment
unscoped = record {
  user_id = 5;
  account_archetype = brand_customer;
  role = "analyst";
  granted_at = 10;
  granted_by_user_id = none;
  revoked_at = none;
  customer_id = none;
}

abbrev login : AuditEvent
login = record {
  event_id = 1;
  event_type = login_success;
  occurred_at = 10;
  user_id = some 6;
  ip_address_observed = none;
  user_agent_observed = none;
  event_details = [];
}

abbrev one_user : Database
one_user = record {
  types = all_readable;
  accounts = record { user_id = 5; archetype = brand_customer } ∷ [];
  assignments = [];
  audit_events = [];
}

insert_lem_example :
    (insert_assignment unscoped one_user ≡ (
      if converts all_readable (mapped user_role_assignment) (assignment_row unscoped)
        && (admits (mapped user_role_assignment) (rows_of one_user) (assignment_row unscoped)
            && customer_condition (assignment_row unscoped))
      then (ok tt, record one_user { assignments = unscoped ∷ [] })
      else (
        err (
            refusal
              (converts all_readable (mapped user_role_assignment) (assignment_row unscoped))),
        one_user,
      )))
    × (insert_audit_event login one_user ≡ (
        if converts all_readable (mapped auth_audit_event) (event_row login)
          && admits (mapped auth_audit_event) (rows_of one_user) (event_row login)
        then (ok tt, record one_user { audit_events = login ∷ [] })
        else (
          err (refusal (converts all_readable (mapped auth_audit_event) (event_row login))),
          one_user,
        )))
insert_lem_example = insert_lem unscoped login one_user
