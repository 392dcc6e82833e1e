-- ===== src/Auth/RoleStore/Examples.antt =====
-- The theorems of this directory at concrete tables.
use trustlist_core.Auth.Samples.{all_readable}
use trustlist_core.Base.{◌≡◌, refl, [], ◌∷◌, none, some, ℕ-eq, String-eq}
use trustlist_core.Base.Dict.{lookup, insert}
use trustlist_core.Base.Result.{ok}
use trustlist_core.Auth.Rbac.Model.{operator, brand_customer, same_archetype}
use trustlist_core.Auth.Rbac.Framework.{catalogue, has_role}
use trustlist_core.Auth.Rbac.Catalogues.{catalogue_for}
use trustlist_core.Auth.Database.{
  Database, RoleAssignment, customer_check, has_key, insert_assignment, admissible,
}
use trustlist_core.Auth.RoleStore.{check_customer_scope, grant_role}

abbrev no_grants : Database
no_grants = record {
  types = all_readable;
  accounts =
      record { user_id = 1; archetype = operator }
      ∷ record { user_id = 2; archetype = brand_customer }
      ∷ [];
  assignments = [];
  audit_events = [];
}

-- User 2 is an analyst of customer 70.
abbrev analyst_row : RoleAssignment
analyst_row = record {
  user_id = 2;
  account_archetype = brand_customer;
  role = "analyst";
  granted_at = 5;
  granted_by_user_id = some 1;
  revoked_at = none;
  customer_id = some 70;
}

abbrev one_grant : Database
one_grant = record no_grants { assignments = analyst_row ∷ [] }

-- `grant_role` for the analyst returns the row, which is all that the table then holds.
grants_analyst :
    grant_role 5 2 brand_customer "analyst" (some 1) (some 70) none no_grants
    ≡ (ok analyst_row, one_grant)
unfolding grant_role check_customer_scope insert_assignment admissible catalogue_for has_role insert
    lookup same_archetype catalogue customer_check has_key
grants_analyst = refl
