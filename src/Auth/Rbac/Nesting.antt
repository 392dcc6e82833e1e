-- ===== src/Auth/Rbac/Nesting.antt =====
-- The order of the built-in roles: "permissions nesting downward".
use trustlist_core.Base.{◌≡◌, String, true, [], ◌∷◌, arith}
use trustlist_core.Base.Dict.{lookup, insert}
use trustlist_core.Base.Result.{ok}
use trustlist_core.Auth.Rbac.Model.{
  operator, brand_customer, Permission, team_manage, same_permission, same_archetype,
}
use trustlist_core.Auth.Rbac.Framework.{catalogue, has_permission}
use trustlist_core.Auth.Rbac.Catalogues.{catalogue_for}

-- The order in which the roles of the operator catalogue are declared, from the least up.
pub data OperatorStep : String → String → Type 0 where
  read_only_operator : OperatorStep "read_only" "operator"
  operator_admin : OperatorStep "operator" "admin"
  admin_owner : OperatorStep "admin" "owner"

pub data BrandCustomerStep : String → String → Type 0 where
  read_only_analyst : BrandCustomerStep "read_only" "analyst"
  analyst_operator : BrandCustomerStep "analyst" "operator"
  operator_admin : BrandCustomerStep "operator" "admin"
  admin_owner : BrandCustomerStep "admin" "owner"

-- In the operator catalogue read_only, operator, admin and owner confer more and more: what one of
-- them confers, the next one confers.
pub operator_nesting :
    {low high : String} (step : OperatorStep low high) (p : Permission)
    → has_permission (catalogue_for operator) (low ∷ []) p ≡ ok true
    → has_permission (catalogue_for operator) (high ∷ []) p ≡ ok true
unfolding has_permission catalogue_for insert lookup same_permission same_archetype catalogue
operator_nesting read_only_operator team_manage h = ground arith
operator_nesting read_only_operator _ h = ground arith
operator_nesting operator_admin team_manage h = ground arith
operator_nesting operator_admin _ h = ground arith
operator_nesting admin_owner team_manage h = ground arith
operator_nesting admin_owner _ h = ground arith

-- In the brand-customer catalogue read_only, analyst, operator, admin and owner confer more and more.
pub brand_customer_nesting :
    {low high : String} (step : BrandCustomerStep low high) (p : Permission)
    → has_permission (catalogue_for brand_customer) (low ∷ []) p ≡ ok true
    → has_permission (catalogue_for brand_customer) (high ∷ []) p ≡ ok true
unfolding has_permission catalogue_for insert lookup same_permission same_archetype catalogue
brand_customer_nesting read_only_analyst team_manage h = ground arith
brand_customer_nesting read_only_analyst _ h = ground arith
brand_customer_nesting analyst_operator team_manage h = ground arith
brand_customer_nesting analyst_operator _ h = ground arith
brand_customer_nesting operator_admin team_manage h = ground arith
brand_customer_nesting operator_admin _ h = ground arith
brand_customer_nesting admin_owner team_manage h = ground arith
brand_customer_nesting admin_owner _ h = ground arith
