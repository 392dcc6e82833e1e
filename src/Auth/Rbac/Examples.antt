-- ===== src/Auth/Rbac/Examples.antt =====
-- The theorems of this directory at concrete roles and permissions.
use trustlist_core.Base.{◌≡◌, refl, true, [], ◌∷◌, if◌then◌else◌, String-eq}
use trustlist_core.Base.Lists.{any}
use trustlist_core.Base.Dict.{lookup, insert}
use trustlist_core.Base.Result.{ok, err}
use trustlist_core.Auth.Errors.{unknown_role}
use trustlist_core.Auth.Rbac.Model.{
  operator, brand_customer, foundation_internal, team_manage, evidence_submit, audit_view,
  platform_operate, same_permission, same_archetype,
}
use trustlist_core.Auth.Rbac.Framework.{catalogue, has_permission}
use trustlist_core.Auth.Rbac.Catalogues.{catalogue_for}
use trustlist_core.Auth.Rbac.Resolve.{confers, unknown, has_permission_lem}

has_permission_lem_example :
    has_permission (catalogue_for operator) ("read_only" ∷ "ghost" ∷ []) evidence_submit ≡ (
      if any (unknown (catalogue_for operator)) ("read_only" ∷ "ghost" ∷ [])
      then err unknown_role
      else ok (any (confers (catalogue_for operator) evidence_submit) ("read_only" ∷ "ghost" ∷ [])))
has_permission_lem_example =
    has_permission_lem (catalogue_for operator) ("read_only" ∷ "ghost" ∷ []) evidence_submit

maintainer_operates :
    has_permission (catalogue_for foundation_internal) ("maintainer" ∷ []) platform_operate
    ≡ ok true
unfolding has_permission catalogue_for insert lookup same_permission same_archetype catalogue
maintainer_operates = refl

owner_manages : has_permission (catalogue_for operator) ("owner" ∷ []) team_manage ≡ ok true
unfolding has_permission catalogue_for insert lookup same_permission same_archetype catalogue
owner_manages = refl

brand_owner_manages :
    has_permission (catalogue_for brand_customer) ("owner" ∷ []) team_manage ≡ ok true
unfolding has_permission catalogue_for insert lookup same_permission same_archetype catalogue
brand_owner_manages = refl

operator_submits :
    has_permission (catalogue_for operator) ("operator" ∷ []) evidence_submit ≡ ok true
unfolding has_permission catalogue_for insert lookup same_permission same_archetype catalogue
operator_submits = refl

read_only_views :
    has_permission (catalogue_for brand_customer) ("read_only" ∷ []) audit_view ≡ ok true
unfolding has_permission catalogue_for insert lookup same_permission same_archetype catalogue
read_only_views = refl
