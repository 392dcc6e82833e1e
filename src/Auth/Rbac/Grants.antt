-- ===== src/Auth/Rbac/Grants.antt =====
-- What the declared catalogues confer, whatever roles are held.
use trustlist_core.Base.{
  ◌≡◌, refl, String, Bool, true, false, not, ◌&&◌, ◌||◌, List, [], ◌∷◌, arith, ◌⊎◌, inl, inr,
  String-eq,
}
use trustlist_core.Base.Lists.{contains, any}
use trustlist_core.Base.Dict.{Dict, lookup, insert}
use trustlist_core.Base.Result.{ok}
use trustlist_core.Auth.Rbac.Model.{
  Archetype, operator, brand_customer, foundation_internal, Permission, Permission-eq, team_manage,
  account_manage, platform_operate, codebase_maintain, same_permission, same_archetype,
}
use trustlist_core.Auth.Rbac.Framework.{
  Role, RoleCatalogue, catalogue, active_role_identifiers, has_permission,
}
use trustlist_core.Auth.Rbac.Catalogues.{catalogue_for}
use trustlist_core.Auth.Rbac.Resolve.{confers, has_permission_lem}

-- Some active role among the entries carries the permission.
conferrable : Permission → Dict String Role → Bool
conferrable p [] = false
conferrable p ((i, role) ∷ roles) =
    (not role.feature_flagged_off && contains p role.permissions) || conferrable p roles

confers-conferrable :
    (a : Archetype) (p : Permission) (i : String) (roles : Dict String Role)
    → confers (record { archetype = a; roles = roles }) p i ≡ true
    → conferrable p roles ≡ true
unfolding confers conferrable lookup
confers-conferrable a p i [] h = cc
confers-conferrable a p i ((j, role) ∷ roles) h = ground (arith, confers-conferrable a p i roles)

any-confers-conferrable :
    (c : RoleCatalogue) (p : Permission) (ids : List String)
    → any (confers c p) ids ≡ true
    → conferrable p c.roles ≡ true
any-confers-conferrable c p [] h = cc
any-confers-conferrable c p (i ∷ ids) h =
    ground (arith, confers-conferrable c.archetype p i c.roles, any-confers-conferrable c p ids)

has_permission-conferrable :
    (c : RoleCatalogue) (ids : List String) (p : Permission)
    → has_permission c ids p ≡ ok true
    → conferrable p c.roles ≡ true
has_permission-conferrable c ids p h =
    ground (arith, has_permission_lem c ids p, any-confers-conferrable c p ids)

abbrev Confers : Archetype → List String → Permission → Type 0
Confers a ids p = has_permission (catalogue_for a) ids p ≡ ok true

conferrable-foundation :
    (p : Permission)
    → conferrable p (catalogue_for foundation_internal).roles ≡ true
    → (p ≡ platform_operate) ⊎ (p ≡ codebase_maintain)
unfolding conferrable catalogue_for insert same_permission same_archetype catalogue
conferrable-foundation team_manage h = cc
conferrable-foundation platform_operate h = inl refl
conferrable-foundation codebase_maintain h = inr refl
conferrable-foundation _ h = cc

-- While the governance roles are flagged off, no set of Foundation-internal roles confers anything
-- but platform:operate and codebase:maintain.
pub foundation_stage_0 :
    (ids : List String) (p : Permission)
    → has_permission (catalogue_for foundation_internal) ids p ≡ ok true
    → (p ≡ platform_operate) ⊎ (p ≡ codebase_maintain)
foundation_stage_0 ids p h = conferrable-foundation p (has_permission-conferrable _ ids p h)

-- The active roles together confer all that any roles of the catalogue can.
active_confer :
    (a : Archetype) (p : Permission)
    → conferrable p (catalogue_for a).roles ≡ true
    → Confers a (active_role_identifiers (catalogue_for a)) p
unfolding conferrable catalogue_for insert lookup same_permission same_archetype catalogue
    active_role_identifiers has_permission
active_confer operator team_manage h = refl
active_confer operator _ h = ground arith
active_confer brand_customer team_manage h = refl
active_confer brand_customer _ h = ground arith
active_confer foundation_internal team_manage h = cc
active_confer foundation_internal _ h = ground arith

-- Whatever roles are held in a declared catalogue, flagged-off ones included, they confer no more
-- than the active roles of that catalogue together.
pub has_permission-le-active :
    (a : Archetype) (ids : List String) (p : Permission)
    → has_permission (catalogue_for a) ids p ≡ ok true
    → has_permission (catalogue_for a) (active_role_identifiers (catalogue_for a)) p ≡ ok true
has_permission-le-active a ids p h = active_confer a p (has_permission-conferrable _ ids p h)

-- The permissions that both commercial catalogues share.
abbrev IsShared : Permission → Type 0
IsShared p = (p ≡ team_manage) ⊎ (p ≡ account_manage)

shared :
    (a b : Archetype) (p : Permission)
    → conferrable p (catalogue_for a).roles ≡ true
    → conferrable p (catalogue_for b).roles ≡ true
    → (a ≡ b) ⊎ IsShared p
unfolding conferrable catalogue_for insert same_permission same_archetype catalogue
shared operator operator p h k = inl refl
shared brand_customer brand_customer p h k = inl refl
shared foundation_internal foundation_internal p h k = inl refl
shared _ _ team_manage h k = inr (inl refl)
shared _ _ account_manage h k = inr (inr refl)
shared _ _ _ h k = cc

-- A permission that roles of two different archetypes can confer is team:manage or account:manage.
pub archetypes_apart :
    (a b : Archetype) (ids js : List String) (p : Permission)
    → has_permission (catalogue_for a) ids p ≡ ok true
    → has_permission (catalogue_for b) js p ≡ ok true
    → (a ≡ b) ⊎ ((p ≡ team_manage) ⊎ (p ≡ account_manage))
archetypes_apart a b ids js p h k =
    shared a b p (has_permission-conferrable _ ids p h) (has_permission-conferrable _ js p k)
