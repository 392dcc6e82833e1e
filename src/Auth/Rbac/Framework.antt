-- ===== src/Auth/Rbac/Framework.antt =====
-- auth/trustlist_auth/rbac.py: the classes `Role` and `RoleCatalogue`. A frozenset is a list that is
-- read by `contains` only; the description of a role is kept and never read.
use trustlist_core.Base.{String, Bool, not, List, [], ◌∷◌, if◌then◌else◌, ◌==◌, String-eq}
use trustlist_core.Base.Lists.{contains, update}
use trustlist_core.Base.Dict.{Dict, lookup, has, insert}
use trustlist_core.Base.Result.{Result, ok, ◌>>=◌, ◌>>◌, raise_if, or_raise}
use trustlist_core.Auth.Errors.{Error, unknown_role, value_error}
use trustlist_core.Auth.Rbac.Model.{Archetype, Permission, Archetype-eq, Permission-eq}

pub record Role : Type 0 where
  pub identifier : String
  pub archetype : Archetype
  pub permissions : List Permission
  pub description : String
  pub feature_flagged_off : Bool

-- `Role.grants`
unfoldable pub grants : Role → Permission → Bool
grants role permission = contains permission role.permissions

pub record RoleCatalogue : Type 0 where
  pub archetype : Archetype
  pub roles : Dict String Role

-- The loop of `__post_init__`.
unfoldable pub check_roles : Archetype → Dict String Role → Result Error (Unit {0})
check_roles archetype [] = ok tt
check_roles archetype ((identifier, role) ∷ roles) = do
  raise_if (not (role.identifier == identifier)) value_error
  raise_if (not (role.archetype == archetype)) value_error
  check_roles archetype roles

-- `RoleCatalogue(archetype, roles)`, with its `__post_init__`
unfoldable pub new_catalogue : Archetype → Dict String Role → Result Error RoleCatalogue
unfolding check_roles
new_catalogue archetype roles = do
  check_roles archetype roles
  ok (record { archetype = archetype; roles = roles })

-- `{role.identifier: role for role in roles}`, on the entries so far
unfoldable pub keyed : Dict String Role → List Role → Dict String Role
keyed d [] = d
keyed d (role ∷ roles) = keyed (insert role.identifier role d) roles

-- `_catalogue`
unfoldable pub catalogue : Archetype → List Role → Result Error RoleCatalogue
unfolding new_catalogue keyed
catalogue archetype roles = new_catalogue archetype (keyed [] roles)

-- `RoleCatalogue.get`
unfoldable pub get : RoleCatalogue → String → Result Error Role
get c identifier = or_raise (lookup identifier c.roles) unknown_role

-- `RoleCatalogue.has`
unfoldable pub has_role : RoleCatalogue → String → Bool
has_role c identifier = has identifier c.roles

-- The comprehension of `RoleCatalogue.active_role_identifiers`, over the entries of `roles`.
unfoldable pub active_identifiers : Dict String Role → List String
active_identifiers [] = []
active_identifiers ((identifier, role) ∷ roles) =
    if role.feature_flagged_off
    then active_identifiers roles
    else identifier ∷ active_identifiers roles

unfoldable pub active_role_identifiers : RoleCatalogue → List String
unfolding active_identifiers
active_role_identifiers c = active_identifiers c.roles

-- The loop of `RoleCatalogue.resolve_permissions`; `resolved` is the set so far.
unfoldable pub resolve_from :
    RoleCatalogue → List Permission → List String → Result Error (List Permission)
unfolding get
resolve_from c resolved [] = ok resolved
resolve_from c resolved (identifier ∷ rest) = do
  role ← get c identifier
  resolve_from c (if role.feature_flagged_off then resolved else update resolved role.permissions)
      rest

unfoldable pub resolve_permissions : RoleCatalogue → List String → Result Error (List Permission)
unfolding resolve_from
resolve_permissions c role_identifiers = resolve_from c [] role_identifiers

-- `RoleCatalogue.has_permission`
unfoldable pub has_permission : RoleCatalogue → List String → Permission → Result Error Bool
unfolding resolve_permissions
has_permission c role_identifiers permission = do
  resolved ← resolve_permissions c role_identifiers
  ok (contains permission resolved)
