-- ===== src/Auth/RoleStore.antt =====
-- auth/trustlist_auth/role_store.py: the class `RoleStore`. Each method takes the connection, here the
-- database, and `now` is the reading of the clock that the method makes if no time is given.
pub mod Consistent
pub mod Live
mod Examples
use trustlist_core.Base.{
  ℕ, suc, String, Bool, true, false, not, ◌&&◌, List, [], ◌∷◌, map, Option, none, some, ◌==◌,
  String-eq, ℕ-eq, if◌then◌else◌, is_some,
}
use trustlist_core.Base.Lists.{keep, length, update}
use trustlist_core.Base.Result.{Result, ok, err}
use trustlist_core.Base.Action.{Action, pure, raise, lift, ◌>>=◌, ◌>>◌}
use trustlist_core.Auth.Errors.{Error, unknown_role, role_scope_error}
use trustlist_core.Auth.Rbac.Model.{
  Archetype, operator, brand_customer, foundation_internal, Archetype-eq,
}
use trustlist_core.Auth.Rbac.Framework.{has_role}
use trustlist_core.Auth.Rbac.Catalogues.{catalogue_for}
use trustlist_core.Auth.Database.{Database, RoleAssignment, insert_assignment, has_key}

-- `RoleAssignment.is_live`
abbrev pub is_live : RoleAssignment → Bool
is_live r = not (is_some r.revoked_at)

-- `_check_customer_scope`
unfoldable pub check_customer_scope : Archetype → Option ℕ → Result Error (Unit {0})
check_customer_scope archetype customer_id =
    if (archetype == brand_customer) && not (is_some customer_id)
    then err role_scope_error
    else if not (archetype == brand_customer) && is_some customer_id
    then err role_scope_error
    else ok tt

abbrev pub or_now : Option ℕ → ℕ → ℕ
or_now none now = now
or_now (some moment) now = moment

-- `grant_role`
unfoldable pub grant_role :
    ℕ
    → ℕ
    → Archetype
    → String
    → Option ℕ
    → Option ℕ
    → Option ℕ
    → Action Error Database RoleAssignment
unfolding check_customer_scope
grant_role now user_id archetype role granted_by_user_id customer_id granted_at =
    if not (has_role (catalogue_for archetype) role) then raise unknown_role else do
      lift (check_customer_scope archetype customer_id)
      let r : RoleAssignment = record {
        user_id = user_id;
        account_archetype = archetype;
        role = role;
        granted_at = or_now granted_at now;
        granted_by_user_id = granted_by_user_id;
        revoked_at = none;
        customer_id = customer_id;
      }
      insert_assignment r
      pure r

-- the WHERE clause of the UPDATE in `revoke_role`
unfoldable pub revocable : ℕ → String → ℕ → RoleAssignment → Bool
revocable user_id role granted_at r = has_key user_id role granted_at r && is_live r

-- the UPDATE in `revoke_role`
unfoldable pub set_revoked : ℕ → String → ℕ → ℕ → RoleAssignment → RoleAssignment
unfolding revocable
set_revoked user_id role granted_at moment r =
    if revocable user_id role granted_at r then record r { revoked_at = some moment } else r

-- `revoke_role`: the row count is that of the rows that the UPDATE matched
unfoldable pub revoke_role : ℕ → ℕ → String → ℕ → Option ℕ → Action Error Database Bool
unfolding set_revoked
revoke_role now user_id role granted_at revoked_at db =
    let matched = length (keep (revocable user_id role granted_at) db.assignments) in
    (
      ok (matched == 1),
      record db {
        assignments =
            map (set_revoked user_id role granted_at (or_now revoked_at now)) db.assignments;
      },
    )

-- the WHERE clause of `live_assignments`; a NULL customer equals none
unfoldable pub selected : ℕ → Option ℕ → RoleAssignment → Bool
selected user_id none r = (r.user_id == user_id) && is_live r
selected user_id (some customer) r =
    (r.user_id == user_id)
    && is_live r
    && (elim r.customer_id [ none ↦ false | some c ↦ c == customer ])

unfoldable pub live_assignments : ℕ → Option ℕ → Database → List RoleAssignment
unfolding selected
live_assignments user_id customer_id db = keep (selected user_id customer_id) db.assignments

-- `live_role_identifiers`: the set of the roles
unfoldable pub live_role_identifiers : ℕ → Option ℕ → Database → List String
unfolding live_assignments
live_role_identifiers user_id customer_id db =
    update [] (map (λ r. r.role) (live_assignments user_id customer_id db))
