-- ===== src/Auth/RoleStore/Consistent.antt =====
-- The table `user_role_assignment` stays consistent under `RoleStore`, and the test that the code
-- makes before an INSERT is the table's CHECK.
use trustlist_core.Base.{
  ℕ, String, ◌≡◌, refl, true, false, List, [], ◌∷◌, map, Option, arith, ℕ-eq, String-eq,
  if◌then◌else◌,
}
use trustlist_core.Base.Lists.{any, All}
use trustlist_core.Base.Result.{ok, err}
use trustlist_core.Auth.Errors.{role_scope_error}
use trustlist_core.Auth.Rbac.Model.{Archetype, operator, Archetype-eq, same_archetype}
use trustlist_core.Auth.Rbac.Framework.{has_role}
use trustlist_core.Auth.Rbac.Catalogues.{catalogue_for}
use trustlist_core.Auth.Database.{
  Database, UserAccount, RoleAssignment, customer_check, has_account_of, has_key, insert_assignment,
}
use trustlist_core.Auth.RoleStore.{
  check_customer_scope, grant_role, revoke_role, set_revoked, or_now,
}

-- The scope test before the INSERT accepts exactly what the CHECK constraint accepts.
pub check_customer_scope_lem :
    (a : Archetype) (customer_id : Option ℕ)
    → check_customer_scope a customer_id
      ≡ (if customer_check a customer_id then ok tt else err role_scope_error)
unfolding check_customer_scope customer_check same_archetype
check_customer_scope_lem operator c = ground arith
check_customer_scope_lem _ c = ground arith

-- A row has a role of its archetype's catalogue, the scope that the archetype asks for, and the
-- archetype of its account.
pub record RowIsOk (accounts : List UserAccount) (r : RoleAssignment) : Type 0 where
  pub role_known : has_role (catalogue_for r.account_archetype) r.role ≡ true
  pub scope : customer_check r.account_archetype r.customer_id ≡ true
  pub account : has_account_of r.user_id r.account_archetype accounts ≡ true

-- No two rows have one primary key.
abbrev pub UniqueKeys : List RoleAssignment → Type 0
UniqueKeys [] = Unit
UniqueKeys (r ∷ rows) = (any (has_key r.user_id r.role r.granted_at) rows ≡ false) × UniqueKeys rows

pub record IsConsistent (db : Database) : Type 0 where
  pub rows : All (RowIsOk db.accounts) db.assignments
  pub keys : UniqueKeys db.assignments

module _ (now user_id : ℕ) (role : String) where
  module _ (a : Archetype) (granted_by customer_id granted_at : Option ℕ) (db : Database) where
    -- `grant_role` keeps the table consistent, whether it returns or raises.
    pub grant_role-IsConsistent :
        IsConsistent db
        → IsConsistent (grant_role now user_id a role granted_by customer_id granted_at db).1
    unfolding grant_role insert_assignment
    grant_role-IsConsistent h = ground (arith, check_customer_scope_lem a customer_id)

  module _ (granted_at moment : ℕ) where
    any-set_revoked :
        (u : ℕ) (q : String) (g : ℕ) (rows : List RoleAssignment)
        → any (has_key u q g) (map (set_revoked user_id role granted_at moment) rows)
          ≡ any (has_key u q g) rows
    unfolding has_key set_revoked
    any-set_revoked u q g [] = refl
    any-set_revoked u q g (r ∷ rows) = ground (arith, any-set_revoked u q g rows)

    UniqueKeys-set_revoked :
        (rows : List RoleAssignment)
        → UniqueKeys rows
        → UniqueKeys (map (set_revoked user_id role granted_at moment) rows)
    unfolding set_revoked
    UniqueKeys-set_revoked [] h = h
    UniqueKeys-set_revoked (r ∷ rows) h =
        ground (
          arith,
          any-set_revoked r.user_id r.role r.granted_at rows,
          UniqueKeys-set_revoked rows h.1,
        )

    All-set_revoked :
        (accounts : List UserAccount) (rows : List RoleAssignment)
        → All (RowIsOk accounts) rows
        → All (RowIsOk accounts) (map (set_revoked user_id role granted_at moment) rows)
    unfolding set_revoked
    All-set_revoked accounts [] h = h
    All-set_revoked accounts (r ∷ rows) h = ground (arith, All-set_revoked accounts rows h.1)

  -- `revoke_role` keeps the table consistent.
  pub revoke_role-IsConsistent :
      (granted_at : ℕ) (revoked_at : Option ℕ) (db : Database)
      → IsConsistent db
      → IsConsistent (revoke_role now user_id role granted_at revoked_at db).1
  unfolding revoke_role
  revoke_role-IsConsistent granted_at revoked_at db h = record {
    rows = All-set_revoked granted_at (or_now revoked_at now) db.accounts db.assignments h.rows;
    keys = UniqueKeys-set_revoked granted_at (or_now revoked_at now) db.assignments h.keys;
  }
