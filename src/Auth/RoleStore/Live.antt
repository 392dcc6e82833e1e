-- ===== src/Auth/RoleStore/Live.antt =====
-- What grants and revokes do to the live roles of every user, for every customer filter.
use trustlist_core.Base.{
  ℕ, String, ◌≡◌, refl, ap, Bool, true, false, not, ◌&&◌, ◌||◌, List, [], ◌∷◌, map, Option, none,
  some, arith, ◌==◌, ==_iff, ℕ-eq, String-eq,
}
use trustlist_core.Base.Lists.{any, keep, length, contains, contains-update}
use trustlist_core.Base.Result.{ok}
use trustlist_core.Auth.Rbac.Model.{Archetype}
use trustlist_core.Auth.Database.{Database, RoleAssignment, has_key, insert_assignment}
use trustlist_core.Auth.RoleStore.{
  grant_role, revoke_role, set_revoked, revocable, or_now, selected, live_role_identifiers,
}
use trustlist_core.Auth.RoleStore.Consistent.{IsConsistent, UniqueKeys}

-- The row counts for `v` under the filter, and has the role.
unfoldable pub holds : ℕ → Option ℕ → String → RoleAssignment → Bool
holds v filter q r = selected v filter r && (r.role == q)

contains-roles :
    (v : ℕ) (filter : Option ℕ) (q : String) (rows : List RoleAssignment)
    → contains q (map (λ r. r.role) (keep (selected v filter) rows)) ≡ any (holds v filter q) rows
unfolding holds
contains-roles v filter q [] = refl
contains-roles v filter q (r ∷ rows) = ground (arith, contains-roles v filter q rows)

-- A role is among the live identifiers exactly if some selected row has it.
pub contains-live :
    (v : ℕ) (filter : Option ℕ) (q : String) (db : Database)
    → contains q (live_role_identifiers v filter db) ≡ any (holds v filter q) db.assignments
unfolding live_role_identifiers
contains-live v filter q db = ground (
  arith,
  contains-update q []
      (map (λ (r : RoleAssignment). r.role) (keep (selected v filter) db.assignments)),
  contains-roles v filter q db.assignments,
)

-- A grant that returns adds its role to the live roles of those users and filters that select the
-- new row, and changes no other.
pub live-grant_role :
    (now user_id : ℕ) (a : Archetype) (role : String) (granted_by customer_id granted_at : Option ℕ)
    (db : Database) (r : RoleAssignment)
    → (grant_role now user_id a role granted_by customer_id granted_at db).0 ≡ ok r
    → (v : ℕ) (filter : Option ℕ) (q : String)
    → contains q (
        live_role_identifiers v filter
          (grant_role now user_id a role granted_by customer_id granted_at db).1)
      ≡ (holds v filter q r || contains q (live_role_identifiers v filter db))
unfolding grant_role insert_assignment
live-grant_role now user_id a role granted_by customer_id granted_at db r e v filter q =
    simp contains-live (ground arith)

-- The row that a grant returns is live, and has the arguments of the call.
pub grant_role-row :
    (now user_id : ℕ) (a : Archetype) (role : String) (granted_by customer_id granted_at : Option ℕ)
    (db : Database) (r : RoleAssignment)
    → (grant_role now user_id a role granted_by customer_id granted_at db).0 ≡ ok r
    → (r.user_id ≡ user_id)
      × (r.role ≡ role)
      × (r.customer_id ≡ customer_id)
      × (r.revoked_at ≡ none)
      × (r.granted_at ≡ or_now granted_at now)
unfolding grant_role insert_assignment
grant_role-row now user_id a role granted_by customer_id granted_at db r e = ground arith

module _ (user_id : ℕ) (role : String) (granted_at : ℕ) where
  any-holds-set_revoked :
      (moment v : ℕ) (filter : Option ℕ) (q : String) (rows : List RoleAssignment)
      → any (holds v filter q) (map (set_revoked user_id role granted_at moment) rows)
        ≡ any (λ r. holds v filter q r && not (has_key user_id role granted_at r)) rows
  unfolding holds set_revoked selected revocable
  any-holds-set_revoked moment v filter q [] = refl
  any-holds-set_revoked moment v none q (r ∷ rows) =
      ground (arith, any-holds-set_revoked moment v none q rows)
  any-holds-set_revoked moment v (some c) q (r ∷ rows) =
      ground (arith, any-holds-set_revoked moment v (some c) q rows)

  -- After a revoke the live roles are those of the rows with another primary key: the revoked grant
  -- counts for nobody, and every other grant counts as before.
  pub live-revoke_role :
      (now : ℕ) (revoked_at : Option ℕ) (db : Database) (v : ℕ) (filter : Option ℕ) (q : String)
      → contains q
          (live_role_identifiers v filter (revoke_role now user_id role granted_at revoked_at db).1)
        ≡ any (λ r. holds v filter q r && not (has_key user_id role granted_at r)) db.assignments
  unfolding revoke_role
  live-revoke_role now revoked_at db v filter q = simp (contains-live, any-holds-set_revoked)

  count_absent :
      (rows : List RoleAssignment)
      → any (has_key user_id role granted_at) rows ≡ false
      → (length (keep (revocable user_id role granted_at) rows) ≡ 0)
        × (any (revocable user_id role granted_at) rows ≡ false)
  unfolding revocable
  count_absent [] h = ground arith
  count_absent (r ∷ rows) h = ground (arith, count_absent rows)

  has_key_unique :
      (r : RoleAssignment) (rows : List RoleAssignment)
      → has_key user_id role granted_at r ≡ true
      → any (has_key r.user_id r.role r.granted_at) rows
        ≡ any (has_key user_id role granted_at) rows
  unfolding has_key
  has_key_unique r rows h = ground (arith, ==_iff r.role role)

  count_unique :
      (rows : List RoleAssignment)
      → UniqueKeys rows
      → (length (keep (revocable user_id role granted_at) rows) == 1)
        ≡ any (revocable user_id role granted_at) rows
  unfolding revocable
  count_unique [] h = refl
  count_unique (r ∷ rows) h =
      ground (arith, has_key_unique r rows, count_absent rows, count_unique rows h.1)

  -- In a consistent table a revoke returns true exactly when a live grant with the key is there.
  pub revoke_role-result :
      (now : ℕ) (revoked_at : Option ℕ) (db : Database)
      → IsConsistent db
      → (revoke_role now user_id role granted_at revoked_at db).0
        ≡ ok (any (revocable user_id role granted_at) db.assignments)
  unfolding revoke_role
  revoke_role-result now revoked_at db h = ap ok (count_unique db.assignments h.keys)

  length-revocable-set_revoked :
      (moment : ℕ) (rows : List RoleAssignment)
      → length (
          keep
            (revocable user_id role granted_at)
            (map (set_revoked user_id role granted_at moment) rows))
        ≡ 0
  unfolding set_revoked revocable has_key
  length-revocable-set_revoked moment [] = refl
  length-revocable-set_revoked moment (r ∷ rows) =
      ground (arith, length-revocable-set_revoked moment rows)

  -- A second revoke of the same grant returns false.
  pub revoke_role_twice :
      (now later : ℕ) (revoked_at again_at : Option ℕ) (db : Database)
      → (revoke_role later user_id role granted_at again_at
          (revoke_role now user_id role granted_at revoked_at db).1).0
        ≡ ok false
  unfolding revoke_role
  revoke_role_twice now later revoked_at again_at db = rw length-revocable-set_revoked
