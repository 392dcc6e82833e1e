-- ===== src/Auth/Service/Isolation.antt =====
-- Per-customer isolation: a role that is granted for one customer changes nothing for another.
use trustlist_core.Base.{
  ℕ, String, ◌≡◌, ◌≢◌, refl, sym, ap, ◌∙◌, List, Option, none, some, arith, ℕ-eq, String-eq,
}
use trustlist_core.Base.Lists.{any, contains}
use trustlist_core.Base.Action.{Keeps, continue_inv, Keeps-bind, Keeps-still, pure}
use trustlist_core.Auth.Rbac.Model.{Archetype, Permission}
use trustlist_core.Auth.Rbac.Catalogues.{catalogue_for}
use trustlist_core.Auth.Rbac.Resolve.{has_permission_order}
use trustlist_core.Auth.Database.{
  Database, RoleAssignment, AuthEventType, Detail, insert_assignment, role_grant,
}
use trustlist_core.Auth.RoleStore.{live_role_identifiers, selected, grant_role}
use trustlist_core.Auth.RoleStore.Live.{holds, contains-live}
use trustlist_core.Auth.External.{External}
use trustlist_core.Auth.Audit.{Request, record_event}
use trustlist_core.Auth.Audit.Trail.{record_event_lem}
use trustlist_core.Auth.Service.World.{World, Draws, audit, journal, on_database}
use trustlist_core.Auth.Service.Methods.{member, has_permission, audit_grant, assign_role}

-- An audit record leaves the roles alone.
pub record_event-assignments :
    (lower : String → String) (now event_id : ℕ) (q : Request) (w : World)
    → (record_event lower now event_id q (journal w)).1.database.assignments
      ≡ w.database.assignments
record_event-assignments lower now event_id q w = rw record_event_lem (ground arith)

contains-grant_other :
    (now v : ℕ) (b : Archetype) (role : String) (granted_by : Option ℕ) (c u c' : ℕ) (q : String)
    (db : Database)
    → c ≢ c'
    → contains q
        (live_role_identifiers u (some c') (grant_role now v b role granted_by (some c) none db).1)
      ≡ contains q (live_role_identifiers u (some c') db)
unfolding grant_role insert_assignment holds selected
contains-grant_other now v b role granted_by c u c' q db other = simp contains-live (ground arith)

-- The roles in the database are `rows`.
abbrev HasRows : List RoleAssignment → World → Type 0
HasRows rows w = w.database.assignments ≡ rows

audit-HasRows :
    (x : External) (d : Draws) (rows : List RoleAssignment) (k : AuthEventType) (user_id : Option ℕ)
    (ip agent : Option String) (details : List (String × Detail))
    → Keeps (HasRows rows) (audit x.lower d k user_id ip agent details)
unfolding audit
audit-HasRows x d rows k user_id ip agent details = record {
  at = λ w h. record_event-assignments x.lower d.now d.event_id _ w ∙ h;
}

audit_grant-HasRows :
    (x : External) (d : Draws) (rows : List RoleAssignment) (v : ℕ) (role : String)
    (granted_by customer_id : Option ℕ) (r : RoleAssignment)
    → Keeps (HasRows rows) (audit_grant x d v role granted_by customer_id r)
unfolding audit_grant
audit_grant-HasRows x d rows v role granted_by customer_id r =
    Keeps-bind (HasRows rows) (audit x.lower d role_grant (some v) none none _) (λ _. pure r)
      (audit-HasRows x d rows role_grant (some v) none none _)
      (λ _. Keeps-still (HasRows rows) (pure r) (λ w. refl))

assign_role-assignments :
    (x : External) (d : Draws) (v : ℕ) (b : Archetype) (role : String)
    (granted_by customer_id : Option ℕ) (w : World)
    → (assign_role x d v b role granted_by customer_id w).1.database.assignments
      ≡ (grant_role d.now v b role granted_by customer_id none w.database).1.assignments
unfolding assign_role on_database
assign_role-assignments x d v b role granted_by customer_id w =
    let granted = (grant_role d.now v b role granted_by customer_id none w.database).1 in
    continue_inv (HasRows granted.assignments) (audit_grant x d v role granted_by customer_id)
      (grant_role d.now v b role granted_by customer_id none w.database).0
      (record w { database = granted }) refl
      (λ r _.
        (audit_grant-HasRows x d granted.assignments v role granted_by customer_id r).at _ refl)

-- A grant for one customer, whatever comes of it, changes no answer of `has_permission` for another
-- customer, whoever asks.
pub assign_role-isolated :
    (x : External) (d : Draws) (v : ℕ) (b : Archetype) (role : String) (granted_by : Option ℕ)
    (c u c' : ℕ) (a : Archetype) (p : Permission) (w : World)
    → c ≢ c'
    → (has_permission u a (member p) (some c') (assign_role x d v b role granted_by (some c) w).1).0
      ≡ (has_permission u a (member p) (some c') w).0
unfolding has_permission
assign_role-isolated x d v b role granted_by c u c' a p w other =
    has_permission_order (catalogue_for a) _ _ p λ q.
      contains-live u (some c') q (assign_role x d v b role granted_by (some c) w).1.database
      ∙ ap (λ rows. any (holds u (some c') q) rows)
          (assign_role-assignments x d v b role granted_by (some c) w)
      ∙ sym (
          contains-live u (some c') q
            (grant_role d.now v b role granted_by (some c) none w.database).1)
      ∙ contains-grant_other d.now v b role granted_by c u c' q w.database other
