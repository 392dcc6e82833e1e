-- ===== src/Auth/Service/Access.antt =====
-- RBAC through the service: roles held in the database against the catalogue of the archetype.
use trustlist_core.Base.{
  ℕ, String, ◌≡◌, sym, ◌∙◌, subst, Bool, true, false, List, [], ◌∷◌, Option, none, some, arith,
  ==_iff, ℕ-eq, String-eq, Bool-cases, inl, inr,
}
use trustlist_core.Base.Lists.{any, contains, All}
use trustlist_core.Base.Result.{ok}
use trustlist_core.Auth.Rbac.Model.{Archetype, Permission, Archetype-eq}
use trustlist_core.Auth.Rbac.Framework.{has_role}
use trustlist_core.Auth.Rbac.Catalogues.{catalogue_for}
use trustlist_core.Auth.Rbac.Resolve.{confers, unknown, has_permission_lem}
use trustlist_core.Auth.Database.{Database, RoleAssignment, UserAccount, has_account_of}
use trustlist_core.Auth.RoleStore.{live_role_identifiers, selected}
use trustlist_core.Auth.RoleStore.Consistent.{IsConsistent, RowIsOk}
use trustlist_core.Auth.RoleStore.Live.{holds, contains-live}
use trustlist_core.Auth.Service.World.{World}
use trustlist_core.Auth.Service.Methods.{member, has_permission}

-- `accounts` holds at most one archetype for `u`: the primary key of `user_account`.
abbrev pub IsOf : ℕ → Archetype → List UserAccount → Type 0
IsOf u a accounts = (b : Archetype) → has_account_of u b accounts ≡ true → b ≡ a

any-live :
    (q : String → Bool) (ids : List String)
    → any q ids ≡ true
    → (i : String) × (contains i ids ≡ true) × (q i ≡ true)
any-live q [] h = absurd (cc)
any-live q (i ∷ ids) h = elim (Bool-cases (q i)) [
  | inl holds ↦ (i, ground (arith, ==_iff i i), holds)
  | inr fails ↦ let (j, found, holds) = any-live q ids (ground arith) in (j, ground arith, holds)
]

holds-row :
    (u : ℕ) (filter : Option ℕ) (q : String) (r : RoleAssignment)
    → holds u filter q r ≡ true
    → (r.user_id ≡ u) × (r.role ≡ q)
unfolding holds selected
holds-row u none q r h = ground (arith, ==_iff r.role q)
holds-row u (some c) q r h = ground (arith, ==_iff r.role q)

any-holds-known :
    (u : ℕ) (a : Archetype) (filter : Option ℕ) (i : String) (accounts : List UserAccount)
    (rows : List RoleAssignment)
    → IsOf u a accounts
    → All (RowIsOk accounts) rows
    → any (holds u filter i) rows ≡ true
    → has_role (catalogue_for a) i ≡ true
any-holds-known u a filter i accounts [] of_a h k = cc
any-holds-known u a filter i accounts (r ∷ rows) of_a h k = elim (Bool-cases (holds u filter i r)) [
  | inl here ↦
      let (of_u, named) = holds-row u filter i r here in
      let same =
        of_a r.account_archetype
          (subst (λ v. has_account_of v r.account_archetype accounts ≡ true) of_u h.0.account) in
      subst (λ b. has_role (catalogue_for b) i ≡ true) same
        (subst (λ j. has_role (catalogue_for r.account_archetype) j ≡ true) named h.0.role_known)
  | inr there ↦ any-holds-known u a filter i accounts rows of_a h.1 (ground arith)
]

no_unknown :
    (u : ℕ) (a : Archetype) (filter : Option ℕ) (db : Database)
    → IsConsistent db
    → IsOf u a db.accounts
    → any (unknown (catalogue_for a)) (live_role_identifiers u filter db) ≡ false
unfolding unknown
no_unknown u a filter db h of_a =
    elim (Bool-cases (any (unknown (catalogue_for a)) (live_role_identifiers u filter db))) [
      | inr fine ↦ fine
      | inl bad ↦
          let (i, held, missing) = any-live _ (live_role_identifiers u filter db) bad in
          let known =
            any-holds-known u a filter i db.accounts db.assignments of_a h.rows
              (sym (contains-live u filter i db) ∙ held) in
          absurd (unfold has_role in ground arith)
    ]

-- In a consistent table, for a user's own archetype, `has_permission` never raises UnknownRole: it
-- tells whether some live role under the filter is active and carries the permission.
pub has_permission-total :
    (u : ℕ) (a : Archetype) (filter : Option ℕ) (p : Permission) (w : World)
    → IsConsistent w.database
    → IsOf u a w.database.accounts
    → has_permission u a (member p) filter w
      ≡ (ok (any (confers (catalogue_for a) p) (live_role_identifiers u filter w.database)), w)
unfolding has_permission
has_permission-total u a filter p w h of_a =
    rw (has_permission_lem, no_unknown u a filter w.database h of_a)
