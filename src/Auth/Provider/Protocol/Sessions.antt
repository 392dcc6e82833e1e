-- ===== src/Auth/Provider/Protocol/Sessions.antt =====
-- auth/trustlist_auth/fake_provider.py: the methods on sessions, and the end of an account, against the
-- protocol.
use trustlist_core.Base.{
  ℕ, String, ◌≡◌, ◌≢◌, refl, subst, true, Option, some, arith, ℕ-eq, String-eq, Pair-eq,
  Option-cases, inl, inr,
}
use trustlist_core.Base.Dict.{
  lookup, insert, lookup-insert_self, insert-insert, lookup-map_values, map_values-map_values,
}
use trustlist_core.Base.Result.{ok, err}
use trustlist_core.Auth.Errors.{account_disabled, session_not_found, session_revoked}
use trustlist_core.Auth.Rbac.Model.{Archetype-eq}
use trustlist_core.Auth.External.{External}
use trustlist_core.Auth.Provider as Provider
use trustlist_core.Auth.Provider.{Account, SessionRecord, Session, ProviderUser}
use trustlist_core.Auth.Provider.Protocol.{SessionLaws}
use trustlist_core.Auth.Provider.Protocol.Issuance.{issued, apart, live}
use trustlist_core.Auth.Provider.Protocol.InMemory.{in_memory_provider, in_memory_insight}

revoke_if_of_twice :
    (u : ℕ) (r : SessionRecord)
    → Provider.revoke_if_of u (Provider.revoke_if_of u r) ≡ Provider.revoke_if_of u r
unfolding Provider.revoke_if_of
revoke_if_of_twice u r = ground arith

module _ (s : Provider.Provider) where
  none_issued :
      (now id : ℕ)
      → (ttl : ℕ) × (s ≡ Provider.new_provider ttl)
      → (Provider.get_session now id s).0 ≡ err session_not_found
  unfolding Provider.get_session Provider.new_provider lookup
  none_issued now id (ttl, same) = rw same refl

  revoked_session :
      (now later id : ℕ)
      → (Provider.get_session now id s).0 ≢ err session_not_found
      → (Provider.get_session later id (Provider.revoke_session id s).1).0 ≡ err session_revoked
  unfolding Provider.revoke_session Provider.revoke_found Provider.get_session
  revoked_session now later id there = elim (Option-cases (lookup id s.sessions)) [
    | inl missing ↦ absurd (there (ground (arith, missing)))
    | inr (r, found) ↦
        ground (arith, found, lookup-insert_self id (record r { revoked = true }) s.sessions)
  ]

  unknown_session :
      (now later id : ℕ)
      → (Provider.get_session now id s).0 ≡ err session_not_found
      → (Provider.get_session later id (Provider.revoke_session id s).1).0 ≡ err session_not_found
  unfolding Provider.revoke_session Provider.revoke_found Provider.get_session
  unknown_session now later id e = elim (Option-cases (lookup id s.sessions)) [
    | inl missing ↦ ground (arith, missing)
    | inr (r, found) ↦ absurd (ground (arith, e, found))
  ]

  refused :
      (now id u : ℕ) (device : Option String) (user : ProviderUser)
      → (Provider.get_user u s).0 ≡ ok user
      → user.disabled ≡ true
      → (Provider.issue_session now id u device s).0 ≡ err account_disabled
  unfolding Provider.get_user Provider.issue_session Provider.account
  refused now id u device user e off = elim (Option-cases (lookup u s.accounts)) [
    | inl missing ↦ absurd (ground (arith, e, missing))
    | inr (a, found) ↦ ground (arith, e, found, off)
  ]

  revoked_once :
      (id : ℕ)
      → ((Provider.revoke_session id s).0 ≡ ok tt)
        × (Provider.revoke_session id (Provider.revoke_session id s).1
            ≡ (ok tt, (Provider.revoke_session id s).1))
  unfolding Provider.revoke_session Provider.revoke_found
  revoked_once id = elim (Option-cases (lookup id s.sessions)) [
    | inl missing ↦ rw (missing, missing) (refl, refl)
    | inr (r, found) ↦
        let r' : SessionRecord = record r { revoked = true } in
        rw (found, lookup-insert_self id r' s.sessions, insert-insert id r' r' s.sessions)
          (refl, refl)
  ]

  revoked :
      (now id : ℕ) (session : Session)
      → (Provider.get_session now id (Provider.revoke_session id s).1).0 ≢ ok session
  unfolding Provider.revoke_session Provider.revoke_found Provider.get_session
  revoked now id session e = elim (Option-cases (lookup id s.sessions)) [
    | inl missing ↦ ground (arith, e, missing)
    | inr (r, found) ↦
        ground (arith, e, found, lookup-insert_self id (record r { revoked = true }) s.sessions)
  ]

  all_revoked :
      (now id u : ℕ) (session : Session)
      → (Provider.get_session now id (Provider.revoke_all_sessions u s).1).0 ≡ ok session
      → session.user_id ≢ u
  unfolding Provider.revoke_all_sessions Provider.get_session
  all_revoked now id u session e = elim (Option-cases (lookup id s.sessions)) [
    | inl missing ↦
        ground (arith, e, missing, lookup-map_values (Provider.revoke_if_of u) id s.sessions)
    | inr (r, found) ↦
        ground (arith, e, found, lookup-map_values (Provider.revoke_if_of u) id s.sessions)
  ]

  disabled_once :
      (u : ℕ)
      → (Provider.disable_account u s).0 ≡ ok tt
      → Provider.disable_account u (Provider.disable_account u s).1
        ≡ (ok tt, (Provider.disable_account u s).1)
  unfolding Provider.disable_account Provider.account Provider.store_account
      Provider.revoke_all_sessions
  disabled_once u e = elim (Option-cases (lookup u s.accounts)) [
    | inl missing ↦ absurd (ground (arith, e, missing))
    | inr (a, found) ↦
        let a' : Account = record a { disabled = true } in
        rw
          (
            found,
            lookup-insert_self u a' s.accounts,
            insert-insert u a' a' s.accounts,
            map_values-map_values (Provider.revoke_if_of u) s.sessions (revoke_if_of_twice u),
          )
          refl
  ]

module _ (s : Provider.Provider) where
  disabled_state :
      (u : ℕ) (a : Account)
      → lookup u s.accounts ≡ some a
      → (Provider.disable_account u s).1
        ≡ (Provider.revoke_all_sessions u
            (record s { accounts = insert u (record a { disabled = true }) s.accounts })).1
  unfolding Provider.disable_account Provider.account Provider.store_account
  disabled_state u a found = rw found refl

  disabled :
      (now id u : ℕ) (session : Session)
      → (Provider.disable_account u s).0 ≡ ok tt
      → (Provider.get_session now id (Provider.disable_account u s).1).0 ≡ ok session
      → session.user_id ≢ u
  unfolding Provider.disable_account Provider.account
  disabled now id u session e returned = elim (Option-cases (lookup u s.accounts)) [
    | inl missing ↦ absurd (ground (arith, e, missing))
    | inr (a, found) ↦
        all_revoked (record s { accounts = insert u (record a { disabled = true }) s.accounts }) now
          id u session
          (subst (λ t. (Provider.get_session now id t).0 ≡ ok session) (disabled_state u a found)
            returned)
  ]

pub in_memory-SessionLaws :
    (x : External) → SessionLaws (in_memory_provider x) (in_memory_insight x)
unfolding in_memory_provider in_memory_insight
in_memory-SessionLaws x = record {
  issued = λ now id u device s. issued s now id u device;
  none_issued = λ now id s. none_issued s now id;
  apart = λ now later id other u device s. apart s now later id other u device;
  live = λ now id s. live s x.lower now id;
  revoked_session = λ now later id s. revoked_session s now later id;
  unknown_session = λ now later id s. unknown_session s now later id;
  refused = λ now id u device s. refused s now id u device;
  revoked_once = λ id s. revoked_once s id;
  revoked = λ now id s. revoked s now id;
  all_revoked = λ now id u s. all_revoked s now id u;
  disabled = λ now id u s. disabled s now id u;
  disabled_once = λ u s. disabled_once s u;
}
