-- ===== src/Auth/Provider/Protocol/Issuance.antt =====
-- auth/trustlist_auth/fake_provider.py: the sessions that the provider issues and hands out, against the
-- protocol.
use trustlist_core.Base.{
  ℕ, String, ◌≡◌, ◌≢◌, refl, ap, sym, subst, ◌∙◌, ◌+◌, ◌<◌, false, Bool-cases, if◌then◌else◌, leb,
  Option, some, arith, ℕ-eq, String-eq, Pair-eq, Option-cases, inl, inr,
}
use trustlist_core.Base.Dict.{lookup, insert, lookup-insert, lookup-insert_self}
use trustlist_core.Base.Result.{ok, err, ok_injective}
use trustlist_core.Auth.Errors.{session_revoked}
use trustlist_core.Auth.Provider.Steps.{IsValid}
use trustlist_core.Auth.Provider.Access.{get_session-IsLive}
use trustlist_core.Auth.Rbac.Model.{Archetype-eq}
use trustlist_core.Auth.Provider as Provider
use trustlist_core.Auth.Provider.{Account, SessionRecord, Session, ProviderUser}

module _ (s : Provider.Provider) where
  abbrev new_record : ℕ → ℕ → ℕ → Option String → Account → SessionRecord
  new_record now id u device a = record {
    session_id = id;
    user_id = u;
    archetype = a.archetype;
    issued_at = now;
    expires_at = now + s.session_ttl;
    device_fingerprint = device;
    revoked = false;
  }

  new_session :
      (now id u : ℕ) (device : Option String) (a : Account)
      → lookup u s.accounts ≡ some a
      → a.disabled ≡ false
      → Provider.issue_session now id u device s ≡ (
        ok (Provider.session_view (new_record now id u device a)),
        record s { sessions = insert id (new_record now id u device a) s.sessions },
      )
  unfolding Provider.issue_session Provider.account
  new_session now id u device a found on = rw (found, on) refl

  pub issued :
      (now id u : ℕ) (device : Option String) (session : Session)
      → (Provider.issue_session now id u device s).0 ≡ ok session
      → (session.user_id ≡ u)
        × (session.issued_at ≡ now)
        × (session.device_fingerprint ≡ device)
        × ((later : ℕ)
            → (Provider.get_session later id (Provider.issue_session now id u device s).1).0
              ≡ (if leb session.expires_at later then err session_revoked else ok session))
  unfolding Provider.issue_session Provider.account Provider.get_session
  issued now id u device session e = elim (Option-cases (lookup u s.accounts)) [
    | inl missing ↦ absurd (ground (arith, e, missing))
    | inr (a, found) ↦ elim (Bool-cases a.disabled) [
      | inl off ↦ absurd (ground (arith, e, found, off))
      | inr on ↦ (
        ground (arith, e, found, on),
        ground (arith, e, found, on),
        ground (arith, e, found, on),
        λ later.
            subst
              (λ w.
                (Provider.get_session later id (Provider.issue_session now id u device s).1).0
                ≡ (if leb w.expires_at later then err session_revoked else ok w))
              (ok_injective (sym (ap (λ t. t.0) (new_session now id u device a found on)) ∙ e))
              (rw (new_session now id u device a found on)
                (ground (arith, lookup-insert_self id (new_record now id u device a) s.sessions))),
      )
    ]
  ]

  pub apart :
      (now later id other u : ℕ) (device : Option String)
      → other ≢ id
      → (Provider.get_session later other (Provider.issue_session now id u device s).1).0
        ≡ (Provider.get_session later other s).0
  unfolding Provider.issue_session Provider.account Provider.get_session
  apart now later id other u device differs = elim (Option-cases (lookup u s.accounts)) [
    | inl missing ↦ rw missing refl
    | inr (a, found) ↦ elim (Bool-cases a.disabled) [
      | inl off ↦ rw (found, off) refl
      | inr on ↦ rw (new_session now id u device a found on) (
          ground (arith, differs, lookup-insert id other (new_record now id u device a) s.sessions))
    ]
  ]

  pub live :
      (lower : String → String) (now id : ℕ) (session : Session)
      → IsValid lower s
      → (Provider.get_session now id s).0 ≡ ok session
      → (session.session_id ≡ id)
        × (now < session.expires_at)
        × ((user : ProviderUser) × ((Provider.get_user session.user_id s).0 ≡ ok user)
            × (user.disabled ≡ false)
            × (user.archetype ≡ session.archetype))
  unfolding Provider.get_user Provider.account
  live lower now id session valid e =
      let l = get_session-IsLive lower s valid now id session e in
      (
        l.id,
        l.unexpired,
        (Provider.account_view l.owner, rw l.found refl, l.enabled, sym l.archetype),
      )
