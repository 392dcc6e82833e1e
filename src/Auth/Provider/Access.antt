-- ===== src/Auth/Provider/Access.antt =====
-- What a caller of a valid provider can rely on: who gets in, and which sessions are live.
use trustlist_core.Base.{
  ℕ, String, ◌≡◌, ◌≢◌, sym, ◌<◌, false, not, some, arith, ℕ-eq, String-eq, Pair-eq, if◌then◌else◌,
  Option-cases, inl, inr,
}
use trustlist_core.Base.Dict.{lookup}
use trustlist_core.Base.Result.{Result, ok, err}
use trustlist_core.Auth.Errors.{Error, authentication_failed, account_disabled}
use trustlist_core.Auth.Rbac.Model.{Archetype, Archetype-eq}
use trustlist_core.Auth.External.{External}
use trustlist_core.Auth.Provider.{
  ProviderUser, Session, Account, Provider, account_view, account_at, get_session,
}
use trustlist_core.Auth.Provider.Credentials.{
  check_credential, authenticate_at, authenticate, verify_password,
}
use trustlist_core.Auth.Provider.Valid.{key_of}
use trustlist_core.Auth.Provider.Steps.{IsValid}

-- A session that `get_session` hands out at `now`.
pub record IsLive (now s : ℕ) (session : Session) (p : Provider) : Type 0 where
  pub owner : Account
  pub found : lookup session.user_id p.accounts ≡ some owner
  pub enabled : owner.disabled ≡ false
  pub id : session.session_id ≡ s
  pub archetype : session.archetype ≡ owner.archetype
  pub unexpired : now < session.expires_at

module _ (lower : String → String) (p : Provider) (h : IsValid lower p) where
  -- In a valid provider, a session that `get_session` returns has the id that was asked for, has not expired, and belongs
  -- to an account that exists, is enabled and has the session's archetype.
  pub get_session-IsLive :
      (now s : ℕ) (session : Session)
      → (get_session now s p).0 ≡ ok session
      → IsLive now s session p
  unfolding get_session
  get_session-IsLive now s session e = elim (Option-cases (lookup s p.sessions)) [
    | inl missing ↦ absurd (cc (missing, e))
    | inr (r, found) ↦
        let t = h.indexed.sessions s r found in
        record {
          owner = t.owner;
          found = ground (arith, t.found);
          enabled = ground (arith, t.found, h.out.at s r t.owner);
          id = ground (arith, t.id);
          archetype = ground (arith, t.archetype);
          unexpired = ground arith;
        }
  ]

-- What the code does with a credential for an account that is there.
abbrev pub credential_result : External → String → Account → Result Error ProviderUser
credential_result x password a =
    if not (verify_password x a.password_hash password)
    then err authentication_failed
    else if a.disabled
    then err account_disabled
    else ok (account_view a)

module _ (x : External) (salt : ℕ) (archetype : Archetype) (email password : String) (p : Provider)
    (h : IsValid x.lower p) where
  check_credential_lem :
      (u : ℕ) (a : Account)
      → (check_credential x salt password u a p).0 ≡ credential_result x password a
  unfolding check_credential
  check_credential_lem u a = ground arith

  -- In a valid provider the password of an account decides, whatever the case of the email: a wrong one fails, a right
  -- one returns the account unless it is disabled.
  pub authenticate_known :
      (u : ℕ) (a : Account)
      → lookup u p.accounts ≡ some a
      → key_of x.lower a ≡ (archetype, x.lower email)
      → (authenticate x salt archetype email password p).0 ≡ credential_result x password a
  unfolding authenticate authenticate_at account_at
  authenticate_known u a found key =
      rw (sym key, h.indexed.complete u a found, found) (check_credential_lem u a)

  -- In a valid provider an email that no account of the archetype has fails as a wrong password does.
  pub authenticate_unknown :
      ((u : ℕ) (a : Account)
        → lookup u p.accounts ≡ some a
        → key_of x.lower a ≢ (archetype, x.lower email))
      → (authenticate x salt archetype email password p).0 ≡ err authentication_failed
  unfolding authenticate authenticate_at
  authenticate_unknown nobody =
      elim (Option-cases (lookup (archetype, x.lower email) p.email_index)) [
        | inl missing ↦ rw missing
        | inr (u, entry) ↦
            let t = h.indexed.sound (archetype, x.lower email) u entry in
            absurd (nobody u t.target t.found t.key)
      ]
