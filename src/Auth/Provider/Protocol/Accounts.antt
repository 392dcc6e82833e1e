-- ===== src/Auth/Provider/Protocol/Accounts.antt =====
-- auth/trustlist_auth/fake_provider.py: the methods on accounts and credentials, against the protocol.
use trustlist_core.Base.{
  ℕ, String, ◌≡◌, refl, sym, subst, ◌∙◌, true, false, none, some, arith, ℕ-eq, String-eq, Pair-eq,
  Bool-cases, Option-cases, inl, inr,
}
use trustlist_core.Base.Dict.{lookup, has, lookup-insert_self, insert-insert}
use trustlist_core.Base.Result.{ok, err, ok_injective}
use trustlist_core.Auth.Errors.{auth_error, authentication_failed}
use trustlist_core.Auth.Rbac.Model.{Archetype, Archetype-eq}
use trustlist_core.Auth.External.{External}
use trustlist_core.Auth.Provider as Provider
use trustlist_core.Auth.Provider.{Account, SessionRecord, Session, ProviderUser}
use trustlist_core.Auth.Provider.Credentials as Credentials
use trustlist_core.Auth.Provider.Protocol.{AccountLaws}
use trustlist_core.Auth.Provider.Protocol.Logins.{admitted, changed, shut_out}
use trustlist_core.Auth.Provider.Protocol.InMemory.{in_memory_provider, in_memory_insight}

module _ (x : External) (s : Provider.Provider) where
  abbrev pub new_account : ℕ → ℕ → Archetype → String → String → Account
  new_account salt u a email password = record {
    user_id = u;
    archetype = a;
    email = email;
    password_hash = x.argon2_hash salt password;
    email_verified = false;
    disabled = false;
    totp_secret = none;
    totp_confirmed = false;
  }

  pub register_free :
      (salt u : ℕ) (a : Archetype) (email password : String)
      → has (a, x.lower email) s.email_index ≡ false
      → (Credentials.register x salt u a email password s).0
        ≡ ok (Provider.account_view (new_account salt u a email password))
  unfolding Credentials.register
  register_free salt u a email password free = rw free refl

  registered :
      (salt u : ℕ) (a : Archetype) (email password : String) (user : ProviderUser)
      → (Credentials.register x salt u a email password s).0 ≡ ok user
      → ((Provider.get_user user.user_id (Credentials.register x salt u a email password s).1).0
          ≡ ok user)
        × (user.email_verified ≡ false)
        × (user.totp_enrolled ≡ false)
        × (user.disabled ≡ false)
  unfolding Credentials.register Provider.get_user Provider.account
  registered salt u a email password user e =
      elim (Bool-cases (has (a, x.lower email) s.email_index)) [
        | inl found ↦ absurd (ground arith)
        | inr free ↦
            subst
              (λ v.
                ((Provider.get_user v.user_id
                    (Credentials.register x salt u a email password s).1).0
                  ≡ ok v)
                × (v.email_verified ≡ false)
                × (v.totp_enrolled ≡ false)
                × (v.disabled ≡ false))
              (ok_injective (sym (register_free salt u a email password free) ∙ e))
              (
                rw (free, lookup-insert_self u (new_account salt u a email password) s.accounts)
                    refl,
                refl,
                refl,
                refl,
              )
      ]

  taken :
      (salt u : ℕ) (a : Archetype) (email password : String) (user : ProviderUser)
      → (Credentials.find_user_by_email x a email s).0 ≡ ok (some user)
      → Credentials.register x salt u a email password s ≡ (err auth_error, s)
  unfolding Credentials.register Credentials.find_user_by_email Credentials.view_at
  taken salt u a email password user e =
      elim (Option-cases (lookup (a, x.lower email) s.email_index)) [
        | inl missing ↦ absurd (ground (arith, e, missing))
        | inr (v, found) ↦ rw found refl
      ]

  nobody :
      (a : Archetype) (email : String)
      → (ttl : ℕ) × (s ≡ Provider.new_provider ttl)
      → (Credentials.find_user_by_email x a email s).0 ≡ ok none
  unfolding Credentials.find_user_by_email Credentials.view_at Provider.new_provider lookup
  nobody a email (ttl, same) = rw same refl

  unknown :
      (salt : ℕ) (a : Archetype) (email password : String)
      → (Credentials.find_user_by_email x a email s).0 ≡ ok none
      → (Credentials.authenticate x salt a email password s).0 ≡ err authentication_failed
  unfolding Credentials.authenticate Credentials.authenticate_at Credentials.find_user_by_email
      Credentials.view_at Provider.account_at
  unknown salt a email password e = elim (Option-cases (lookup (a, x.lower email) s.email_index)) [
    | inl missing ↦ rw missing refl
    | inr (v, found) ↦ absurd (ground (arith, e, found))
  ]

  enabled :
      (salt : ℕ) (a : Archetype) (email password : String) (user : ProviderUser)
      → (Credentials.authenticate x salt a email password s).0 ≡ ok user
      → user.disabled ≡ false
  unfolding Credentials.authenticate Credentials.authenticate_at Credentials.check_credential
      Provider.account_at Provider.store_account
  enabled salt a email password user e =
      elim (Option-cases (lookup (a, x.lower email) s.email_index)) [
        | inl missing ↦ absurd (cc (missing, e))
        | inr (v, found) ↦ elim (Option-cases (lookup v s.accounts)) [
          | inl missing ↦ ground (arith, e, found, missing)
          | inr (account, there) ↦ ground (arith, e, found, there)
        ]
      ]

  marked :
      (u : ℕ) (a : Account)
      → lookup u s.accounts ≡ some a
      → (Provider.mark_email_verified u s).0
        ≡ ok (Provider.account_view (record a { email_verified = true }))
  unfolding Provider.mark_email_verified Provider.account Provider.store_account
  marked u a found = rw found refl

  verified_once :
      (u : ℕ) (user : ProviderUser)
      → (Provider.mark_email_verified u s).0 ≡ ok user
      → (user.email_verified ≡ true)
        × (Provider.mark_email_verified u (Provider.mark_email_verified u s).1
            ≡ (ok user, (Provider.mark_email_verified u s).1))
  unfolding Provider.mark_email_verified Provider.account Provider.store_account
  verified_once u user e = elim (Option-cases (lookup u s.accounts)) [
    | inl missing ↦ absurd (ground (arith, e, missing))
    | inr (a, found) ↦
        let a' : Account = record a { email_verified = true } in
        subst
          (λ v.
            (v.email_verified ≡ true)
            × (Provider.mark_email_verified u (Provider.mark_email_verified u s).1
                ≡ (ok v, (Provider.mark_email_verified u s).1)))
          (ok_injective (sym (marked u a found) ∙ e))
          (
            refl,
            rw (found, lookup-insert_self u a' s.accounts, insert-insert u a' a' s.accounts) refl,
          )
  ]

pub in_memory-AccountLaws :
    (x : External) → AccountLaws (in_memory_provider x) (in_memory_insight x)
unfolding in_memory_provider in_memory_insight
in_memory-AccountLaws x = record {
  registered = λ salt u a email password s. registered x s salt u a email password;
  admitted = λ salt u a email password s. admitted x s salt u a email password;
  changed = λ a email s. changed x s a email;
  shut_out = λ salt a email password s. shut_out x s salt a email password;
  taken = λ salt u a email password s. taken x s salt u a email password;
  nobody = λ a email s. nobody x s a email;
  unknown = λ salt a email password s. unknown x s salt a email password;
  enabled = λ salt a email password s. enabled x s salt a email password;
  verified_once = λ u s. verified_once x s u;
}
