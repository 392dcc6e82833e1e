-- ===== src/Auth/Provider/Protocol/Logins.antt =====
-- auth/trustlist_auth/fake_provider.py: who gets in with which password, against the protocol.
use trustlist_core.Base.{
  ℕ, String, ◌≡◌, refl, subst, true, some, arith, ℕ-eq, String-eq, Pair-eq, Bool-cases,
  Option-cases, not, if◌then◌else◌, inl, inr,
}
use trustlist_core.Base.Dict.{lookup, has, lookup-insert_self}
use trustlist_core.Base.Result.{ok, err}
use trustlist_core.Auth.Errors.{authentication_failed, account_disabled}
use trustlist_core.Auth.Provider.Steps.{IsValid}
use trustlist_core.Auth.Rbac.Model.{Archetype, Archetype-eq}
use trustlist_core.Auth.External.{External}
use trustlist_core.Auth.Provider as Provider
use trustlist_core.Auth.Provider.{Account, SessionRecord, Session, ProviderUser}
use trustlist_core.Auth.Provider.Credentials as Credentials

module _ (x : External) (s : Provider.Provider) where
  pub admitted :
      (salt u : ℕ) (a : Archetype) (email password : String) (user : ProviderUser)
      → (Credentials.register x salt u a email password s).0 ≡ ok user
      → (salt' : ℕ) (candidate : String)
      → (Credentials.authenticate x salt' a email candidate
          (Credentials.register x salt u a email password s).1).0
        ≡ (if Credentials.verify_password x (x.argon2_hash salt password) candidate
            then ok user
            else err authentication_failed)
  unfolding Credentials.register Credentials.authenticate Credentials.authenticate_at
      Credentials.check_credential Provider.account_at
  admitted salt u a email password user e salt' candidate =
      elim (Bool-cases (has (a, x.lower email) s.email_index)) [
        | inl found ↦ absurd (ground arith)
        | inr free ↦
            rw
              (
                free,
                lookup-insert_self (a, x.lower email) u s.email_index,
                lookup-insert_self u _ s.accounts,
              )
              (ground arith)
      ]

  viewed :
      (a : Archetype) (email : String) (user : ProviderUser) (v : ℕ) (account : Account)
      → lookup (a, x.lower email) s.email_index ≡ some v
      → lookup v s.accounts ≡ some account
      → (Credentials.find_user_by_email x a email s).0 ≡ ok (some user)
      → Provider.account_view account ≡ user
  unfolding Credentials.find_user_by_email Credentials.view_at Provider.account_at
  viewed a email user v account entry found e = ground (arith, e, entry, found)

  -- A login that returns had the right password, and returns the account.
  logged_in :
      (salt : ℕ) (a : Archetype) (email password : String) (user : ProviderUser) (v : ℕ)
      (account : Account)
      → lookup (a, x.lower email) s.email_index ≡ some v
      → lookup v s.accounts ≡ some account
      → (Credentials.authenticate x salt a email password s).0 ≡ ok user
      → (Credentials.verify_password x account.password_hash password ≡ true)
        × (Provider.account_view account ≡ user)
  unfolding Credentials.authenticate Credentials.authenticate_at Credentials.check_credential
      Provider.account_at Provider.store_account
  logged_in salt a email password user v account entry found e =
      elim (Bool-cases (Credentials.verify_password x account.password_hash password)) [
        | inr wrong ↦ absurd (ground (arith, e, entry, found, wrong))
        | inl right ↦ (right, ground (arith, e, entry, found, right))
      ]

  pub changed :
      (a : Archetype) (email : String) (user : ProviderUser)
      → IsValid x.lower s
      → (Credentials.find_user_by_email x a email s).0 ≡ ok (some user)
      → (salt salt' : ℕ) (password candidate : String)
      → (Credentials.authenticate x salt' a email candidate
          (Credentials.change_password x salt user.user_id password s).1).0
        ≡ (if not (Credentials.verify_password x (x.argon2_hash salt password) candidate)
            then err authentication_failed
            else if user.disabled
            then err account_disabled
            else ok user)
  unfolding Credentials.find_user_by_email Credentials.view_at Provider.account_at
      Credentials.change_password Credentials.authenticate Credentials.authenticate_at
      Credentials.check_credential Provider.account Provider.store_account
  changed a email user valid e salt salt' password candidate =
      elim (Option-cases (lookup (a, x.lower email) s.email_index)) [
        | inl missing ↦ absurd (ground (arith, e, missing))
        | inr (v, entry) ↦
            let t = valid.indexed.sound (a, x.lower email) v entry in
            subst
              (λ w.
                (Credentials.authenticate x salt' a email candidate
                  (Credentials.change_password x salt w.user_id password s).1).0
                ≡ (if not (Credentials.verify_password x (x.argon2_hash salt password) candidate)
                    then err authentication_failed
                    else if w.disabled
                    then err account_disabled
                    else ok w))
              (viewed a email user v t.target entry t.found e)
              (rw
                (
                  valid.indexed.ids v t.target t.found,
                  t.found,
                  entry,
                  lookup-insert_self v _ s.accounts,
                )
                (ground (arith, valid.indexed.ids v t.target t.found)))
      ]

  pub shut_out :
      (salt : ℕ) (a : Archetype) (email password : String) (user : ProviderUser)
      → IsValid x.lower s
      → (Credentials.authenticate x salt a email password s).0 ≡ ok user
      → (Credentials.authenticate x salt a email password
          (Provider.disable_account user.user_id s).1).0
        ≡ err account_disabled
  unfolding Credentials.authenticate Credentials.authenticate_at Credentials.check_credential
      Provider.account_at Provider.store_account Provider.disable_account Provider.account
      Provider.revoke_all_sessions
  shut_out salt a email password user valid e =
      elim (Option-cases (lookup (a, x.lower email) s.email_index)) [
        | inl missing ↦ absurd (cc (missing, e))
        | inr (v, entry) ↦
            let t = valid.indexed.sound (a, x.lower email) v entry in
            let login = logged_in salt a email password user v t.target entry t.found e in
            subst
              (λ w.
                (Credentials.authenticate x salt a email password
                  (Provider.disable_account w.user_id s).1).0
                ≡ err account_disabled)
              login.1
              (rw
                (
                  valid.indexed.ids v t.target t.found,
                  t.found,
                  entry,
                  lookup-insert_self v _ s.accounts,
                  login.0,
                )
                refl)
      ]
