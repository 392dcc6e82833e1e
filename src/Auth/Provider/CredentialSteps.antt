-- ===== src/Auth/Provider/CredentialSteps.antt =====
-- The methods of the in-memory provider that handle a password or a second factor keep the invariant
-- of `Valid`.
use trustlist_core.Base.{
  ℕ, String, ◌≡◌, refl, true, false, not, Option, none, some, ℕ-eq, String-eq, Pair-eq, Bool-cases,
  inl, inr,
}
use trustlist_core.Base.Dict.{lookup}
use trustlist_core.Auth.Rbac.Model.{Archetype, Archetype-eq}
use trustlist_core.Auth.External.{External}
use trustlist_core.Auth.Provider.{Account, Provider}
use trustlist_core.Auth.Provider.Credentials.{
  check_credential, authenticate_at, authenticate, change_password, enrol_totp, verify_with,
  verify_totp, verify_code, verify_password, default_valid_window,
}
use trustlist_core.Auth.Provider.Steps.{
  IsValid, account_inv, account_at_inv, if_inv, store-IsValid, updated-Replaces,
}

module _ (x : External) (p : Provider) (h : IsValid x.lower p) where
  pub change_password-IsValid :
      (salt u : ℕ) (new : String) → IsValid x.lower (change_password x salt u new p).1
  unfolding change_password
  change_password-IsValid salt u new = account_inv (IsValid x.lower) u _ p h λ a found.
      store-IsValid x p h u a (record a { password_hash = x.argon2_hash salt new }) found
        (updated-Replaces x p h u a (x.argon2_hash salt new) a.email_verified a.disabled found) refl

  pub enrol_totp-IsValid : (random u : ℕ) → IsValid x.lower (enrol_totp x random u p).1
  unfolding enrol_totp
  enrol_totp-IsValid random u = account_inv (IsValid x.lower) u _ p h λ a found.
      elim (Bool-cases a.totp_confirmed) [
        | inl confirmed ↦ rw confirmed h
        | inr pending ↦ rw pending (
            store-IsValid x p h u a
              (record a { totp_secret = some (x.random_base32 random); totp_confirmed = false })
              found (record { user_id = refl; archetype = refl; email = refl; secret = λ c. cc })
              refl)
      ]

  verify_with-IsValid :
      (now u : ℕ) (code : String) (a : Account) (o : Option String)
      → lookup u p.accounts ≡ some a
      → a.totp_secret ≡ o
      → IsValid x.lower (verify_with x now u code a o p).1
  unfolding verify_with
  verify_with-IsValid now u code a none found e = h
  verify_with-IsValid now u code a (some secret) found e =
      if_inv (IsValid x.lower) (verify_code x now secret code default_valid_window) _ _ p
        (store-IsValid x p h u a (record a { totp_confirmed = true }) found
          (record { user_id = refl; archetype = refl; email = refl; secret = λ c. rw e }) refl)
        h

  pub verify_totp-IsValid :
      (now u : ℕ) (code : String) → IsValid x.lower (verify_totp x now u code p).1
  unfolding verify_totp
  verify_totp-IsValid now u code =
      account_inv (IsValid x.lower) u _ p h
        λ a found. verify_with-IsValid now u code a a.totp_secret found refl

  check_credential-IsValid :
      (salt : ℕ) (password : String) (u : ℕ) (a : Account)
      → lookup u p.accounts ≡ some a
      → IsValid x.lower (check_credential x salt password u a p).1
  unfolding check_credential
  check_credential-IsValid salt password u a found =
      if_inv (IsValid x.lower) (not (verify_password x a.password_hash password)) _ _ p h (
        if_inv (IsValid x.lower) a.disabled _ _ p h (
          if_inv (IsValid x.lower) (x.argon2_needs_rehash a.password_hash) _ _ p
            (store-IsValid x p h u a (record a { password_hash = x.argon2_hash salt password })
              found
              (updated-Replaces x p h u a (x.argon2_hash salt password) a.email_verified a.disabled
                found)
              refl)
            h))

  authenticate_at-IsValid :
      (salt : ℕ) (password : String) (o : Option ℕ)
      → IsValid x.lower (authenticate_at x salt password o p).1
  unfolding authenticate_at
  authenticate_at-IsValid salt password none = h
  authenticate_at-IsValid salt password (some u) =
      account_at_inv (IsValid x.lower) u _ p h
        λ a found. check_credential-IsValid salt password u a found

  pub authenticate-IsValid :
      (salt : ℕ) (a : Archetype) (email password : String)
      → IsValid x.lower (authenticate x salt a email password p).1
  unfolding authenticate
  authenticate-IsValid salt a email password =
      authenticate_at-IsValid salt password (lookup (a, x.lower email) p.email_index)
