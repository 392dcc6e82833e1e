-- ===== src/Auth/Provider/Credentials.antt =====
-- auth/trustlist_auth/fake_provider.py: the methods that look an account up by its email, and those
-- that call passwords.py and totp.py. The verification against a decoy hash, for an unknown email,
-- changes no state and its result is dropped: it is not modelled.
use trustlist_core.Base.{
  ℕ, String, Bool, true, false, not, Option, none, some, if◌then◌else◌, ℕ-eq, String-eq, Pair-eq,
}
use trustlist_core.Base.Dict.{lookup, has, insert}
use trustlist_core.Base.Result.{ok, err}
use trustlist_core.Base.Action.{Action, pure, raise, ◌>>=◌, ◌>>◌}
use trustlist_core.Auth.Errors.{
  Error, auth_error, authentication_failed, account_disabled, totp_not_enrolled,
  totp_already_enrolled,
}
use trustlist_core.Auth.Rbac.Model.{Archetype, Archetype-eq}
use trustlist_core.Auth.External.{
  External, Verification, verified, verify_mismatch, verification_error, invalid_hash,
}
use trustlist_core.Auth.Provider.{
  ProviderUser, TotpEnrolment, Account, account_view, Provider, account, account_at, store_account,
}

-- `_DEFAULT_VALID_WINDOW` and `_ISSUER_NAME` of totp.py
abbrev pub default_valid_window : ℕ
default_valid_window = 1

abbrev pub issuer_name : String
issuer_name = "TrustList"

-- the result of `verify_password`, by what argon2 did
unfoldable pub is_verified : Verification → Bool
is_verified verified = true
is_verified verify_mismatch = false
is_verified verification_error = false
is_verified invalid_hash = false

module _ (x : External) where
  unfoldable pub verify_password : String → String → Bool
  unfolding is_verified
  verify_password stored_hash plaintext = is_verified (x.argon2_verify stored_hash plaintext)

  -- `verify_totp` of totp.py
  unfoldable pub verify_code : ℕ → String → String → ℕ → Bool
  verify_code now secret code valid_window =
      let candidate = x.without_spaces code in
      if not (x.is_digit candidate) then false else x.totp_verify secret candidate valid_window now

  -- `register`
  unfoldable pub register : ℕ → ℕ → Archetype → String → String → Action Error Provider ProviderUser
  register salt user_id archetype email password p =
      let key : Archetype × String = (archetype, x.lower email) in
      let a : Account = record {
        user_id = user_id;
        archetype = archetype;
        email = email;
        password_hash = x.argon2_hash salt password;
        email_verified = false;
        disabled = false;
        totp_secret = none;
        totp_confirmed = false;
      } in
      if has key p.email_index then (err auth_error, p) else (
        ok (account_view a),
        record p {
          accounts = insert user_id a p.accounts;
          email_index = insert key user_id p.email_index;
        },
      )

  -- what `find_user_by_email` does with the index entry
  unfoldable pub view_at : Option ℕ → Action Error Provider (Option ProviderUser)
  unfolding account_at
  view_at none = pure none
  view_at (some user_id) = do a ← account_at user_id; pure (some (account_view a))

  -- `find_user_by_email`
  unfoldable pub find_user_by_email :
      Archetype → String → Action Error Provider (Option ProviderUser)
  unfolding view_at
  find_user_by_email archetype email p = view_at (lookup (archetype, x.lower email) p.email_index) p

  -- the checks of `authenticate` on the account that the index names
  unfoldable pub check_credential : ℕ → String → ℕ → Account → Action Error Provider ProviderUser
  unfolding verify_password store_account
  check_credential salt password user_id a =
      if not (verify_password a.password_hash password)
      then raise authentication_failed
      else if a.disabled
      then raise account_disabled
      else if x.argon2_needs_rehash a.password_hash
      then (do
        store_account user_id (record a { password_hash = x.argon2_hash salt password })
        pure (account_view a))
      else pure (account_view a)

  unfoldable pub authenticate_at : ℕ → String → Option ℕ → Action Error Provider ProviderUser
  unfolding account_at check_credential
  authenticate_at salt password none = raise authentication_failed
  authenticate_at salt password (some user_id) = do
    a ← account_at user_id
    check_credential salt password user_id a

  -- `authenticate`
  unfoldable pub authenticate : ℕ → Archetype → String → String → Action Error Provider ProviderUser
  unfolding authenticate_at
  authenticate salt archetype email password p =
      authenticate_at salt password (lookup (archetype, x.lower email) p.email_index) p

  -- `change_password`
  unfoldable pub change_password : ℕ → ℕ → String → Action Error Provider (Unit {0})
  unfolding account store_account
  change_password salt user_id new_password = do
    a ← account user_id
    store_account user_id (record a { password_hash = x.argon2_hash salt new_password })

  -- `enrol_totp`
  unfoldable pub enrol_totp : ℕ → ℕ → Action Error Provider TotpEnrolment
  unfolding account store_account
  enrol_totp random user_id = do
    a ← account user_id
    let secret = x.random_base32 random
    if a.totp_confirmed then raise totp_already_enrolled else do
      store_account user_id (record a { totp_secret = some secret; totp_confirmed = false })
      pure (record {
        secret = secret;
        provisioning_uri = x.totp_provisioning_uri secret a.email issuer_name;
      })

  -- `verify_totp`, on the account and its secret
  unfoldable pub verify_with : ℕ → ℕ → String → Account → Option String → Action Error Provider Bool
  unfolding verify_code store_account
  verify_with now user_id code a none = raise totp_not_enrolled
  verify_with now user_id code a (some secret) =
      if verify_code now secret code default_valid_window
      then (do store_account user_id (record a { totp_confirmed = true }); pure true)
      else pure false

  -- `verify_totp`
  unfoldable pub verify_totp : ℕ → ℕ → String → Action Error Provider Bool
  unfolding account verify_with
  verify_totp now user_id code = do
    a ← account user_id
    verify_with now user_id code a a.totp_secret
