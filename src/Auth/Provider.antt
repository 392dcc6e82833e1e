-- ===== src/Auth/Provider.antt =====
-- auth/trustlist_auth/fake_provider.py: the in-memory identity provider, with the value types of
-- provider.py and the functions of passwords.py and totp.py that it calls. Python shares no account
-- or session record outside its dict, so a mutation of a record is a write of the dict's value.
pub mod Credentials
pub mod Valid
pub mod Steps
pub mod CredentialSteps
pub mod History
pub mod Protocol
pub mod Access
pub mod Flows
pub mod Examples
use trustlist_core.Base.{
  ℕ, ◌+◌, String, Bool, true, false, not, Option, none, some, List, [], if◌then◌else◌, leb, ◌==◌,
  ℕ-eq, String-eq, Pair-eq, is_some,
}
use trustlist_core.Base.Dict.{Dict, lookup, has, insert, map_values}
use trustlist_core.Base.Result.{Result, ok, err, or_raise}
use trustlist_core.Base.Action.{Action, pure, raise, lift, gets, modify, ◌>>=◌, ◌>>◌}
use trustlist_core.Auth.Errors.{
  Error, auth_error, authentication_failed, account_disabled, session_not_found, session_revoked,
  totp_not_enrolled, totp_already_enrolled, key_error,
}
use trustlist_core.Auth.Rbac.Model.{Archetype, Archetype-eq}
use trustlist_core.Auth.External.{
  External, Verification, verified, verify_mismatch, verification_error, invalid_hash,
}

pub record ProviderUser : Type 0 where
  pub user_id : ℕ
  pub archetype : Archetype
  pub email : String
  pub email_verified : Bool
  pub totp_enrolled : Bool
  pub disabled : Bool

pub record Session : Type 0 where
  pub session_id : ℕ
  pub user_id : ℕ
  pub archetype : Archetype
  pub issued_at : ℕ
  pub expires_at : ℕ
  pub device_fingerprint : Option String

pub record TotpEnrolment : Type 0 where
  pub secret : String
  pub provisioning_uri : String

-- `_Account`
pub record Account : Type 0 where
  pub user_id : ℕ
  pub archetype : Archetype
  pub email : String
  pub password_hash : String
  pub email_verified : Bool
  pub disabled : Bool
  pub totp_secret : Option String
  pub totp_confirmed : Bool

-- `_Account.view`
abbrev pub account_view : Account → ProviderUser
account_view a = record {
  user_id = a.user_id;
  archetype = a.archetype;
  email = a.email;
  email_verified = a.email_verified;
  totp_enrolled = a.totp_confirmed;
  disabled = a.disabled;
}

-- `_SessionRecord`
pub record SessionRecord : Type 0 where
  pub session_id : ℕ
  pub user_id : ℕ
  pub archetype : Archetype
  pub issued_at : ℕ
  pub expires_at : ℕ
  pub device_fingerprint : Option String
  pub revoked : Bool

-- `_SessionRecord.view`
abbrev pub session_view : SessionRecord → Session
session_view r = record {
  session_id = r.session_id;
  user_id = r.user_id;
  archetype = r.archetype;
  issued_at = r.issued_at;
  expires_at = r.expires_at;
  device_fingerprint = r.device_fingerprint;
}

pub record Provider : Type 0 where
  pub session_ttl : ℕ
  pub accounts : Dict ℕ Account
  pub email_index : Dict (Archetype × String) ℕ
  pub sessions : Dict ℕ SessionRecord

-- `__init__`
unfoldable pub new_provider : ℕ → Provider
new_provider session_ttl = record {
  session_ttl = session_ttl;
  accounts = [];
  email_index = [];
  sessions = [];
}

-- `_account`
unfoldable pub account : ℕ → Action Error Provider Account
account user_id p = (or_raise (lookup user_id p.accounts) auth_error, p)

-- `self._accounts[user_id]`
unfoldable pub account_at : ℕ → Action Error Provider Account
account_at user_id p = (or_raise (lookup user_id p.accounts) key_error, p)

-- a mutation of the account record at `user_id`
unfoldable pub store_account : ℕ → Account → Action Error Provider (Unit {0})
store_account user_id a p = (ok tt, record p { accounts = insert user_id a p.accounts })

-- what `revoke_session` does with the record that it found
unfoldable pub revoke_found : ℕ → Option SessionRecord → Action Error Provider (Unit {0})
revoke_found session_id none p = (ok tt, p)
revoke_found session_id (some r) p =
    (ok tt, record p { sessions = insert session_id (record r { revoked = true }) p.sessions })

-- `revoke_session`
unfoldable pub revoke_session : ℕ → Action Error Provider (Unit {0})
unfolding revoke_found
revoke_session session_id p = revoke_found session_id (lookup session_id p.sessions) p

-- the body of the loop in `revoke_all_sessions`
unfoldable pub revoke_if_of : ℕ → SessionRecord → SessionRecord
revoke_if_of user_id r = if r.user_id == user_id then record r { revoked = true } else r

-- `revoke_all_sessions`
unfoldable pub revoke_all_sessions : ℕ → Action Error Provider (Unit {0})
unfolding revoke_if_of
revoke_all_sessions user_id p =
    (ok tt, record p { sessions = map_values (revoke_if_of user_id) p.sessions })

-- `get_user`
unfoldable pub get_user : ℕ → Action Error Provider ProviderUser
unfolding account
get_user user_id = do a ← account user_id; pure (account_view a)

-- `mark_email_verified`
unfoldable pub mark_email_verified : ℕ → Action Error Provider ProviderUser
unfolding account store_account
mark_email_verified user_id = do
  a ← account user_id
  let a' : Account = record a { email_verified = true }
  store_account user_id a'
  pure (account_view a')

-- `issue_session`, with the clock's reading and the UUID that it draws
unfoldable pub issue_session : ℕ → ℕ → ℕ → Option String → Action Error Provider Session
unfolding account
issue_session now session_id user_id device_fingerprint = do
  a ← account user_id
  if a.disabled then raise account_disabled else λ p.
      let r : SessionRecord = record {
        session_id = session_id;
        user_id = user_id;
        archetype = a.archetype;
        issued_at = now;
        expires_at = now + p.session_ttl;
        device_fingerprint = device_fingerprint;
        revoked = false;
      } in
      (ok (session_view r), record p { sessions = insert session_id r p.sessions })

-- `get_session`
unfoldable pub get_session : ℕ → ℕ → Action Error Provider Session
get_session now session_id p =
    let r : Result Error Session = elim (lookup session_id p.sessions) [
      | none ↦ err session_not_found
      | some r ↦
          if r.revoked
          then err session_revoked
          else if leb r.expires_at now
          then err session_revoked
          else ok (session_view r)
    ] in
    (r, p)

-- `disable_account`
unfoldable pub disable_account : ℕ → Action Error Provider (Unit {0})
unfolding account store_account revoke_all_sessions
disable_account user_id = do
  a ← account user_id
  store_account user_id (record a { disabled = true })
  revoke_all_sessions user_id
