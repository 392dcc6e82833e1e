-- ===== src/Auth/Provider/Protocol.antt =====
-- auth/trustlist_auth/provider.py: the protocol `IdentityProvider` over a state of its implementation, and
-- promises of its docstrings to a caller who sees a provider through these methods only. The readings
-- of the clock, the random bytes and the new UUIDs that a method draws are arguments.
pub mod InMemory
pub mod Logins
pub mod Accounts
pub mod Issuance
pub mod Sessions
pub mod SecondFactor
pub mod Promises
use trustlist_core.Base.{
  ℕ, String, ◌≡◌, ◌≢◌, ◌<◌, Bool, true, false, not, Option, none, some, if◌then◌else◌, leb,
}
use trustlist_core.Base.Result.{Result, ok, err}
use trustlist_core.Base.Action.{Action}
use trustlist_core.Auth.Errors.{
  Error, authentication_failed, account_disabled, auth_error, totp_not_enrolled,
  totp_already_enrolled, session_not_found, session_revoked,
}
use trustlist_core.Auth.Rbac.Model.{Archetype}
use trustlist_core.Auth.Provider.{ProviderUser, Session, TotpEnrolment}

-- `IdentityProvider`
pub record IdentityProvider : Type 1 where
  pub State : Type 0
  pub register : ℕ → ℕ → Archetype → String → String → Action Error State ProviderUser
  pub get_user : ℕ → Action Error State ProviderUser
  pub find_user_by_email : Archetype → String → Action Error State (Option ProviderUser)
  pub authenticate : ℕ → Archetype → String → String → Action Error State ProviderUser
  pub mark_email_verified : ℕ → Action Error State ProviderUser
  pub change_password : ℕ → ℕ → String → Action Error State (Unit {0})
  pub issue_session : ℕ → ℕ → ℕ → Option String → Action Error State Session
  pub get_session : ℕ → ℕ → Action Error State Session
  pub revoke_session : ℕ → Action Error State (Unit {0})
  pub revoke_all_sessions : ℕ → Action Error State (Unit {0})
  pub enrol_totp : ℕ → ℕ → Action Error State TotpEnrolment
  pub verify_totp : ℕ → ℕ → String → Action Error State Bool
  pub disable_account : ℕ → Action Error State (Unit {0})

-- What a caller cannot see through the methods, and the promises refer to: the states of a new
-- provider, the valid states, whether the hash that a salt gives of a password accepts a candidate, and whether a code is one
-- of a secret at a time.
pub record Insight (p : IdentityProvider) : Type 1 where
  pub IsNew : p.State → Type 0
  pub IsGood : p.State → Type 0
  pub accepts : ℕ → String → String → Bool
  pub matches : ℕ → String → String → Bool

-- The promises about accounts and credentials.
pub record AccountLaws (p : IdentityProvider) (i : Insight p) : Type 0 where
  -- A new account is found again, unverified, without a second factor and enabled.
  pub registered :
      (salt u : ℕ) (a : Archetype) (email password : String) (s : p.State) (user : ProviderUser)
      → (p.register salt u a email password s).0 ≡ ok user
      → (p.get_user user.user_id (p.register salt u a email password s).1).0 ≡ ok user
        × (user.email_verified ≡ false)
        × (user.totp_enrolled ≡ false)
        × (user.disabled ≡ false)
  -- Its address lets in who gives a password that its hash accepts, and no one else.
  pub admitted :
      (salt u : ℕ) (a : Archetype) (email password : String) (s : p.State) (user : ProviderUser)
      → (p.register salt u a email password s).0 ≡ ok user
      → (salt' : ℕ) (candidate : String)
      → (p.authenticate salt' a email candidate (p.register salt u a email password s).1).0
        ≡ (if i.accepts salt password candidate then ok user else err authentication_failed)
  -- After a change of password the new hash decides, the old password notwithstanding.
  pub changed :
      (a : Archetype) (email : String) (s : p.State) (user : ProviderUser)
      → i.IsGood s
      → (p.find_user_by_email a email s).0 ≡ ok (some user)
      → (salt salt' : ℕ) (password candidate : String)
      → (p.authenticate salt' a email candidate
          (p.change_password salt user.user_id password s).1).0
        ≡ (if not (i.accepts salt password candidate)
            then err authentication_failed
            else if user.disabled
            then err account_disabled
            else ok user)
  -- An address that is taken within the archetype is refused, and nothing changes.
  pub taken :
      (salt u : ℕ) (a : Archetype) (email password : String) (s : p.State) (user : ProviderUser)
      → (p.find_user_by_email a email s).0 ≡ ok (some user)
      → p.register salt u a email password s ≡ (err auth_error, s)
  -- Nobody is registered with a new provider.
  pub nobody :
      (a : Archetype) (email : String) (s : p.State)
      → i.IsNew s
      → (p.find_user_by_email a email s).0 ≡ ok none
  -- An address that is not found fails like a wrong password does.
  pub unknown :
      (salt : ℕ) (a : Archetype) (email password : String) (s : p.State)
      → (p.find_user_by_email a email s).0 ≡ ok none
      → (p.authenticate salt a email password s).0 ≡ err authentication_failed
  -- The credential that let a user in raises AccountDisabled once the account is disabled.
  pub shut_out :
      (salt : ℕ) (a : Archetype) (email password : String) (s : p.State) (user : ProviderUser)
      → i.IsGood s
      → (p.authenticate salt a email password s).0 ≡ ok user
      → (p.authenticate salt a email password (p.disable_account user.user_id s).1).0
        ≡ err account_disabled
  -- Nobody authenticates as a disabled account.
  pub enabled :
      (salt : ℕ) (a : Archetype) (email password : String) (s : p.State) (user : ProviderUser)
      → (p.authenticate salt a email password s).0 ≡ ok user
      → user.disabled ≡ false
  -- An email that was marked is verified, and a second call is a no-op with the same result.
  pub verified_once :
      (u : ℕ) (s : p.State) (user : ProviderUser)
      → (p.mark_email_verified u s).0 ≡ ok user
      → (user.email_verified ≡ true)
        × (p.mark_email_verified u (p.mark_email_verified u s).1
            ≡ (ok user, (p.mark_email_verified u s).1))

-- The promises about sessions.
pub record SessionLaws (p : IdentityProvider) (i : Insight p) : Type 0 where
  -- A new session is the user's, and is handed out until its time has elapsed; from then on it counts as
  -- revoked.
  pub issued :
      (now id u : ℕ) (device : Option String) (s : p.State) (session : Session)
      → (p.issue_session now id u device s).0 ≡ ok session
      → (session.user_id ≡ u)
        × (session.issued_at ≡ now)
        × (session.device_fingerprint ≡ device)
        × ((later : ℕ)
            → (p.get_session later id (p.issue_session now id u device s).1).0
              ≡ (if leb session.expires_at later then err session_revoked else ok session))
  -- A new provider knows no session.
  pub none_issued :
      (now id : ℕ) (s : p.State) → i.IsNew s → (p.get_session now id s).0 ≡ err session_not_found
  -- Issuing one changes no other session: one that is not found remains so.
  pub apart :
      (now later id other u : ℕ) (device : Option String) (s : p.State)
      → other ≢ id
      → (p.get_session later other (p.issue_session now id u device s).1).0
        ≡ (p.get_session later other s).0
  -- A session that is handed out is the one asked for, has not expired, and is of an enabled user.
  pub live :
      (now id : ℕ) (s : p.State) (session : Session)
      → i.IsGood s
      → (p.get_session now id s).0 ≡ ok session
      → (session.session_id ≡ id)
        × (now < session.expires_at)
        × ((user : ProviderUser) × ((p.get_user session.user_id s).0 ≡ ok user)
            × (user.disabled ≡ false)
            × (user.archetype ≡ session.archetype))
  -- No session is issued for a disabled account.
  pub refused :
      (now id u : ℕ) (device : Option String) (s : p.State) (user : ProviderUser)
      → (p.get_user u s).0 ≡ ok user
      → user.disabled ≡ true
      → (p.issue_session now id u device s).0 ≡ err account_disabled
  -- A revocation returns, whether there is such a session or not, and a second one is a no-op.
  pub revoked_once :
      (id : ℕ) (s : p.State)
      → ((p.revoke_session id s).0 ≡ ok tt)
        × (p.revoke_session id (p.revoke_session id s).1 ≡ (ok tt, (p.revoke_session id s).1))
  -- A session that is there, expired or not, raises SessionRevoked after its revocation, and an unknown
  -- one still SessionNotFound.
  pub revoked_session :
      (now later id : ℕ) (s : p.State)
      → (p.get_session now id s).0 ≢ err session_not_found
      → (p.get_session later id (p.revoke_session id s).1).0 ≡ err session_revoked
  pub unknown_session :
      (now later id : ℕ) (s : p.State)
      → (p.get_session now id s).0 ≡ err session_not_found
      → (p.get_session later id (p.revoke_session id s).1).0 ≡ err session_not_found
  -- A revoked session is not handed out.
  pub revoked :
      (now id : ℕ) (s : p.State) (session : Session)
      → (p.get_session now id (p.revoke_session id s).1).0 ≢ ok session
  -- Nor is one of a user whose sessions were all revoked, or whose account was disabled.
  pub all_revoked :
      (now id u : ℕ) (s : p.State) (session : Session)
      → (p.get_session now id (p.revoke_all_sessions u s).1).0 ≡ ok session
      → session.user_id ≢ u
  pub disabled :
      (now id u : ℕ) (s : p.State) (session : Session)
      → (p.disable_account u s).0 ≡ ok tt
      → (p.get_session now id (p.disable_account u s).1).0 ≡ ok session
      → session.user_id ≢ u
  -- Disabling an account twice is disabling it once.
  pub disabled_once :
      (u : ℕ) (s : p.State)
      → (p.disable_account u s).0 ≡ ok tt
      → p.disable_account u (p.disable_account u s).1 ≡ (ok tt, (p.disable_account u s).1)

-- The promises about the second factor.
pub record TotpLaws (p : IdentityProvider) (i : Insight p) : Type 0 where
  -- A new account has no second factor to verify.
  pub not_enrolled :
      (salt u now : ℕ) (a : Archetype) (email password code : String) (s : p.State)
      (user : ProviderUser)
      → (p.register salt u a email password s).0 ≡ ok user
      → (p.verify_totp now user.user_id code (p.register salt u a email password s).1).0
        ≡ err totp_not_enrolled
  -- After an enrolment was begun, a code is judged by the secret that it returned.
  pub pending :
      (random now u : ℕ) (code : String) (s : p.State) (enrolment : TotpEnrolment)
      → (p.enrol_totp random u s).0 ≡ ok enrolment
      → (p.verify_totp now u code (p.enrol_totp random u s).1).0
        ≡ ok (i.matches now enrolment.secret code)
  -- An account with a second factor cannot enrol another one.
  pub enrolled :
      (random u : ℕ) (s : p.State) (user : ProviderUser)
      → (p.get_user u s).0 ≡ ok user
      → user.totp_enrolled ≡ true
      → (p.enrol_totp random u s).0 ≡ err totp_already_enrolled
  -- A code that verifies completes the enrolment.
  pub completed :
      (now u : ℕ) (code : String) (s : p.State)
      → (p.verify_totp now u code s).0 ≡ ok true
      → (user : ProviderUser) × ((p.get_user u (p.verify_totp now u code s).1).0 ≡ ok user)
        × (user.totp_enrolled ≡ true)

pub record IsProvider (p : IdentityProvider) (i : Insight p) : Type 0 where
  -- A new provider is valid.
  pub starts : (s : p.State) → i.IsNew s → i.IsGood s
  pub accounts : AccountLaws p i
  pub sessions : SessionLaws p i
  pub totp : TotpLaws p i
