-- ===== src/Auth/Service/Methods.antt =====
-- auth/trustlist_auth/service.py: the methods of `AuthService`. `d` holds what the clock and the random
-- generators yield during the call.
use trustlist_core.Base.{
  ℕ, String, Bool, true, not, List, [], ◌∷◌, Option, none, some, if◌then◌else◌,
}
use trustlist_core.Base.Result.{Result, ok}
use trustlist_core.Base.Action.{Action, pure, raise, lift, gets, ◌>>=◌, ◌>>◌}
use trustlist_core.Auth.Errors.{Error, totp_verification_failed}
use trustlist_core.Auth.External.{External}
use trustlist_core.Auth.Rbac.Model.{Archetype, archetype_value, Permission, validate_permission}
use trustlist_core.Auth.Rbac.Framework
use trustlist_core.Auth.Rbac.Catalogues.{catalogue_for}
use trustlist_core.Auth.Database.{
  RoleAssignment, Detail, text, uuid, flag, null, login_success, login_failure,
  mfa_challenge_issued, mfa_challenge_success, mfa_challenge_failure, password_change, role_grant,
  role_revoke, account_disable, session_revoke,
}
use trustlist_core.Auth.RoleStore
use trustlist_core.Auth.Provider
use trustlist_core.Auth.Provider.{ProviderUser, Session, TotpEnrolment}
use trustlist_core.Auth.Provider.Credentials
use trustlist_core.Auth.Service.World.{World, Draws, on_provider, on_database, attempt, audit}

-- A permission argument, `Permission | str`.
pub data PermissionArg : Type 0 where
  member : Permission → PermissionArg
  named : String → PermissionArg

unfoldable pub resolve_permission_arg : PermissionArg → Result Error Permission
resolve_permission_arg (member p) = ok p
resolve_permission_arg (named s) = validate_permission s

-- an optional UUID in an event's details
abbrev pub or_null : Option ℕ → Detail
or_null none = null
or_null (some u) = uuid u

unfoldable pub roles_for : ℕ → Option ℕ → Action Error World (List String)
roles_for user_id customer_id =
    gets (λ w. RoleStore.live_role_identifiers user_id customer_id w.database)

unfoldable pub has_permission : ℕ → Archetype → PermissionArg → Option ℕ → Action Error World Bool
unfolding resolve_permission_arg
has_permission user_id archetype permission customer_id = do
  resolved ← lift (resolve_permission_arg permission)
  held ← gets (λ w. RoleStore.live_role_identifiers user_id customer_id w.database)
  lift (Framework.has_permission (catalogue_for archetype) held resolved)

module _ (x : External) (d : Draws) where
  unfoldable pub register : Archetype → String → String → Action Error World ProviderUser
  register archetype email password =
      on_provider (Credentials.register x d.random d.new_id archetype email password)

  unfoldable pub mark_email_verified : ℕ → Action Error World ProviderUser
  mark_email_verified user_id = on_provider (Provider.mark_email_verified user_id)

  -- the failure branch: the audit row has no user, and names the address
  unfoldable pub authenticate :
      Archetype → String → String → Option String → Option String → Action Error World ProviderUser
  authenticate archetype email password ip_address user_agent = do
    user ←
        attempt (on_provider (Credentials.authenticate x d.random archetype email password)) (λ e.
          do
            audit x.lower d login_failure none ip_address user_agent
                (("archetype", text (archetype_value archetype)) ∷ ("email", text email) ∷ [])
            raise e)
    audit x.lower d login_success (some user.user_id) ip_address user_agent
        (("archetype", text (archetype_value archetype)) ∷ [])
    pure user

  unfoldable pub change_password : ℕ → String → Option String → Action Error World (Unit {0})
  change_password user_id new_password ip_address = do
    on_provider (Credentials.change_password x d.random user_id new_password)
    on_provider (Provider.revoke_all_sessions user_id)
    audit x.lower d password_change (some user_id) ip_address none
        (("sessions_revoked", flag true) ∷ [])
    pure tt

  unfoldable pub issue_session : ℕ → Option String → Action Error World Session
  issue_session user_id device_fingerprint =
      on_provider (Provider.issue_session d.now d.new_id user_id device_fingerprint)

  unfoldable pub get_session : ℕ → Action Error World Session
  get_session session_id = on_provider (Provider.get_session d.now session_id)

  unfoldable pub revoke_session : ℕ → Option ℕ → Option String → Action Error World (Unit {0})
  revoke_session session_id user_id ip_address = do
    on_provider (Provider.revoke_session session_id)
    audit x.lower d session_revoke user_id ip_address none (("session_id", uuid session_id) ∷ [])
    pure tt

  unfoldable pub enrol_totp : ℕ → Action Error World TotpEnrolment
  enrol_totp user_id = do
    enrolment ← on_provider (Credentials.enrol_totp x d.random user_id)
    audit x.lower d mfa_challenge_issued (some user_id) none none
        (("purpose", text "totp_enrolment") ∷ [])
    pure enrolment

  unfoldable pub verify_totp : ℕ → String → Option String → Action Error World Bool
  verify_totp user_id code ip_address = do
    verified ← on_provider (Credentials.verify_totp x d.now user_id code)
    audit x.lower d (if verified then mfa_challenge_success else mfa_challenge_failure)
        (some user_id) ip_address none (("factor", text "totp") ∷ [])
    pure verified

  unfoldable pub verify_totp_strict : ℕ → String → Option String → Action Error World (Unit {0})
  unfolding verify_totp
  verify_totp_strict user_id code ip_address = do
    verified ← verify_totp user_id code ip_address
    if not verified then raise totp_verification_failed else pure tt

  unfoldable pub disable_account : ℕ → Option ℕ → Action Error World (Unit {0})
  disable_account user_id disabled_by_user_id = do
    on_provider (Provider.disable_account user_id)
    audit x.lower d account_disable (some user_id) none none
        (("disabled_by", or_null disabled_by_user_id) ∷ [])
    pure tt

  -- the end of `assign_role`: the audit of the grant
  unfoldable pub audit_grant :
      ℕ → String → Option ℕ → Option ℕ → RoleAssignment → Action Error World RoleAssignment
  audit_grant user_id role granted_by customer_id assignment = do
    audit x.lower d role_grant (some user_id) none none (
        ("role", text role)
        ∷ ("granted_by", or_null granted_by)
        ∷ ("customer_id", or_null customer_id)
        ∷ [])
    pure assignment

  unfoldable pub assign_role :
      ℕ → Archetype → String → Option ℕ → Option ℕ → Action Error World RoleAssignment
  unfolding audit_grant
  assign_role user_id archetype role granted_by customer_id = do
    assignment ←
        on_database (RoleStore.grant_role d.now user_id archetype role granted_by customer_id none)
    audit_grant user_id role granted_by customer_id assignment

  unfoldable pub revoke_role : ℕ → String → ℕ → Option ℕ → Action Error World Bool
  revoke_role user_id role granted_at revoked_by = do
    revoked ← on_database (RoleStore.revoke_role d.now user_id role granted_at none)
    if not revoked then pure revoked else do
      on_provider (Provider.revoke_all_sessions user_id)
      audit x.lower d role_revoke (some user_id) none none
          (("role", text role) ∷ ("revoked_by", or_null revoked_by) ∷ [])
      pure revoked
