-- ===== src/Auth/Service/Histories.antt =====
-- Every method of the service keeps the invariant of `Sound`, and so does every history of calls.
use trustlist_core.Base.{ℕ, String, ◌≡◌, Option, none, ℕ-eq}
use trustlist_core.Base.Dict.{lookup}
use trustlist_core.Base.Action.{Keeps}
use trustlist_core.Auth.Rbac.Model.{Archetype}
use trustlist_core.Auth.External.{External}
use trustlist_core.Auth.Provider
use trustlist_core.Auth.Provider.{Provider}
use trustlist_core.Auth.Provider.CredentialSteps
use trustlist_core.Auth.Provider.Steps
use trustlist_core.Auth.Provider.Steps.{IsValid}
use trustlist_core.Auth.Provider.History
use trustlist_core.Auth.Service.World.{World, Draws, on_provider}
use trustlist_core.Auth.Service.Methods
use trustlist_core.Auth.Service.Methods.{PermissionArg}
use trustlist_core.Auth.Service.Sound.{IsSound, Good, good_rules, on_provider-Good}

module _ (x : External) (d : Draws) where
  authenticate-Good :
      (a : Archetype) (email password : String) (ip agent : Option String)
      → Keeps (Good x) (Methods.authenticate x d a email password ip agent)
  unfolding Methods.authenticate
  authenticate-Good a email password ip agent =
      search (good_rules, CredentialSteps.authenticate-IsValid)

  revoke_all-Good : (u : ℕ) → Keeps (Good x) (on_provider (Provider.revoke_all_sessions u))
  revoke_all-Good u = on_provider-Good x _ (λ p h. Steps.revoke_all_sessions-IsValid x p h u)

  change_password-Good :
      (u : ℕ) (new_password : String) (ip : Option String)
      → Keeps (Good x) (Methods.change_password x d u new_password ip)
  unfolding Methods.change_password
  change_password-Good u new_password ip =
      search (good_rules, revoke_all-Good, CredentialSteps.change_password-IsValid)

  revoke_session-Good :
      (s : ℕ) (user_id : Option ℕ) (ip : Option String)
      → Keeps (Good x) (Methods.revoke_session x d s user_id ip)
  unfolding Methods.revoke_session
  revoke_session-Good s user_id ip = search (good_rules, Steps.revoke_session-IsValid)

  issue_session-Good :
      (u : ℕ) (device : Option String) → Keeps (Good x) (Methods.issue_session x d u device)
  unfolding Methods.issue_session
  issue_session-Good u device = search (good_rules, Steps.issue_session-IsValid)

  mark_email_verified-Good : (u : ℕ) → Keeps (Good x) (Methods.mark_email_verified x d u)
  unfolding Methods.mark_email_verified
  mark_email_verified-Good u = search (good_rules, Steps.mark_email_verified-IsValid)

  enrol_totp-Good : (u : ℕ) → Keeps (Good x) (Methods.enrol_totp x d u)
  unfolding Methods.enrol_totp
  enrol_totp-Good u = search (good_rules, CredentialSteps.enrol_totp-IsValid)

  verify_totp-Good :
      (u : ℕ) (code : String) (ip : Option String)
      → Keeps (Good x) (Methods.verify_totp x d u code ip)
  unfolding Methods.verify_totp
  verify_totp-Good u code ip = search (good_rules, CredentialSteps.verify_totp-IsValid)

  verify_totp_strict-Good :
      (u : ℕ) (code : String) (ip : Option String)
      → Keeps (Good x) (Methods.verify_totp_strict x d u code ip)
  unfolding Methods.verify_totp_strict
  verify_totp_strict-Good u code ip = search (good_rules, CredentialSteps.verify_totp-IsValid)

  disable_account-Good : (u : ℕ) (by : Option ℕ) → Keeps (Good x) (Methods.disable_account x d u by)
  unfolding Methods.disable_account
  disable_account-Good u by = search (good_rules, Steps.disable_account-IsValid)

  assign_role-Good :
      (u : ℕ) (a : Archetype) (role : String) (by customer : Option ℕ)
      → Keeps (Good x) (Methods.assign_role x d u a role by customer)
  unfolding Methods.assign_role
  assign_role-Good u a role by customer = search good_rules

  revoke_role-Good :
      (u : ℕ) (role : String) (granted_at : ℕ) (by : Option ℕ)
      → Keeps (Good x) (Methods.revoke_role x d u role granted_at by)
  unfolding Methods.revoke_role
  revoke_role-Good u role granted_at by = search (good_rules, revoke_all-Good)

-- One call of a method of `AuthService`. A registration draws a UUID that no account has.
pub data Call (x : External) (w : World) : World → Type 0 where
  registers :
      (d : Draws) (a : Archetype) (email password : String)
      → lookup d.new_id w.provider.accounts ≡ none
      → Call x w (Methods.register x d a email password w).1
  verifies_email : (d : Draws) (u : ℕ) → Call x w (Methods.mark_email_verified x d u w).1
  authenticates :
      (d : Draws) (a : Archetype) (email password : String) (ip agent : Option String)
      → Call x w (Methods.authenticate x d a email password ip agent w).1
  changes_password :
      (d : Draws) (u : ℕ) (password : String) (ip : Option String)
      → Call x w (Methods.change_password x d u password ip w).1
  issues :
      (d : Draws) (u : ℕ) (device : Option String)
      → Call x w (Methods.issue_session x d u device w).1
  revokes_session :
      (d : Draws) (s : ℕ) (user_id : Option ℕ) (ip : Option String)
      → Call x w (Methods.revoke_session x d s user_id ip w).1
  enrols : (d : Draws) (u : ℕ) → Call x w (Methods.enrol_totp x d u w).1
  verifies :
      (d : Draws) (u : ℕ) (code : String) (ip : Option String)
      → Call x w (Methods.verify_totp x d u code ip w).1
  verifies_strictly :
      (d : Draws) (u : ℕ) (code : String) (ip : Option String)
      → Call x w (Methods.verify_totp_strict x d u code ip w).1
  disables : (d : Draws) (u : ℕ) (by : Option ℕ) → Call x w (Methods.disable_account x d u by w).1
  assigns :
      (d : Draws) (u : ℕ) (a : Archetype) (role : String) (by customer : Option ℕ)
      → Call x w (Methods.assign_role x d u a role by customer w).1
  revokes_role :
      (d : Draws) (u : ℕ) (role : String) (granted_at : ℕ) (by : Option ℕ)
      → Call x w (Methods.revoke_role x d u role granted_at by w).1

pub data Reach (x : External) (w : World) : World → Type 0 where
  here : Reach x w w
  next : {v u : World} → Reach x w v → Call x v u → Reach x w u

module _ (x : External) where
  register-Good :
      (d : Draws) (a : Archetype) (email password : String) (w : World)
      → lookup d.new_id w.provider.accounts ≡ none
      → Good x w
      → Good x (Methods.register x d a email password w).1
  unfolding Methods.register on_provider Good
  register-Good d a email password w fresh h = record {
    provider =
        History.register-IsValid x w.provider h.provider d.random d.new_id a email password fresh;
    roles = h.roles;
    clean = h.clean;
    mirrored = h.mirrored;
  }

  Call-Good : {w v : World} → Call x w v → Good x w → Good x v
  Call-Good {w} (registers d a email password fresh) h = register-Good d a email password w fresh h
  Call-Good {w} (verifies_email d u) h = (mark_email_verified-Good x d u).at w h
  Call-Good {w} (authenticates d a email password ip agent) h =
      (authenticate-Good x d a email password ip agent).at w h
  Call-Good {w} (changes_password d u password ip) h =
      (change_password-Good x d u password ip).at w h
  Call-Good {w} (issues d u device) h = (issue_session-Good x d u device).at w h
  Call-Good {w} (revokes_session d s user_id ip) h = (revoke_session-Good x d s user_id ip).at w h
  Call-Good {w} (enrols d u) h = (enrol_totp-Good x d u).at w h
  Call-Good {w} (verifies d u code ip) h = (verify_totp-Good x d u code ip).at w h
  Call-Good {w} (verifies_strictly d u code ip) h = (verify_totp_strict-Good x d u code ip).at w h
  Call-Good {w} (disables d u by) h = (disable_account-Good x d u by).at w h
  Call-Good {w} (assigns d u a role by customer) h =
      (assign_role-Good x d u a role by customer).at w h
  Call-Good {w} (revokes_role d u role granted_at by) h =
      (revoke_role-Good x d u role granted_at by).at w h

  -- Whatever calls of the service are made, returning or raising, where each registration draws a
  -- UUID that no account has, a sound state stays sound: the
  -- provider is valid, the role table consistent, no audit row carries a forbidden key, and a
  -- recording sink has seen exactly the audit rows in their order.
  pub Reach-IsSound : {w v : World} → Reach x w v → IsSound x.lower w → IsSound x.lower v
  unfolding Good
  Reach-IsSound here h = h
  Reach-IsSound (next r c) h = Call-Good c (Reach-IsSound r h)
