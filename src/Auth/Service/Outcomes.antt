-- ===== src/Auth/Service/Outcomes.antt =====
-- What single methods of the service do to sessions and to the audit trail.
use trustlist_core.Base.{
  ℕ, String, ◌≡◌, refl, Bool, true, false, not, List, [], ◌∷◌, Option, none, some, arith, ℕ-eq,
  String-eq, ◌==◌,
}
use trustlist_core.Base.Lists.{any, contains}
use trustlist_core.Base.Dict.{lookup}
use trustlist_core.Base.Result.{ok, err}
use trustlist_core.Auth.Errors.{Error, session_revoked}
use trustlist_core.Auth.Rbac.Model.{Archetype, archetype_value}
use trustlist_core.Auth.Database.{
  Database, AuditEvent, AuthEventType, Detail, text, login_failure, references, reads, is_storable,
  event_admissible,
}
use trustlist_core.Auth.RoleStore
use trustlist_core.Auth.External.{External}
use trustlist_core.Auth.Provider
use trustlist_core.Auth.Provider.{Provider, SessionRecord, ProviderUser, revoke_if_of}
use trustlist_core.Auth.Provider.Credentials
use trustlist_core.Auth.Provider.Flows.{get_session-revoke_all}
use trustlist_core.Auth.Audit.{Request, is_forbidden, event_of, forbidden_detail_keys}
use trustlist_core.Auth.Audit.Trail.{record_event_lem, insertable}
use trustlist_core.Auth.Service.World.{World, Draws, on_provider, on_database, attempt, audit}
use trustlist_core.Auth.Service.Methods

-- One row more, of the kind and for the user.
abbrev pub OneRow : AuthEventType → Option ℕ → World → World → Type 0
OneRow k user_id w w' =
    (e : AuditEvent) × (w'.database.audit_events ≡ e ∷ w.database.audit_events)
    × (e.event_type ≡ k)
    × (e.user_id ≡ user_id)

abbrev is_fresh : ℕ → World → Bool
is_fresh event_id w = not (any (λ e. e.event_id == event_id) w.database.audit_events)

-- The audit of a clean request with a new id for a known user, or for none.
audit_ok :
    (lower : String → String) (d : Draws) (k : AuthEventType) (user_id : Option ℕ)
    (ip agent : Option String) (details : List (String × Detail)) (w : World)
    → is_forbidden lower details ≡ false
    → is_fresh d.event_id w ≡ true
    → reads w.database.types.is_inet ip ≡ true
    → reads w.database.types.is_text agent ≡ true
    → w.database.types.is_jsonb details ≡ true
    → references user_id w.database.accounts ≡ true
    → let (r, w') = audit lower d k user_id ip agent details w in
      ((e : AuditEvent) × (r ≡ ok e))
      × OneRow k user_id w w'
      × (w'.provider ≡ w.provider)
      × (w'.database.assignments ≡ w.database.assignments)
unfolding audit
audit_ok lower d k user_id ip agent details w clean fresh inet agent_text jsonb known =
    let q : Request = record {
      event_type = k;
      user_id = user_id;
      ip_address_observed = ip;
      user_agent_observed = agent;
      event_details = details;
      occurred_at = none;
    } in
    let event : AuditEvent = event_of d.now d.event_id q in
    let fits : insertable event w.database ≡ true =
      (unfold is_storable event_admissible in ground arith) in
    (
      (event, rw (record_event_lem, clean, fits)),
      (event, rw (record_event_lem, clean, fits), refl, refl),
      refl,
      rw (record_event_lem, clean, fits),
    )

module _ (x : External) (d : Draws) where
  -- A failed login raises what the provider raised, and leaves exactly one audit row more, a
  -- login_failure that names no user; the roles are untouched. It is assumed that the drawn id is new,
  -- that neither "archetype" nor "email" is a forbidden key in lower case, and that the columns of the
  -- audit table take the address, the user agent and the details with that email.
  pub authenticate_failure :
      (a : Archetype) (email password : String) (ip agent : Option String) (w : World) (e : Error)
      → is_fresh d.event_id w ≡ true
      → contains (x.lower "archetype") forbidden_detail_keys ≡ false
      → contains (x.lower "email") forbidden_detail_keys ≡ false
      → reads w.database.types.is_inet ip ≡ true
      → reads w.database.types.is_text agent ≡ true
      → w.database.types.is_jsonb
          (("archetype", text (archetype_value a)) ∷ ("email", text email) ∷ [])
        ≡ true
      → (Credentials.authenticate x d.random a email password w.provider).0 ≡ err e
      → let (r, w') = Methods.authenticate x d a email password ip agent w in
        (r ≡ err e)
        × OneRow login_failure none w w'
        × (w'.database.assignments ≡ w.database.assignments)
  unfolding Methods.authenticate on_provider attempt
  authenticate_failure a email password ip agent w e fresh clean_1 clean_2 inet agent_text jsonb
        failed =
      let p = (Credentials.authenticate x d.random a email password w.provider).1 in
      let w' : World = record w { provider = p } in
      let details : List (String × Detail) =
        ("archetype", text (archetype_value a)) ∷ ("email", text email) ∷ [] in
      let clean : is_forbidden x.lower details ≡ false = (unfold is_forbidden in ground arith) in
      let ((event, returned), (row, added, kind, who), _, roles) =
        audit_ok x.lower d login_failure none ip agent details w' clean fresh inet agent_text jsonb
          refl in
      rw failed (rw returned (refl, (row, added, kind, who), roles))

  change_password-sessions :
      (u : ℕ) (new : String) (p : Provider)
      → (Credentials.change_password x d.random u new p).1.sessions ≡ p.sessions
  unfolding Credentials.change_password
  change_password-sessions u new p = ground arith

  change_password-provider :
      (u : ℕ) (new : String) (ip : Option String) (w : World)
      → (Credentials.change_password x d.random u new w.provider).0 ≡ ok tt
      → (Methods.change_password x d u new ip w).1.provider
        ≡ (Provider.revoke_all_sessions u
            (Credentials.change_password x d.random u new w.provider).1).1
  unfolding Methods.change_password on_provider Provider.revoke_all_sessions audit
  change_password-provider u new ip w changed = rw changed (ground arith)

  -- A change of password that the provider accepts ends every session of the account, also when the
  -- audit of the change raises afterwards.
  pub change_password-ends_sessions :
      (u : ℕ) (new : String) (ip : Option String) (w : World)
      → (Credentials.change_password x d.random u new w.provider).0 ≡ ok tt
      → (now s : ℕ) (r : SessionRecord) → lookup s w.provider.sessions ≡ some r
      → r.user_id ≡ u
      → (Provider.get_session now s (Methods.change_password x d u new ip w).1.provider).0
        ≡ err session_revoked
  change_password-ends_sessions u new ip w changed now s r found of_u =
      rw (change_password-provider u new ip w changed)
        (get_session-revoke_all now s u r _ (rw change_password-sessions found) of_u)

  revoke_role-provider :
      (u : ℕ) (role : String) (granted_at : ℕ) (by : Option ℕ) (w : World)
      → (RoleStore.revoke_role d.now u role granted_at none w.database).0 ≡ ok true
      → (Methods.revoke_role x d u role granted_at by w).1.provider
        ≡ (Provider.revoke_all_sessions u w.provider).1
  unfolding Methods.revoke_role on_provider on_database Provider.revoke_all_sessions audit
  revoke_role-provider u role granted_at by w revoked = rw revoked (ground arith)

  revoke_role-audit_events :
      (u : ℕ) (role : String) (granted_at : ℕ) (db : Database)
      → (RoleStore.revoke_role d.now u role granted_at none db).1.audit_events ≡ db.audit_events
  unfolding RoleStore.revoke_role
  revoke_role-audit_events u role granted_at db = refl

  -- A revoke for which the role store reports none returns false, and touches neither the sessions nor the audit
  -- trail.
  pub revoke_role-none :
      (u : ℕ) (role : String) (granted_at : ℕ) (by : Option ℕ) (w : World)
      → (RoleStore.revoke_role d.now u role granted_at none w.database).0 ≡ ok false
      → let (result, w') = Methods.revoke_role x d u role granted_at by w in
        (result ≡ ok false)
        × (w'.provider ≡ w.provider)
        × (w'.database.audit_events ≡ w.database.audit_events)
  unfolding Methods.revoke_role on_database
  revoke_role-none u role granted_at by w e =
      rw e (refl, refl, revoke_role-audit_events u role granted_at w.database)

  -- A revoke for which the role store reports a revoked grant ends every session of the user.
  pub revoke_role-ends_sessions :
      (u : ℕ) (role : String) (granted_at : ℕ) (by : Option ℕ) (w : World)
      → (RoleStore.revoke_role d.now u role granted_at none w.database).0 ≡ ok true
      → (now s : ℕ) (r : SessionRecord) → lookup s w.provider.sessions ≡ some r
      → r.user_id ≡ u
      → (Provider.get_session now s (Methods.revoke_role x d u role granted_at by w).1.provider).0
        ≡ err session_revoked
  revoke_role-ends_sessions u role granted_at by w revoked now s r live of_u =
      rw (revoke_role-provider u role granted_at by w revoked)
        (get_session-revoke_all now s u r w.provider live of_u)
