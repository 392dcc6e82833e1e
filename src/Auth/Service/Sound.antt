-- ===== src/Auth/Service/Sound.antt =====
-- The invariant of the whole service, and that every method keeps it, whether it returns or raises.
use trustlist_core.Base.{ℕ, String, ◌≡◌, refl, List, Option, none, arith, Bool-cases, inl, inr}
use trustlist_core.Base.Result.{Result, ok, err}
use trustlist_core.Base.Action.{
  Action, Keeps, Keeps-bind, Keeps-still, Keeps-if, ◌>>=◌, ◌>>◌, pure, raise,
}
use trustlist_core.Auth.Errors.{Error}
use trustlist_core.Auth.Rbac.Model.{Archetype}
use trustlist_core.Auth.Database.{Database, AuthEventType, Detail, insert_assignment}
use trustlist_core.Auth.RoleStore.{grant_role, revoke_role}
use trustlist_core.Auth.RoleStore.Consistent.{
  IsConsistent, grant_role-IsConsistent, revoke_role-IsConsistent,
}
use trustlist_core.Auth.External.{External}
use trustlist_core.Auth.Provider.{Provider}
use trustlist_core.Auth.Provider.Steps.{IsValid}
use trustlist_core.Auth.Audit.Trail.{
  IsClean, IsMirrored, record_event-IsClean, record_event-IsMirrored, record_event_lem, insertable,
}
use trustlist_core.Auth.Audit.{Request, event_of, is_forbidden, record_event}
use trustlist_core.Auth.Service.World.{
  World, Draws, journal, on_provider, on_database, attempt, handled, audit,
}

-- The provider is valid, the roles are consistent, no audit row carries a forbidden key, and a
-- recording sink has seen exactly the audit rows.
pub record IsSound (lower : String → String) (w : World) : Type 0 where
  pub provider : IsValid lower w.provider
  pub roles : IsConsistent w.database
  pub clean : IsClean lower (journal w)
  pub mirrored : IsMirrored (journal w)

-- An audit record leaves the roles as consistent as they were.
record_event-IsConsistent :
    (lower : String → String) (now event_id : ℕ) (q : Request) (w : World)
    → IsConsistent w.database
    → IsConsistent (record_event lower now event_id q (journal w)).1.database
record_event-IsConsistent lower now event_id q w h =
    elim (Bool-cases (is_forbidden lower q.event_details)) [
      | inl forbidden ↦ rw (record_event_lem, forbidden) h
      | inr clean ↦ elim (Bool-cases (insertable (event_of now event_id q) w.database)) [
        | inl fits ↦ rw (record_event_lem, clean, fits) (record { rows = h.rows; keys = h.keys })
        | inr refused ↦ rw (record_event_lem, clean, refused) h
      ]
    ]

module _ (x : External) where
  unfoldable pub Good : World → Type 0
  Good = IsSound x.lower

  pub on_provider-Good :
      {A : Type 0} (m : Action Error Provider A)
      → ((p : Provider) → IsValid x.lower p → IsValid x.lower (m p).1)
      → Keeps Good (on_provider m)
  unfolding on_provider Good
  on_provider-Good m keep = record {
    at = λ w h. record {
      provider = keep w.provider h.provider;
      roles = h.roles;
      clean = h.clean;
      mirrored = h.mirrored;
    };
  }

  pub audit-Good :
      (d : Draws) (k : AuthEventType) (user_id : Option ℕ) (ip agent : Option String)
      (details : List (String × Detail))
      → Keeps Good (audit x.lower d k user_id ip agent details)
  unfolding audit Good
  audit-Good d k user_id ip agent details = record {
    at = λ w h. record {
      provider = h.provider;
      roles = record_event-IsConsistent x.lower d.now d.event_id _ w h.roles;
      clean = record_event-IsClean x.lower d.now d.event_id _ (journal w) h.clean;
      mirrored = record_event-IsMirrored x.lower d.now d.event_id _ (journal w) h.mirrored;
    };
  }

  grant_role-audit_events :
      (now v : ℕ) (a : Archetype) (role : String) (granted_by customer_id : Option ℕ)
      (db : Database)
      → (grant_role now v a role granted_by customer_id none db).1.audit_events ≡ db.audit_events
  unfolding grant_role insert_assignment
  grant_role-audit_events now v a role granted_by customer_id db = ground arith

  pub grant_role-Good :
      (now v : ℕ) (a : Archetype) (role : String) (granted_by customer_id : Option ℕ)
      → Keeps Good (on_database (grant_role now v a role granted_by customer_id none))
  unfolding on_database Good
  grant_role-Good now v a role granted_by customer_id = record {
    at = λ w h. record {
      provider = h.provider;
      roles = grant_role-IsConsistent now v role a granted_by customer_id none w.database h.roles;
      clean = rw grant_role-audit_events h.clean;
      mirrored = rw grant_role-audit_events h.mirrored;
    };
  }

  pub revoke_role-Good :
      (now v : ℕ) (role : String) (granted_at : ℕ)
      → Keeps Good (on_database (revoke_role now v role granted_at none))
  unfolding on_database Good revoke_role
  revoke_role-Good now v role granted_at = record {
    at = λ w h. record {
      provider = h.provider;
      roles = revoke_role-IsConsistent now v role granted_at none w.database h.roles;
      clean = h.clean;
      mirrored = h.mirrored;
    };
  }

  pub attempt-Good :
      {A : Type 0} (m : Action Error World A) (handler : Error → Action Error World A)
      → Keeps Good m
      → ((e : Error) → Keeps Good (handler e))
      → Keeps Good (attempt m handler)
  unfolding attempt
  attempt-Good {A} m handler km kh = record { at = λ w h. after (m w).0 (m w).1 (km.at w h) }
    where
      after : (r : Result Error A) (w : World) → Good w → Good (handled handler (r, w)).1
      after (ok a) w h = h
      after (err e) w h = (kh e).at w h

  pub pure-Good : {A : Type 0} (a : A) → Keeps Good (pure {E = Error} a)
  pure-Good a = Keeps-still Good (pure a) (λ w. refl)

  pub raise-Good : {A : Type 0} (e : Error) → Keeps Good (raise {A = A} e)
  raise-Good e = Keeps-still Good (raise e) (λ w. refl)

  pub ruleset good_rules = (
    pure-Good, raise-Good, audit-Good, on_provider-Good, grant_role-Good, revoke_role-Good,
    attempt-Good, Keeps-if, Keeps-bind,
  )
