-- ===== src/Auth/Service/World.antt =====
-- The state that `AuthService` composes, and how its methods reach the parts of it.
use trustlist_core.Base.{ℕ, String, Option, none, List}
use trustlist_core.Base.Result.{Result, ok, err}
use trustlist_core.Base.Action.{Action}
use trustlist_core.Auth.Errors.{Error}
use trustlist_core.Auth.Database.{Database, AuditEvent, AuthEventType, Detail}
use trustlist_core.Auth.Provider.{Provider}
use trustlist_core.Auth.Audit.{Sink, Journal, record_event}

pub record World : Type 0 where
  pub provider : Provider
  pub database : Database
  pub sink : Sink

-- What the clock, `uuid.uuid4` and the random generators yield during one call.
pub record Draws : Type 0 where
  pub now : ℕ
  pub event_id : ℕ
  pub new_id : ℕ
  pub random : ℕ

unfoldable pub on_provider : {A : Type 0} → Action Error Provider A → Action Error World A
on_provider m w = let (r, p) = m w.provider in (r, record w { provider = p })

unfoldable pub on_database : {A : Type 0} → Action Error Database A → Action Error World A
on_database m w = let (r, db) = m w.database in (r, record w { database = db })

abbrev pub journal : World → Journal
journal w = record { database = w.database; sink = w.sink }

abbrev pub on_journal : {A : Type 0} → Action Error Journal A → Action Error World A
on_journal m w =
    let (r, j) = m (journal w) in (r, record w { database = j.database; sink = j.sink })

abbrev pub handled :
    {A : Type 0} → (Error → Action Error World A) → Result Error A × World → Result Error A × World
handled handler (ok a, w) = (ok a, w)
handled handler (err e, w) = handler e w

-- `try: m except Exception: handler`
unfoldable pub attempt :
    {A : Type 0} → Action Error World A → (Error → Action Error World A) → Action Error World A
attempt m handler w = handled handler (m w)

-- `self._audit.record(connection, …)`
unfoldable pub audit :
    (String → String)
    → Draws
    → AuthEventType
    → Option ℕ
    → Option String
    → Option String
    → List (String × Detail)
    → Action Error World AuditEvent
audit lower d event_type user_id ip agent details = on_journal (
    record_event lower d.now d.event_id (record {
      event_type = event_type;
      user_id = user_id;
      ip_address_observed = ip;
      user_agent_observed = agent;
      event_details = details;
      occurred_at = none;
    }))
