-- ===== src/Auth/Audit.antt =====
-- auth/trustlist_auth/audit.py and the recording sink of testing.py: the audit trail. `record_event` is
-- `AuditTrail.record`; its state is the database of the caller's transaction and the sink.
pub mod Trail
mod Examples
use trustlist_core.Base.{
  ℕ, String, Bool, Option, none, some, List, [], ◌∷◌, ◌++◌, if◌then◌else◌, ◌==◌, String-eq,
}
use trustlist_core.Base.Lists.{any, contains}
use trustlist_core.Base.Result.{Result, ok, err}
use trustlist_core.Base.Action.{Action, pure, raise, ◌>>=◌, ◌>>◌}
use trustlist_core.Auth.Errors.{Error, value_error}
use trustlist_core.Auth.Database.{Database, AuthEventType, AuditEvent, Detail, insert_audit_event}

-- `_FORBIDDEN_DETAIL_KEYS`
abbrev pub forbidden_detail_keys : List String
forbidden_detail_keys =
    "password" ∷ "plaintext" ∷ "new_password" ∷ "old_password" ∷ "totp_secret" ∷ "secret"
    ∷ "password_hash" ∷ "code" ∷ "totp_code" ∷ []

abbrev pub auth_audit_topic : String
auth_audit_topic = "auth.audit"

-- the fields that `LoggingAuditEventSink` logs
pub record LogLine : Type 0 where
  pub audit_event_id : ℕ
  pub audit_event_type : AuthEventType
  pub audit_user_id : Option ℕ
  pub audit_topic : String

-- `NullAuditEventSink`, `LoggingAuditEventSink` with its lines, `RecordingAuditEventSink` with its
-- events, the oldest first
pub data Sink : Type 0 where
  null_sink : Sink
  logging_sink : List LogLine → Sink
  recording_sink : List AuditEvent → Sink

-- `emit`
unfoldable pub emit : AuditEvent → Sink → Sink
emit event null_sink = null_sink
emit event (logging_sink lines) =
    let line : LogLine = record {
      audit_event_id = event.event_id;
      audit_event_type = event.event_type;
      audit_user_id = event.user_id;
      audit_topic = auth_audit_topic;
    } in
    logging_sink (lines ++ line ∷ [])
emit event (recording_sink events) = recording_sink (events ++ event ∷ [])

pub record Journal : Type 0 where
  pub database : Database
  pub sink : Sink

-- `_FORBIDDEN_DETAIL_KEYS.intersection(key.lower() for key in details)` is not empty
unfoldable pub is_forbidden : (String → String) → List (String × Detail) → Bool
is_forbidden lower details = any (λ d. contains (lower d.0) forbidden_detail_keys) details

abbrev pub on_database {ℓ} : {A : Type ℓ} → Action Error Database A → Action Error Journal A
on_database m j = let (r, db) = m j.database in (r, record j { database = db })

-- what `record` needs to know of one event
pub record Request : Type 0 where
  pub event_type : AuthEventType
  pub user_id : Option ℕ
  pub ip_address_observed : Option String
  pub user_agent_observed : Option String
  pub event_details : List (String × Detail)
  pub occurred_at : Option ℕ

abbrev pub event_of : ℕ → ℕ → Request → AuditEvent
event_of now event_id q = record {
  event_id = event_id;
  event_type = q.event_type;
  occurred_at = elim q.occurred_at [ none ↦ now | some moment ↦ moment ];
  user_id = q.user_id;
  ip_address_observed = q.ip_address_observed;
  user_agent_observed = q.user_agent_observed;
  event_details = q.event_details;
}

-- `AuditTrail.record`, with the clock's reading and the UUID that it draws
unfoldable pub record_event : (String → String) → ℕ → ℕ → Request → Action Error Journal AuditEvent
unfolding is_forbidden
record_event lower now event_id q =
    if is_forbidden lower q.event_details then raise value_error else do
      let event = event_of now event_id q
      on_database (insert_audit_event event)
      λ j. (ok event, record j { sink = emit event j.sink })
