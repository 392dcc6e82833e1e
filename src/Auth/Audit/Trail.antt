-- ===== src/Auth/Audit/Trail.antt =====
-- What the audit trail promises: a row and its mirror, or an exception and nothing.
use trustlist_core.Base.{
  ℕ, String, ◌≡◌, refl, ap, ◌∙◌, Bool, false, ◌&&◌, List, [], ◌∷◌, ◌++◌, arith, if◌then◌else◌, not,
  ◌==◌, String-eq, ℕ-eq, inl, inr, Bool-cases,
}
use trustlist_core.Base.Lists.{any, All}
use trustlist_core.Base.Result.{ok, err}
use trustlist_core.Auth.Errors.{value_error, integrity_error, data_error}
use trustlist_core.Auth.Database.{
  ColumnTypes, Database, AuditEvent, reads, references, insert_audit_event, is_storable,
  event_admissible,
}
use trustlist_core.Auth.Audit.{
  Sink, null_sink, logging_sink, recording_sink, emit, Journal, Request, event_of, is_forbidden,
  record_event,
}

-- The address of the row, if any, is an INET value, its user agent, if any, a TEXT value, and its
-- details are a JSONB value.
abbrev pub is_readable : AuditEvent → ColumnTypes → Bool
is_readable e types =
    reads types.is_inet e.ip_address_observed
    && reads types.is_text e.user_agent_observed
    && types.is_jsonb e.event_details

-- The row can be inserted: its columns take the values, its primary key is new, and its user exists.
abbrev pub insertable : AuditEvent → Database → Bool
insertable e db =
    is_readable e db.types
    && (not (any (λ f. f.event_id == e.event_id) db.audit_events)
        && references e.user_id db.accounts)

module _ (lower : String → String) (now event_id : ℕ) (q : Request) (j : Journal) where
  -- `record` either raises and changes nothing, ValueError for a forbidden key, DataError for an IP
  -- address that is no INET value, a user agent that is no TEXT value or details that are no JSONB
  -- value, and IntegrityError for a row that the table refuses, or it adds that one row and hands the
  -- same event to the sink.
  pub record_event_lem : record_event lower now event_id q j ≡ (
      if is_forbidden lower q.event_details
      then (err value_error, j)
      else if insertable (event_of now event_id q) j.database
      then (
        ok (event_of now event_id q),
        record {
          database = record j.database {
            audit_events = event_of now event_id q ∷ j.database.audit_events;
          };
          sink = emit (event_of now event_id q) j.sink;
        },
      )
      else (
        err (
            if is_readable (event_of now event_id q) j.database.types
            then integrity_error
            else data_error),
        j,
      ))
  unfolding record_event insert_audit_event is_storable event_admissible
  record_event_lem = ground arith

-- No row of the trail has a key that is forbidden in any case of its letters.
abbrev pub IsClean : (String → String) → Journal → Type 0
IsClean lower j = All (λ e. is_forbidden lower e.event_details ≡ false) j.database.audit_events

abbrev pub oldest_first : List AuditEvent → List AuditEvent
oldest_first [] = []
oldest_first (e ∷ rows) = oldest_first rows ++ e ∷ []

-- A recording sink has exactly the rows of the table, in the order of their insertion.
abbrev pub IsMirrored : Journal → Type 0
IsMirrored j =
    (events : List AuditEvent)
    → j.sink ≡ recording_sink events
    → events ≡ oldest_first j.database.audit_events

emit-recording :
    (e : AuditEvent) (s : Sink) (events : List AuditEvent)
    → emit e s ≡ recording_sink events
    → (old : List AuditEvent) × (s ≡ recording_sink old) × (events ≡ old ++ e ∷ [])
unfolding emit
emit-recording e null_sink events h = absurd (cc)
emit-recording e (logging_sink lines) events h = absurd (cc)
emit-recording e (recording_sink old) events h = (old, refl, cc)

module _ (lower : String → String) (now event_id : ℕ) (q : Request) (j : Journal) where
  pub record_event-IsClean : IsClean lower j → IsClean lower (record_event lower now event_id q j).1
  record_event-IsClean h = rw record_event_lem (ground arith)

  pub record_event-IsMirrored : IsMirrored j → IsMirrored (record_event lower now event_id q j).1
  record_event-IsMirrored h = elim (Bool-cases (is_forbidden lower q.event_details)) [
    | inl forbidden ↦ rw (record_event_lem, forbidden) h
    | inr clean ↦ elim (Bool-cases (insertable (event_of now event_id q) j.database)) [
      | inl fits ↦
          rw (record_event_lem, clean, fits)
            λ events e.
              let (old, before, after) = emit-recording (event_of now event_id q) j.sink events e in
              after ∙ ap (λ l. l ++ event_of now event_id q ∷ []) (h old before)
      | inr refused ↦ rw (record_event_lem, clean, refused) h
    ]
  ]
