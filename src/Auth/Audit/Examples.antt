-- ===== src/Auth/Audit/Examples.antt =====
-- The theorems of this directory at a request whose details hold a forbidden key.
use trustlist_core.Auth.Samples.{all_readable}
use trustlist_core.Base.{◌≡◌, none, some, [], ◌∷◌, if◌then◌else◌}
use trustlist_core.Base.Result.{ok, err}
use trustlist_core.Auth.Errors.{value_error, integrity_error, data_error}
use trustlist_core.Auth.Rbac.Model.{operator}
use trustlist_core.Auth.Database.{login_failure, text}
use trustlist_core.Auth.Audit.{
  Journal, Request, recording_sink, emit, event_of, is_forbidden, record_event,
}
use trustlist_core.Auth.Audit.Trail.{is_readable, insertable, record_event_lem}

abbrev empty_journal : Journal
empty_journal = record {
  database = record {
    types = all_readable;
    accounts = record { user_id = 1; archetype = operator } ∷ [];
    assignments = [];
    audit_events = [];
  };
  sink = recording_sink [];
}

abbrev leaking : Request
leaking = record {
  event_type = login_failure;
  user_id = some 1;
  ip_address_observed = none;
  user_agent_observed = none;
  event_details = ("email", text "ada@example.org") ∷ ("password", text "correct horse") ∷ [];
  occurred_at = none;
}

record_event_lem_example : record_event (λ s. s) 10 90 leaking empty_journal ≡ (
    if is_forbidden (λ s. s) leaking.event_details
    then (err value_error, empty_journal)
    else if insertable (event_of 10 90 leaking) empty_journal.database
    then (
      ok (event_of 10 90 leaking),
      record {
        database = record empty_journal.database {
          audit_events = event_of 10 90 leaking ∷ empty_journal.database.audit_events;
        };
        sink = emit (event_of 10 90 leaking) empty_journal.sink;
      },
    )
    else (
      err (
          if is_readable (event_of 10 90 leaking) all_readable
          then integrity_error
          else data_error),
      empty_journal,
    ))
record_event_lem_example = record_event_lem (λ s. s) 10 90 leaking empty_journal
