-- ===== src/EventBus/Envelope.antt =====
-- event-bus-sdk/trustlist_event_bus/envelope.py: the event envelope, its dict form and its bytes. Python
-- does not check the annotated types of the fields that `from_dict` copies, so these hold any value.
pub mod RoundTrip
mod Examples
use trustlist_core.Base.{
  ℕ, String, Bool, true, false, not, ◌&&◌, Option, none, some, if◌then◌else◌, is_some, ◌==◌,
  String-eq,
}
use trustlist_core.Base.Json.{
  Json, null, text, array, object, Items, Fields, no_fields, field, find, is_truthy,
}
use trustlist_core.Base.Result.{Result, ok, err, ◌>>=◌, ◌>>◌, raise_if, or_raise}
use trustlist_core.EventBus.Errors.{BusError, value_error, key_error, type_error}
use trustlist_core.EventBus.Stdlib.{Moment, Library}

-- `ENVELOPE_VERSION`
abbrev pub envelope_version : String
envelope_version = "1.0.0"

pub record Provenance : Type 0 where
  pub source : Json
  pub method : Json
  pub contributor_identity : Json

pub record EventEnvelope : Type 0 where
  pub event_type : Json
  pub event_version : Json
  pub producer_id : Json
  pub idempotency_key : Json
  pub provenance : Provenance
  pub payload : Json
  pub trace_context : Fields
  pub event_id : ℕ
  pub produced_at : Moment

-- `data[key]`, for a text key
unfoldable pub subscript : Json → String → Result BusError Json
subscript (object fs) key = or_raise (find key fs) key_error
subscript _ key = err type_error

-- `data.get(key)` on a dict
unfoldable pub get_or_none : Fields → String → Json
get_or_none fs key = elim (find key fs) [ none ↦ null | some v ↦ v ]

-- `Provenance.to_dict`
unfoldable pub provenance_to_dict : Provenance → Json
provenance_to_dict p = object (
    field "source" p.source
      (field "method" p.method (field "contributor_identity" p.contributor_identity no_fields)))

-- the fields of a value on which `data[key]` has returned
unfoldable pub fields_of : Json → Fields
fields_of (object fs) = fs
fields_of _ = no_fields

-- `Provenance.from_dict`
unfoldable pub provenance_from_dict : Json → Result BusError Provenance
unfolding subscript get_or_none fields_of
provenance_from_dict d = do
  source ← subscript d "source"
  method ← subscript d "method"
  ok (record {
    source = source;
    method = method;
    contributor_identity = get_or_none (fields_of d) "contributor_identity";
  })

module _ (py : Library) where
  -- `EventEnvelope.to_dict`
  unfoldable pub to_dict : EventEnvelope → Json
  unfolding provenance_to_dict
  to_dict e = object (
      field "event_id" (text (py.uuid_text e.event_id)) (
        field "event_type" e.event_type (
          field "event_version" e.event_version (
            field "produced_at" (text (py.isoformat e.produced_at)) (
              field "producer_id" e.producer_id (
                field "trace_context" (object e.trace_context) (
                  field "idempotency_key" e.idempotency_key (
                    field "provenance" (provenance_to_dict e.provenance)
                      (field "payload" e.payload no_fields)))))))))

  -- `EventEnvelope.to_bytes`
  unfoldable pub to_bytes : EventEnvelope → py.Bytes
  unfolding to_dict
  to_bytes e = py.dumps (to_dict e)

  -- `dict(x)`
  unfoldable pub dict_of : Json → Result BusError Fields
  dict_of (object fs) = ok fs
  dict_of (array xs) = py.dict_of_list xs
  dict_of (text s) = if s == "" then ok no_fields else err value_error
  dict_of _ = err type_error

  -- `dict(x or {})`
  unfoldable pub dict_or_empty : Json → Result BusError Fields
  unfolding is_truthy dict_of
  dict_or_empty x = if is_truthy x then dict_of x else ok no_fields

  -- `EventEnvelope.from_dict`
  unfoldable pub from_dict : Json → Result BusError EventEnvelope
  unfolding subscript get_or_none fields_of dict_or_empty provenance_from_dict
  from_dict d = do
    event_id_text ← subscript d "event_id"
    event_id ← py.uuid_of event_id_text
    event_type ← subscript d "event_type"
    event_version ← subscript d "event_version"
    produced_at_text ← subscript d "produced_at"
    produced_at ← py.fromisoformat produced_at_text
    producer_id ← subscript d "producer_id"
    trace_context ← dict_or_empty (get_or_none (fields_of d) "trace_context")
    idempotency_key ← subscript d "idempotency_key"
    provenance_dict ← subscript d "provenance"
    provenance ← provenance_from_dict provenance_dict
    payload ← subscript d "payload"
    ok (record {
      event_type = event_type;
      event_version = event_version;
      producer_id = producer_id;
      idempotency_key = idempotency_key;
      provenance = provenance;
      payload = payload;
      trace_context = trace_context;
      event_id = event_id;
      produced_at = produced_at;
    })

  -- `EventEnvelope.from_bytes`
  unfoldable pub from_bytes : py.Bytes → Result BusError EventEnvelope
  unfolding from_dict
  from_bytes raw = do parsed ← py.loads raw; from_dict parsed

-- the test of `new_envelope`: a given moment must carry a time zone
unfoldable pub is_naive : Option Moment → Bool
is_naive none = false
is_naive (some moment) = not (is_some moment.offset)

-- `new_envelope`; `fresh_id` and `now` are what the default factories draw, and a missing trace
-- context counts as an empty one
unfoldable pub new_envelope :
    ℕ
    → Moment
    → Json
    → Json
    → Json
    → Json
    → Provenance
    → Option Fields
    → Json
    → Option ℕ
    → Option Moment
    → Result BusError EventEnvelope
unfolding is_naive
new_envelope fresh_id now event_type payload producer_id idempotency_key provenance trace_context
      event_version event_id produced_at =
    do
      raise_if (is_naive produced_at) value_error
      ok (record {
        event_type = event_type;
        event_version = event_version;
        producer_id = producer_id;
        idempotency_key = idempotency_key;
        provenance = provenance;
        payload = payload;
        trace_context = elim trace_context [ none ↦ no_fields | some fs ↦ fs ];
        event_id = elim event_id [ none ↦ fresh_id | some i ↦ i ];
        produced_at = elim produced_at [ none ↦ now | some moment ↦ moment ];
      })
