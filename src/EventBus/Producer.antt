-- ===== src/EventBus/Producer.antt =====
-- event-bus-sdk/trustlist_event_bus/producer.py: the class `EventProducer`. What confluent_kafka's
-- producer, the tracer, the clock and the source of ids do in one call is a `Weather`; the calls that
-- confluent_kafka sees and accepts are a list, the newest first. A key stands for its UTF-8 bytes.
pub mod Outcomes
use trustlist_core.Base.{
  ℕ, String, Bool, not, Option, none, some, List, [], ◌∷◌, ◌==◌, String-eq, if◌then◌else◌,
}
use trustlist_core.Base.Json.{Json, text, object, Fields, no_fields}
use trustlist_core.Base.Result.{Result, ok, err}
use trustlist_core.Base.Action.{Action, pure, raise, lift, modify, ◌>>=◌, ◌>>◌}
use trustlist_core.EventBus.Errors.{BusError, back_pressure_error, produce_error}
use trustlist_core.EventBus.Stdlib.{Moment, Library}
use trustlist_core.EventBus.Envelope.{Provenance, EventEnvelope, to_bytes, new_envelope}
use trustlist_core.EventBus.SchemaRegistry.{Answer, Jsonschema, SchemaRegistry, validate}

-- What confluent_kafka's `produce` does: return, raise BufferError, or raise a KafkaException, whose
-- text names _QUEUE_FULL or not.
pub data Outcome : Type 0 where
  accepted buffer_error queue_full_error kafka_error : Outcome

pub record Weather : Type 0 where
  pub outcome : Outcome
  -- what `inject_trace_context()` returns
  pub trace_context : Fields
  -- what the default factories of the envelope draw
  pub fresh_id : ℕ
  pub now : Moment

-- An accepted `produce`, with its topic, key and value, a `flush` and a `poll(0)`.
pub data Call (Bytes : Type 0) : Type 0 where
  published : String → Option String → Bytes → Call Bytes
  flushed polled : Call Bytes

-- the arguments of `produce`
pub record Event : Type 0 where
  pub topic : String
  pub payload : Fields
  pub event_type : String
  pub idempotency_key : String
  pub provenance : Provenance
  pub partition_key : Option String
  pub event_version : Option String
  pub flush : Bool

-- `x or default`, for a text or None
unfoldable pub or_default : Option String → String → String
or_default none default = default
or_default (some s) default = if s == "" then default else s

-- `partition_key.encode("utf-8") if partition_key else None`
unfoldable pub key_of : Option String → Option String
key_of none = none
key_of (some s) = if s == "" then none else some s

module _ (py : Library) {Validator : Type 0} (json : Jsonschema Validator Json)
    (answer : String → Answer) where
  pub record Producer : Type 0 where
    pub producer_id : String
    pub registry : SchemaRegistry Validator
    pub calls : List (Call py.Bytes)

  -- `self._registry.validate(event_type, payload)`
  unfoldable pub check_payload : Event → Action BusError Producer (Unit {0})
  check_payload event p =
      let (r, registry) = validate json answer event.event_type (object event.payload) p.registry in
      (r, record p { registry = registry })

  -- the call of `new_envelope`
  unfoldable pub envelope_of : Weather → Event → Producer → Result BusError EventEnvelope
  unfolding or_default
  envelope_of w event p =
      new_envelope w.fresh_id w.now (text event.event_type) (object event.payload)
        (text p.producer_id) (text event.idempotency_key) event.provenance (some w.trace_context)
        (text (or_default event.event_version "1.0.0")) none none

  -- the `try` around confluent_kafka's `produce`
  unfoldable pub send : Outcome → Event → EventEnvelope → Action BusError Producer (Unit {0})
  unfolding key_of
  send accepted event e = modify (λ p. record p {
    calls = published event.topic (key_of event.partition_key) (to_bytes py e) ∷ p.calls;
  })
  send buffer_error event e = raise back_pressure_error
  send queue_full_error event e = raise back_pressure_error
  send kafka_error event e = raise produce_error

  -- the end of `produce`
  unfoldable pub drain : Bool → Action BusError Producer (Unit {0})
  drain flush = modify (λ p. record p { calls = (if flush then flushed else polled) ∷ p.calls })

  -- `produce`
  unfoldable pub produce : Weather → Event → Action BusError Producer EventEnvelope
  unfolding check_payload envelope_of send drain
  produce w event = do
    check_payload event
    envelope ← λ p. (envelope_of w event p, p)
    send w.outcome event envelope
    drain event.flush
    pure envelope

  -- `close`, which also ends a `with` block; `flush` calls the same
  unfoldable pub close : Action BusError Producer (Unit {0})
  close = modify (λ p. record p { calls = flushed ∷ p.calls })
