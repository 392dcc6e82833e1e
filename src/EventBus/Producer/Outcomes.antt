-- ===== src/EventBus/Producer/Outcomes.antt =====
-- What `produce` publishes, and when.
use trustlist_core.Base.{
  String, ◌≡◌, refl, sym, ap, ◌∙◌, Bool, true, false, Option, none, some, List, [], ◌∷◌,
  if◌then◌else◌,
}
use trustlist_core.Base.Json.{Json, text, object}
use trustlist_core.Base.Result.{Result, ok, err, ok_injective}
use trustlist_core.EventBus.Errors.{BusError, back_pressure_error, produce_error}
use trustlist_core.EventBus.Stdlib.{Library}
use trustlist_core.EventBus.Envelope.{EventEnvelope, to_bytes, new_envelope, is_naive}
use trustlist_core.EventBus.SchemaRegistry.{Answer, Jsonschema, SchemaRegistry, validate}
use trustlist_core.EventBus.Producer.{
  Outcome, accepted, buffer_error, queue_full_error, kafka_error, Weather, Call, published, flushed,
  polled, Event, or_default, key_of, Producer, check_payload, envelope_of, send, drain, produce,
}

-- The envelope that an event becomes.
abbrev pub expected : Weather → Event → String → EventEnvelope
expected w event producer_id = record {
  event_type = text event.event_type;
  event_version = text (or_default event.event_version "1.0.0");
  producer_id = text producer_id;
  idempotency_key = text event.idempotency_key;
  provenance = event.provenance;
  payload = object event.payload;
  trace_context = w.trace_context;
  event_id = w.fresh_id;
  produced_at = w.now;
}

-- The error of a call that confluent_kafka refused.
abbrev pub refusal : Outcome → Option BusError
refusal accepted = none
refusal buffer_error = some back_pressure_error
refusal queue_full_error = some back_pressure_error
refusal kafka_error = some produce_error

-- The value that was published last.
abbrev pub newest : {Bytes : Type 0} → List (Call Bytes) → Option Bytes
newest [] = none
newest (published topic key value ∷ calls) = some value
newest (flushed ∷ calls) = newest calls
newest (polled ∷ calls) = newest calls

module _ (py : Library) {Validator : Type 0} (json : Jsonschema Validator Json)
    (answer : String → Answer) (w : Weather) (event : Event) (p : Producer py json answer) where
  -- The verdict of the registry on the event.
  abbrev pub verdict : Result BusError (Unit {0}) × SchemaRegistry Validator
  verdict = validate json answer event.event_type (object event.payload) p.registry

  -- The calls that confluent_kafka has accepted after the event is published.
  abbrev pub calls_after : List (Call py.Bytes)
  calls_after =
      (if event.flush then flushed else polled)
      ∷ published event.topic (key_of event.partition_key)
          (to_bytes py (expected w event p.producer_id))
      ∷ p.calls

  -- The end of `produce`, by the verdict of the registry and the error of confluent_kafka: on an error
  -- of either, no call is added.
  abbrev pub ended :
      Result BusError (Unit {0})
      → Option BusError
      → Result BusError EventEnvelope × Producer py json answer
  ended (err rejected) refused = (err rejected, record p { registry = verdict.1 })
  ended (ok done) (some refused) = (err refused, record p { registry = verdict.1 })
  ended (ok done) none =
      (ok (expected w event p.producer_id), record p { registry = verdict.1; calls = calls_after })

  produce-by :
      (r : Result BusError (Unit {0})) (o : Outcome)
      → verdict.0 ≡ r
      → w.outcome ≡ o
      → produce py json answer w event p ≡ ended r (refusal o)
  unfolding produce check_payload envelope_of new_envelope is_naive send drain
  produce-by (err rejected) o judged weather = rw judged refl
  produce-by (ok done) accepted judged weather = rw (judged, weather) refl
  produce-by (ok done) buffer_error judged weather = rw (judged, weather) refl
  produce-by (ok done) queue_full_error judged weather = rw (judged, weather) refl
  produce-by (ok done) kafka_error judged weather = rw (judged, weather) refl

  -- What `produce` does. If the registry rejects the payload, it raises that error; if confluent_kafka
  -- refuses the message, it raises BackPressureError for a full queue, of either form, and
  -- ProduceError for all else; in both cases nothing is published, flushed or polled. If not, it
  -- publishes exactly one message, with the bytes of the envelope that it returns and the key, under
  -- the topic; then it flushes or polls, as asked. The envelope has the fields of the call.
  pub produce_lem : produce py json answer w event p ≡ ended verdict.0 (refusal w.outcome)
  produce_lem = produce-by verdict.0 w.outcome refl refl

  ended-ok :
      (r : Result BusError (Unit {0})) (refused : Option BusError) (e : EventEnvelope)
      → (ended r refused).0 ≡ ok e
      → (expected w event p.producer_id ≡ e) × ((ended r refused).1.calls ≡ calls_after)
  ended-ok (err rejected) refused e returned = cc
  ended-ok (ok done) (some refused) e returned = cc
  ended-ok (ok done) none e returned = (ok_injective returned, refl)

  newest-after :
      (flush : Bool)
      → newest {Bytes = py.Bytes} (
          (if flush then flushed else polled)
          ∷ published event.topic
              (key_of event.partition_key)
              (to_bytes py (expected w event p.producer_id))
          ∷ p.calls)
        ≡ some (to_bytes py (expected w event p.producer_id))
  newest-after true = refl
  newest-after false = refl

  -- A `produce` that returns has returned the envelope of the event, and its bytes are the newest
  -- published value.
  pub produce-ok :
      (e : EventEnvelope)
      → (produce py json answer w event p).0 ≡ ok e
      → (expected w event p.producer_id ≡ e)
        × (newest (produce py json answer w event p).1.calls ≡ some (to_bytes py e))
  produce-ok e returned =
      let (same, after) =
        ended-ok verdict.0 (refusal w.outcome) e (ap (λ x. x.0) (sym produce_lem) ∙ returned) in
      (
        same,
        ap (λ x. newest x.1.calls) produce_lem
            ∙ ap newest after
            ∙ newest-after event.flush
            ∙ ap (λ e. some (to_bytes py e)) same,
      )
