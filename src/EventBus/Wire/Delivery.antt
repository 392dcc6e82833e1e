-- ===== src/EventBus/Wire/Delivery.antt =====
-- From `produce` to `poll_once`: what a producer publishes, and what a consumer makes of it.
use trustlist_core.Base.{String, ◌≡◌, ◌≢◌, refl, sym, ap, subst, ◌∙◌, true, false, none, some, ◌∷◌}
use trustlist_core.Base.Json.{Json, text, object, Fields, has_distinct_keys}
use trustlist_core.Base.Result.{Result, ok, err}
use trustlist_core.EventBus.Errors.{BusError, type_error, is_event_bus_error}
use trustlist_core.EventBus.Stdlib.{Library, Reads}
use trustlist_core.EventBus.Dedup.{DedupStore}
use trustlist_core.EventBus.Envelope.{EventEnvelope, to_dict, to_bytes, from_bytes}
use trustlist_core.EventBus.Envelope.RoundTrip.{from_bytes-to_bytes, from_dict-not_object}
use trustlist_core.EventBus.SchemaRegistry.{Answer, Jsonschema, SchemaRegistry, validate}
use trustlist_core.EventBus.Producer.{Weather, Event, Producer, produce}
use trustlist_core.EventBus.Producer.Outcomes.{expected, newest, produce-ok}
use trustlist_core.EventBus.Consumer.{
  Message, handled, committed, Turn, Consumer, converted, decode_value, decode, poll_once,
}
use trustlist_core.EventBus.Consumer.Outcomes.{IsArrival, poll_once_lem}
use trustlist_core.EventBus.Wire.{hashable, validate_of, wire}

module _ (py : Library) {Validator : Type 0} (json : Jsonschema Validator Json)
    (answer : String → Answer)
    (odd : Json
      → Json
      → SchemaRegistry Validator
      → Result BusError (Unit {0}) × SchemaRegistry Validator)
    (d : DedupStore Json) where
  arrival :
      (w : Weather) (event : Event) (producer_id : String) (t : Turn py.Bytes EventEnvelope)
      (m : Message py.Bytes) (c : Consumer (wire py json answer odd) d)
      → Reads py
      → has_distinct_keys (to_dict py (expected w event producer_id)) ≡ true
      → t.polled ≡ some m
      → m.error ≡ none
      → m.value ≡ some (to_bytes py (expected w event producer_id))
      → (validate json answer event.event_type (object event.payload) c.registry).0 ≡ ok tt
      → IsArrival
          (wire py json answer odd)
          d
          t
          m
          (expected w event producer_id)
          (text event.idempotency_key)
          c
  unfolding decode decode_value converted validate_of hashable
  arrival w event producer_id t m c reads distinct polled no_error value valid = record {
    polled = polled;
    no_error = no_error;
    decoded = rw (value, from_bytes-to_bytes py reads (expected w event producer_id) distinct) refl;
    valid = valid;
    keyed = refl;
  }

  poll_once-new :
      (t : Turn py.Bytes EventEnvelope) (m : Message py.Bytes) (e : EventEnvelope) (k : Json)
      (c : Consumer (wire py json answer odd) d)
      → IsArrival (wire py json answer odd) d t m e k c
      → (d.seen k c.store).0 ≡ false
      → t.handler_raises e ≡ false
      → t.commit_fails ≡ false
      → ((poll_once (wire py json answer odd) d t c).0 ≡ ok (some e))
        × ((poll_once (wire py json answer odd) d t c).1.effects
            ≡ committed m ∷ handled e ∷ c.effects)
  poll_once-new t m e k c a new returns accepts =
      rw (poll_once_lem (wire py json answer odd) d t m e k c a, new, returns, accepts) (refl, refl)

  -- From end to end: when `produce` returns an envelope, and a consumer polls a message with the value
  -- that was published, then the consumer's handler gets that same envelope, `poll_once` returns it,
  -- and the offset is committed after the handling. The consumer's registry has to accept the event,
  -- its key must be new, the handler return and the broker accept the commit.
  pub produce-poll_once :
      (w : Weather) (event : Event) (p : Producer py json answer) (e : EventEnvelope)
      (t : Turn py.Bytes EventEnvelope) (m : Message py.Bytes)
      (c : Consumer (wire py json answer odd) d)
      → Reads py
      → (produce py json answer w event p).0 ≡ ok e
      → has_distinct_keys (to_dict py e) ≡ true
      → t.polled ≡ some m
      → m.error ≡ none
      → m.value ≡ newest (produce py json answer w event p).1.calls
      → (validate json answer event.event_type (object event.payload) c.registry).0 ≡ ok tt
      → (d.seen (text event.idempotency_key) c.store).0 ≡ false
      → t.handler_raises e ≡ false
      → t.commit_fails ≡ false
      → ((poll_once (wire py json answer odd) d t c).0 ≡ ok (some e))
        × ((poll_once (wire py json answer odd) d t c).1.effects
            ≡ committed m ∷ handled e ∷ c.effects)
  produce-poll_once w event p e t m c reads produced distinct polled no_error value valid new
        returns accepts =
      let (same, published) = produce-ok py json answer w event p e produced in
      poll_once-new t m e (text event.idempotency_key) c
        (subst (λ e. IsArrival (wire py json answer odd) d t m e (text event.idempotency_key) c)
          same
          (arrival w event p.producer_id t m c reads
            (ap (λ e. has_distinct_keys (to_dict py e)) same ∙ distinct) polled no_error
            (value ∙ published ∙ ap (λ e. some (to_bytes py e)) (sym same)) valid))
        new returns accepts

  -- A message whose bytes are JSON but no dict is not turned into an EventBusError by the decoder: it
  -- raises TypeError, which is none.
  pub decode-not_object :
      (m : Message py.Bytes) (raw : py.Bytes) (j : Json)
      → m.value ≡ some raw
      → py.loads raw ≡ ok j
      → ((fs : Fields) → j ≢ object fs)
      → (decode (wire py json answer odd) d m ≡ err type_error)
        × (is_event_bus_error type_error ≡ false)
  unfolding decode decode_value converted from_bytes is_event_bus_error
  decode-not_object m raw j value loaded other =
      (rw (value, loaded, from_dict-not_object py j other) refl, refl)
