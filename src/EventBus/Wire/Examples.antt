-- ===== src/EventBus/Wire/Examples.antt =====
-- An event from a producer to a consumer over the tally library.
use trustlist_core.Base.{String, ◌≡◌, refl, true, false, none, some, [], ◌∷◌, String-eq}
use trustlist_core.Base.Json.{Json, null, object, no_fields, find, has_distinct_keys}
use trustlist_core.Base.Dict.{lookup}
use trustlist_core.Base.Result.{Result, ok, err}
use trustlist_core.EventBus.Errors.{BusError, type_error, is_event_bus_error}
use trustlist_core.EventBus.Samples.{tally_library, tally_library-Reads, crawl, noon, body}
use trustlist_core.EventBus.Dedup.{DedupStore}
use trustlist_core.EventBus.Envelope.{
  EventEnvelope, to_dict, to_bytes, new_envelope, is_naive, provenance_to_dict,
}
use trustlist_core.EventBus.SchemaRegistry.{
  Answer, body as schema, Jsonschema, SchemaRegistry, validate, validator_of, cached_or_fetched,
  fetched, remembered, judged,
}
use trustlist_core.EventBus.Producer.{
  Weather, accepted, Event, or_default, Producer, check_payload, envelope_of, send, drain, produce,
}
use trustlist_core.EventBus.Producer.Outcomes.{expected, ended, verdict, newest, produce_lem}
use trustlist_core.EventBus.Consumer.{
  Message, handled, committed, Turn, Consumer, decode, poll_once,
}
use trustlist_core.EventBus.Wire.{wire}
use trustlist_core.EventBus.Wire.Delivery.{produce-poll_once, decode-not_object}

-- A schema that every payload conforms to.
abbrev lax : Jsonschema String Json
lax = record { compiled = λ schema. ok schema; conforms = λ validator payload. true }

abbrev answers : String → Answer
answers subject = schema "{}"

abbrev others :
    Json → Json → SchemaRegistry String → Result BusError (Unit {0}) × SchemaRegistry String
others event_type payload registry = (err type_error, registry)

-- A store that holds no key.
abbrev forgetful : DedupStore Json
forgetful = record { Store = Unit {0}; seen = λ k s. (false, s); remember = λ k s. s }

abbrev calm : Weather
calm = record { outcome = accepted; trace_context = no_fields; fresh_id = 4; now = noon }

abbrev event : Event
event = record {
  topic = "signals";
  payload = body;
  event_type = "signals.observed";
  idempotency_key = "k1";
  provenance = crawl;
  partition_key = some "d1";
  event_version = none;
  flush = true;
}

abbrev producer : Producer tally_library lax answers
producer = record {
  producer_id = "collector";
  registry = record { validator_cache = [] };
  calls = [];
}

abbrev sent : EventEnvelope
sent = expected calm event "collector"

abbrev message : Message Json
message = record { offset = 0; error = none; value = some (to_bytes tally_library sent) }

abbrev turn : Turn Json EventEnvelope
turn = record { polled = some message; handler_raises = λ e. false; commit_fails = false }

abbrev consumer : Consumer (wire tally_library lax answers others) forgetful
consumer = record { registry = record { validator_cache = [] }; store = tt; effects = [] }

returned : (produce tally_library lax answers calm event producer).0 ≡ ok sent
unfolding produce check_payload envelope_of new_envelope is_naive send drain validate validator_of
    cached_or_fetched fetched remembered judged lookup
returned = refl

distinct : has_distinct_keys (to_dict tally_library sent) ≡ true
unfolding has_distinct_keys to_dict provenance_to_dict find or_default
distinct = refl

published_last :
    message.value ≡ newest (produce tally_library lax answers calm event producer).1.calls
unfolding produce check_payload envelope_of new_envelope is_naive send drain validate validator_of
    cached_or_fetched fetched remembered judged lookup
published_last = refl

accepts : (validate lax answers "signals.observed" (object body) consumer.registry).0 ≡ ok tt
unfolding validate validator_of cached_or_fetched fetched remembered judged lookup
accepts = refl

produce_lem_example :
    produce tally_library lax answers calm event producer
    ≡ ended tally_library lax answers calm event producer
        (verdict tally_library lax answers calm event producer).0
        none
produce_lem_example = produce_lem tally_library lax answers calm event producer

produce-poll_once_example :
    ((poll_once (wire tally_library lax answers others) forgetful turn consumer).0 ≡ ok (some sent))
    × ((poll_once (wire tally_library lax answers others) forgetful turn consumer).1.effects
        ≡ committed message ∷ handled sent ∷ [])
produce-poll_once_example =
    produce-poll_once tally_library lax answers others forgetful calm event producer sent turn
      message consumer tally_library-Reads returned distinct refl refl published_last accepts refl
      refl refl

abbrev null_message : Message Json
null_message = record { offset = 1; error = none; value = some null }

decode-not_object_example :
    (decode (wire tally_library lax answers others) forgetful null_message ≡ err type_error)
    × (is_event_bus_error type_error ≡ false)
decode-not_object_example =
    decode-not_object tally_library lax answers others forgetful null_message null null refl refl
      (λ fs same. cc)
