-- ===== src/EventBus/Wire.antt =====
-- event-bus-sdk/trustlist_event_bus: the consumer over the envelope and the schema registry of the
-- same package, as its constructor puts them together. An `event_type` that is not text, which the
-- annotations exclude, is left to an argument.
pub mod Delivery
mod Examples
use trustlist_core.Base.{String}
use trustlist_core.Base.Json.{Json, null, bool, integer, negative, float, text, array, object}
use trustlist_core.Base.Result.{Result, ok, err}
use trustlist_core.EventBus.Errors.{BusError, type_error}
use trustlist_core.EventBus.Stdlib.{Library}
use trustlist_core.EventBus.Envelope.{EventEnvelope, from_bytes}
use trustlist_core.EventBus.SchemaRegistry.{Answer, Jsonschema, SchemaRegistry, validate}
use trustlist_core.EventBus.Consumer.{Interfaces}

-- a value as a key of a dict or a set, which a list or a dict cannot be
unfoldable pub hashable : Json → Result BusError Json
hashable (array xs) = err type_error
hashable (object fs) = err type_error
hashable j = ok j

module _ (py : Library) {Validator : Type 0} (json : Jsonschema Validator Json)
    (answer : String → Answer)
    (odd : Json
      → Json
      → SchemaRegistry Validator
      → Result BusError (Unit {0}) × SchemaRegistry Validator) where
  -- `self._registry.validate(envelope.event_type, envelope.payload)`
  unfoldable pub validate_of :
      Json → Json → SchemaRegistry Validator → Result BusError (Unit {0}) × SchemaRegistry Validator
  validate_of (text event_type) payload registry = validate json answer event_type payload registry
  validate_of other payload registry = odd other payload registry

  abbrev pub wire : Interfaces py.Bytes EventEnvelope (SchemaRegistry Validator) Json
  wire = record {
    from_bytes = from_bytes py;
    idempotency_key = λ e. hashable e.idempotency_key;
    validate = λ e registry. validate_of e.event_type e.payload registry;
  }
