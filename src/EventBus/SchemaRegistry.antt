-- ===== src/EventBus/SchemaRegistry.antt =====
-- event-bus-sdk/trustlist_event_bus/schema_registry.py: the class `SchemaRegistry` with its cache of
-- validators. The registry's answers, `json.loads` with the compilation of a schema, and the judgement
-- of a payload are arguments; `register` only calls the registry's client and is not modelled.
pub mod Cache
mod Examples
use Prim.Native.String.{◌++◌}
use trustlist_core.Base.{String, Bool, ◌≡◌, Option, none, some, if◌then◌else◌, String-eq}
use trustlist_core.Base.Dict.{Dict, lookup, insert}
use trustlist_core.Base.Result.{Result, ok, err}
use trustlist_core.Base.Action.{Action, pure, raise, ◌>>=◌}
use trustlist_core.EventBus.Errors.{BusError, schema_registry_error, schema_validation_error}

-- What `SchemaRegistryClient.get_latest_version` does: raise, or return a schema with or without a text.
pub data Answer : Type 0 where
  refused empty_body : Answer
  body : String → Answer

-- jsonschema and json: `Draft202012Validator(json.loads(text))`, and whether a validator accepts
pub record Jsonschema (Validator Payload : Type 0) : Type 0 where
  pub compiled : String → Result BusError Validator
  pub conforms : Validator → Payload → Bool

pub record SchemaRegistry (Validator : Type 0) : Type 0 where
  pub validator_cache : Dict String Validator

-- `subject_for`
unfoldable pub subject_for : String → String
subject_for event_type = event_type ++ "-value"

module _ {Validator Payload : Type 0} (json : Jsonschema Validator Payload) where
  -- the end of `_validator`: a validator that compiled goes into the cache
  unfoldable pub remembered :
      String → Result BusError Validator → Action BusError (SchemaRegistry Validator) Validator
  remembered event_type (err raised) s = (err raised, s)
  remembered event_type (ok validator) s =
      (ok validator, record s { validator_cache = insert event_type validator s.validator_cache })

  -- `_validator`, after the registry has answered
  unfoldable pub fetched : String → Answer → Action BusError (SchemaRegistry Validator) Validator
  unfolding remembered
  fetched event_type refused = raise schema_registry_error
  fetched event_type empty_body = raise schema_registry_error
  fetched event_type (body text) = remembered event_type (json.compiled text)

  -- `_validator`, by the cache entry
  unfoldable pub cached_or_fetched :
      (String → Answer)
      → String
      → Option Validator
      → Action BusError (SchemaRegistry Validator) Validator
  unfolding fetched subject_for
  cached_or_fetched answer event_type (some validator) = pure validator
  cached_or_fetched answer event_type none = fetched event_type (answer (subject_for event_type))

  -- `_validator`
  unfoldable pub validator_of :
      (String → Answer) → String → Action BusError (SchemaRegistry Validator) Validator
  unfolding cached_or_fetched
  validator_of answer event_type s =
      cached_or_fetched answer event_type (lookup event_type s.validator_cache) s

  -- the `try` of `validate`
  unfoldable pub judged :
      Payload → Validator → Action BusError (SchemaRegistry Validator) (Unit {0})
  judged payload validator =
      if json.conforms validator payload then pure tt else raise schema_validation_error

  -- `validate`
  unfoldable pub validate :
      (String → Answer) → String → Payload → Action BusError (SchemaRegistry Validator) (Unit {0})
  unfolding validator_of judged
  validate answer event_type payload = do
    validator ← validator_of answer event_type
    judged payload validator
