-- ===== src/EventBus/Consumer.antt =====
-- event-bus-sdk/trustlist_event_bus/consumer.py: the class `EventConsumer`. The decoder of envelopes, the
-- schema registry and the store of keys are interfaces here. What a broker and a handler do in one
-- round of `run` is a `Turn`; the effects that the world sees are a list, the newest first.
pub mod AtLeastOnce
pub mod Outcomes
pub mod Once
mod Examples
use trustlist_core.Base.{
  ℕ, suc, Bool, true, false, not, Option, none, some, List, [], ◌∷◌, if◌then◌else◌, is_some, ltb,
}
use trustlist_core.Base.Result.{Result, ok, err}
use trustlist_core.Base.Action.{Action, pure, raise, lift, ◌>>=◌, ◌>>◌}
use trustlist_core.EventBus.Errors.{
  BusError, event_bus_error, value_error, key_error, handler_error,
}
use trustlist_core.EventBus.Dedup.{DedupStore}

pub data PollError : Type 0 where
  partition_eof other_error : PollError

-- confluent_kafka's `Message`: `error()` and `value()`
pub record Message (Bytes : Type 0) : Type 0 where
  pub offset : ℕ
  pub error : Option PollError
  pub value : Option Bytes

-- `EventEnvelope.from_bytes`, its field `idempotency_key` as a key of the store, which an unhashable
-- value is not, and `SchemaRegistry.validate` on an
-- envelope's type and payload, which may fill the registry's cache
pub record Interfaces (Bytes Envelope Registry Key : Type 0) : Type 0 where
  pub from_bytes : Bytes → Result BusError Envelope
  pub idempotency_key : Envelope → Result BusError Key
  pub validate : Envelope → Registry → Result BusError (Unit {0}) × Registry

pub data Effect (Bytes Envelope : Type 0) : Type 0 where
  -- the handler returned
  handled : Envelope → Effect Bytes Envelope
  -- the broker accepted the commit of the message's offset
  committed : Message Bytes → Effect Bytes Envelope

-- One poll: its answer, whether the handler raises, and whether the broker refuses a commit.
pub record Turn (Bytes Envelope : Type 0) : Type 0 where
  pub polled : Option (Message Bytes)
  pub handler_raises : Envelope → Bool
  pub commit_fails : Bool

-- the clauses of the `try` in `_decode`
unfoldable pub converted : {A : Type 0} → Result BusError A → Result BusError A
converted (ok a) = ok a
converted (err value_error) = err event_bus_error
converted (err key_error) = err event_bus_error
converted (err e) = err e

-- the test at the head of the loop in `run`
unfoldable pub reached : Option ℕ → ℕ → Bool
reached none processed = false
reached (some max_events) processed = not (ltb processed max_events)

module _ {Bytes Envelope Registry Key : Type 0} (io : Interfaces Bytes Envelope Registry Key)
    (d : DedupStore Key) where
  pub record Consumer : Type 0 where
    pub registry : Registry
    pub store : d.Store
    pub effects : List (Effect Bytes Envelope)

  unfoldable pub decode_value : Option Bytes → Result BusError Envelope
  unfolding converted
  decode_value none = err event_bus_error
  decode_value (some raw) = converted (io.from_bytes raw)

  -- `_decode`
  unfoldable pub decode : Message Bytes → Result BusError Envelope
  unfolding decode_value
  decode message = decode_value message.value

  -- `_commit`
  unfoldable pub commit : Turn Bytes Envelope → Message Bytes → Action BusError Consumer (Unit {0})
  commit t message c =
      if t.commit_fails
      then (err event_bus_error, c)
      else (ok tt, record c { effects = Effect.committed message ∷ c.effects })

  unfoldable pub validate : Envelope → Action BusError Consumer (Unit {0})
  validate envelope c =
      let (r, registry) = io.validate envelope c.registry in (r, record c { registry = registry })

  -- `self._dedup.seen(key)`
  unfoldable pub is_duplicate : Key → Action BusError Consumer Bool
  is_duplicate key c =
      let (known, store) = d.seen key c.store in (ok known, record c { store = store })

  -- `handler(envelope)`
  unfoldable pub run_handler : Turn Bytes Envelope → Envelope → Action BusError Consumer (Unit {0})
  run_handler t envelope c =
      if t.handler_raises envelope
      then (err handler_error, c)
      else (ok tt, record c { effects = Effect.handled envelope ∷ c.effects })

  -- `self._dedup.record(key)`
  unfoldable pub record_key : Key → Action BusError Consumer (Unit {0})
  record_key key c = (ok tt, record c { store = d.remember key c.store })

  -- the end of `poll_once`, after the look-up of the envelope's key
  unfoldable pub finish :
      Turn Bytes Envelope
      → Message Bytes
      → Envelope
      → Key
      → Bool
      → Action BusError Consumer (Option Envelope)
  unfolding commit run_handler record_key
  finish t message envelope key true = do commit t message; pure (some envelope)
  finish t message envelope key false = do
    run_handler t envelope
    record_key key
    commit t message
    pure (some envelope)

  -- `poll_once`, from the test of `message.error()` on
  unfoldable pub consume :
      Turn Bytes Envelope
      → Message Bytes
      → Option PollError
      → Action BusError Consumer (Option Envelope)
  unfolding decode validate is_duplicate finish
  consume t message (some partition_eof) = pure none
  consume t message (some other_error) = raise event_bus_error
  consume t message none = do
    envelope ← lift (decode message)
    validate envelope
    key ← lift (io.idempotency_key envelope)
    duplicate ← is_duplicate key
    finish t message envelope key duplicate

  unfoldable pub poll_answer :
      Turn Bytes Envelope → Option (Message Bytes) → Action BusError Consumer (Option Envelope)
  unfolding consume
  poll_answer t none = pure none
  poll_answer t (some message) = consume t message message.error

  -- `poll_once`
  unfoldable pub poll_once : Turn Bytes Envelope → Action BusError Consumer (Option Envelope)
  unfolding poll_answer
  poll_once t = poll_answer t t.polled

  -- the loop of `run`; `close` from another thread is seen when the turns are used up
  unfoldable pub run : Option ℕ → ℕ → List (Turn Bytes Envelope) → Action BusError Consumer ℕ
  unfolding poll_once
  run max_events processed [] = pure processed
  run max_events processed (t ∷ turns) = if reached max_events processed then pure processed else do
    envelope ← poll_once t
    run max_events (if is_some envelope then suc processed else processed) turns
