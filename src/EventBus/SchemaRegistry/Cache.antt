-- ===== src/EventBus/SchemaRegistry/Cache.antt =====
-- What the cache of validators does: a schema is fetched once, and a failure leaves nothing behind.
use trustlist_core.Base.{
  String, ◌≡◌, ◌≢◌, refl, Option, none, some, arith, ==_iff, String-eq, if◌then◌else◌,
}
use trustlist_core.Base.Dict.{lookup, lookup-insert, lookup-insert_self}
use trustlist_core.Base.Result.{Result, ok, err}
use trustlist_core.Base.Action.{continue_inv}
use trustlist_core.EventBus.Errors.{BusError, schema_validation_error}
use trustlist_core.EventBus.SchemaRegistry.{
  Answer, refused, empty_body, body, Jsonschema, SchemaRegistry, subject_for, remembered, fetched,
  cached_or_fetched, validator_of, judged, validate,
}

module _ {Validator Payload : Type 0} (json : Jsonschema Validator Payload)
    (event_type : String) where
  -- What a validator says of a payload.
  abbrev pub judgement : Validator → Payload → Result BusError (Unit {0})
  judgement validator payload =
      if json.conforms validator payload then ok tt else err schema_validation_error

  -- With a cached validator the registry is not asked: its answer does not matter, the cached
  -- validator judges the payload, and the cache stays as it is.
  pub validate-cached :
      (answer : String → Answer) (payload : Payload) (s : SchemaRegistry Validator)
      (validator : Validator)
      → lookup event_type s.validator_cache ≡ some validator
      → validate json answer event_type payload s ≡ (judgement validator payload, s)
  unfolding validate validator_of cached_or_fetched judged
  validate-cached answer payload s validator found = rw found (ground arith)

  remembered-cached :
      (r : Result BusError Validator) (s : SchemaRegistry Validator) (validator : Validator)
      → (remembered json event_type r s).0 ≡ ok validator
      → lookup event_type (remembered json event_type r s).1.validator_cache ≡ some validator
  unfolding remembered
  remembered-cached (err raised) s validator e = cc
  remembered-cached (ok compiled) s validator e =
      ground (arith, lookup-insert_self event_type compiled s.validator_cache, e)

  fetched-cached :
      (a : Answer) (s : SchemaRegistry Validator) (validator : Validator)
      → (fetched json event_type a s).0 ≡ ok validator
      → lookup event_type (fetched json event_type a s).1.validator_cache ≡ some validator
  unfolding fetched
  fetched-cached refused s validator e = cc
  fetched-cached empty_body s validator e = cc
  fetched-cached (body text) s validator e = remembered-cached (json.compiled text) s validator e

  validator_of-cached :
      (answer : String → Answer) (s : SchemaRegistry Validator) (validator : Validator)
      → (validator_of json answer event_type s).0 ≡ ok validator
      → lookup event_type (validator_of json answer event_type s).1.validator_cache ≡ some validator
  unfolding validator_of
  validator_of-cached answer s validator e = go (lookup event_type s.validator_cache) refl e
    where
      go :
          (o : Option Validator)
          → lookup event_type s.validator_cache ≡ o
          → (cached_or_fetched json answer event_type o s).0 ≡ ok validator
          → lookup event_type (cached_or_fetched json answer event_type o s).1.validator_cache
            ≡ some validator
      go (some v) found e' = unfold cached_or_fetched in ground (arith, found, e')
      go none missing e' =
          unfold cached_or_fetched in
          fetched-cached (answer (subject_for event_type)) s validator e'

  -- Once a validator was obtained for an event type, every later `validate` of that type judges by
  -- the same validator, whatever the registry answers then, and leaves the cache as it is.
  pub validator_of-validate :
      (answer later : String → Answer) (payload : Payload) (s : SchemaRegistry Validator)
      (validator : Validator)
      → (validator_of json answer event_type s).0 ≡ ok validator
      → validate json later event_type payload (validator_of json answer event_type s).1
        ≡ (judgement validator payload, (validator_of json answer event_type s).1)
  validator_of-validate answer later payload s validator e =
      validate-cached later payload _ validator (validator_of-cached answer s validator e)

  -- `other` has the entry `o`.
  abbrev HasEntry : String → Option Validator → SchemaRegistry Validator → Type 0
  HasEntry other o s = lookup other s.validator_cache ≡ o

  remembered-others :
      (other : String) (o : Option Validator) (r : Result BusError Validator)
      (s : SchemaRegistry Validator)
      → event_type ≢ other
      → HasEntry other o s
      → HasEntry other o (remembered json event_type r s).1
  unfolding remembered
  remembered-others other o (err raised) s differs h = h
  remembered-others other o (ok compiled) s differs h =
      ground
        (arith, lookup-insert event_type other compiled s.validator_cache, ==_iff event_type other)

  cached_or_fetched-others :
      (answer : String → Answer) (other : String) (o entry : Option Validator)
      (s : SchemaRegistry Validator)
      → event_type ≢ other
      → HasEntry other o s
      → HasEntry other o (cached_or_fetched json answer event_type entry s).1
  unfolding cached_or_fetched
  cached_or_fetched-others answer other o (some validator) s differs h = h
  cached_or_fetched-others answer other o none s differs h = go (answer (subject_for event_type))
    where
      go : (a : Answer) → HasEntry other o (fetched json event_type a s).1
      go refused = unfold fetched in h
      go empty_body = unfold fetched in h
      go (body text) = unfold fetched in remembered-others other o (json.compiled text) s differs h

  judged-HasEntry :
      (payload : Payload) (validator : Validator) (other : String) (o : Option Validator)
      (s : SchemaRegistry Validator)
      → HasEntry other o s
      → HasEntry other o (judged json payload validator s).1
  unfolding judged
  judged-HasEntry payload validator other o s h = ground (arith, h)

  -- A `validate` of one event type, whatever comes of it, leaves the cached validator of every other
  -- type alone.
  pub validate-others :
      (answer : String → Answer) (payload : Payload) (s : SchemaRegistry Validator) (other : String)
      → event_type ≢ other
      → lookup other (validate json answer event_type payload s).1.validator_cache
        ≡ lookup other s.validator_cache
  unfolding validate validator_of
  validate-others answer payload s other differs =
      let o = lookup other s.validator_cache in
      let entry = lookup event_type s.validator_cache in
      let (r, s') = cached_or_fetched json answer event_type entry s in
      let kept = cached_or_fetched-others answer other o entry s differs refl in
      continue_inv (HasEntry other o) (judged json payload) r s' kept
        λ validator _. judged-HasEntry payload validator other o s' kept
