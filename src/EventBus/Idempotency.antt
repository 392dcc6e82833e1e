-- ===== src/EventBus/Idempotency.antt =====
-- event-bus-sdk/trustlist_event_bus/idempotency.py: `derive_idempotency_key`. What it calls of json and
-- hashlib is a record of parameters, with the law that json documents for `sort_keys`.
pub mod Stable
mod Examples
use trustlist_core.Base.{
  String, ◌≡◌, Bool, true, false, not, Option, none, some, List, [], ◌∷◌, if◌then◌else◌, is_some,
  ◌==◌, String-eq,
}
use trustlist_core.Base.Json.{
  Json, text, array, object, Items, no_items, item, Fields, no_fields, field, find, put,
}
use trustlist_core.Base.Result.{Result, ok, err, or_raise, raise_if, ◌>>=◌, ◌>>◌}
use trustlist_core.EventBus.Errors.{BusError, value_error, key_error}

pub record Digests : Type 0 where
  -- `json.dumps(x, sort_keys=True, separators=(",", ":"), default=str)`
  pub canonical_json : Json → String
  -- `hashlib.sha256(s.encode("utf-8")).hexdigest()`
  pub sha256_hex : String → String

-- Values that are equal as data: dicts by what their keys find, lists item by item.
mutual
  pub data Alike : Json → Json → Type 0 where
    same : (j : Json) → Alike j j
    arrays : (xs ys : Items) → AlikeItems xs ys → Alike (array xs) (array ys)
    objects :
        (fs gs : Fields)
        → ((k : String) → AlikeFound (find k fs) (find k gs))
        → Alike (object fs) (object gs)

  pub data AlikeItems : Items → Items → Type 0 where
    nothing : AlikeItems no_items no_items
    each :
        (x y : Json) (xs ys : Items)
        → Alike x y
        → AlikeItems xs ys
        → AlikeItems (item x xs) (item y ys)

  pub data AlikeFound : Option Json → Option Json → Type 0 where
    absent : AlikeFound none none
    found : (x y : Json) → Alike x y → AlikeFound (some x) (some y)

-- With sorted keys, the text of a value does not depend on the order of the keys in its dicts.
pub record SortsKeys (py : Digests) : Type 0 where
  pub canonical_json-Alike : (j k : Json) → Alike j k → py.canonical_json j ≡ py.canonical_json k

-- `[name for name in key_fields if name not in payload]`
unfoldable pub missing_of : Fields → List String → List String
missing_of payload [] = []
missing_of payload (name ∷ names) =
    let rest = missing_of payload names in if is_some (find name payload) then rest else name ∷ rest

-- `{name: payload[name] for name in key_fields}`, after the fields collected so far
unfoldable pub gather : Fields → List String → Fields → Result BusError Fields
gather payload [] collected = ok collected
gather payload (name ∷ names) collected = do
  v ← or_raise (find name payload) key_error
  gather payload names (put name v collected)

-- `not xs`
unfoldable pub is_empty : List String → Bool
is_empty [] = true
is_empty (x ∷ xs) = false

unfoldable pub document_of : String → Fields → Json
document_of event_type fields =
    object (field "event_type" (text event_type) (field "key_fields" (object fields) no_fields))

-- `derive_idempotency_key`
unfoldable pub derive_idempotency_key :
    Digests → String → Fields → List String → Result BusError String
unfolding missing_of gather is_empty document_of
derive_idempotency_key py event_type payload key_fields = do
  raise_if (is_empty key_fields) value_error
  raise_if (not (is_empty (missing_of payload key_fields))) value_error
  fields ← gather payload key_fields no_fields
  ok (py.sha256_hex (py.canonical_json (document_of event_type fields)))
