-- ===== src/EventBus/Stdlib.antt =====
-- What envelope.py calls of Python's `json`, `uuid` and `datetime`, with the laws that these document.
use trustlist_core.Base.{ℕ, String, true, ◌≡◌, Option}
use trustlist_core.Base.Json.{Json, text, Items, Fields, has_distinct_keys}
use trustlist_core.Base.Result.{Result, ok}
use trustlist_core.EventBus.Errors.{BusError}

-- A `datetime`: the reading of its clock, and its UTC offset in microseconds, a day added, if it
-- carries a time zone.
pub record Moment : Type 0 where
  pub reading : ℕ
  pub offset : Option ℕ

pub record Library : Type 1 where
  -- `bytes`
  pub Bytes : Type 0
  -- `json.dumps(x, separators=(",", ":")).encode("utf-8")` and `json.loads(raw.decode("utf-8"))`
  pub dumps : Json → Bytes
  pub loads : Bytes → Result BusError Json
  -- `str(u)` of a UUID and `uuid.UUID(x)`
  pub uuid_text : ℕ → String
  pub uuid_of : Json → Result BusError ℕ
  -- `moment.isoformat()` and `datetime.fromisoformat(x)`
  pub isoformat : Moment → String
  pub fromisoformat : Json → Result BusError Moment
  -- `dict(xs)` of a list
  pub dict_of_list : Items → Result BusError Fields

-- What is printed is read back, JSON for values whose dicts have distinct keys, as a dict has.
pub record Reads (py : Library) : Type 0 where
  pub loads-dumps : (j : Json) → has_distinct_keys j ≡ true → py.loads (py.dumps j) ≡ ok j
  pub uuid_of-text : (u : ℕ) → py.uuid_of (text (py.uuid_text u)) ≡ ok u
  pub fromisoformat-isoformat : (m : Moment) → py.fromisoformat (text (py.isoformat m)) ≡ ok m
