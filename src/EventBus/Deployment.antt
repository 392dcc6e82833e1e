-- ===== src/EventBus/Deployment.antt =====
-- event-bus-sdk/trustlist_event_bus: config.py, admin.py and schema_files.py, with `register` of
-- schema_registry.py. The environment, the broker, the client of the registry, the file system and the
-- methods of `str` are parameters.
pub mod Registered
use Prim.Native.String.{[], ◌∷◌}
use trustlist_core.Base.{
  ℕ, zero, suc, ◌-◌, String, Bool, Option, none, some, List, [] as no_files, ◌∷◌ as file_then, ◌==◌,
  String-eq, if◌then◌else◌,
}
use trustlist_core.Base.Json.{Json}
use trustlist_core.Base.Dict.{Dict, insert}
use trustlist_core.Base.Result.{Result, ok, err, or_raise, ◌>>=◌, ◌>>◌, raise_if}
use trustlist_core.EventBus.Errors.{BusError, event_bus_error, schema_registry_error, value_error}
use trustlist_core.EventBus.SchemaRegistry.{subject_for}

-- `os.environ.get(k, "")`, and `strip()`, `rstrip("/")`, `lower()` and `in` of texts
pub record Surroundings : Type 0 where
  pub environ : String → String
  pub strip : String → String
  pub rstrip_slash : String → String
  pub lower : String → String
  pub within : String → String → Bool

pub record EventBusConfig : Type 0 where
  pub brokers : String
  pub schema_registry_url : String

-- `EventBusConfig.from_env`
unfoldable pub from_env : Surroundings → Result BusError EventBusConfig
from_env env =
    let brokers = env.strip (env.environ "TRUSTLIST_EVENT_BUS_BROKERS") in
    let registry = env.strip (env.environ "TRUSTLIST_SCHEMA_REGISTRY_URL") in
    if brokers == ""
    then err value_error
    else if registry == ""
    then err value_error
    else ok (record { brokers = brokers; schema_registry_url = env.rstrip_slash registry })

-- `config or EventBusConfig.from_env()`
unfoldable pub config_or_env : Surroundings → Option EventBusConfig → Result BusError EventBusConfig
unfolding from_env
config_or_env env none = from_env env
config_or_env env (some config) = ok config

-- the outcome of `futures[topic].result()`: it returns, or raises an exception with a text
pub data Creation : Type 0 where
  created : Creation
  refused : String → Creation

-- the `try` of `ensure_topic`
unfoldable pub settled : Surroundings → Creation → Result BusError (Unit {0})
settled env created = ok tt
settled env (refused message) =
    if env.within "already exists" (env.lower message) then ok tt else err event_bus_error

-- `ensure_topic`; the broker answers by its address, the topic, the partitions and the replication
unfoldable pub ensure_topic :
    Surroundings
    → (String → String → ℕ → ℕ → Creation)
    → String
    → Option EventBusConfig
    → ℕ
    → ℕ
    → Result BusError (Unit {0})
unfolding config_or_env settled
ensure_topic env broker topic config num_partitions replication_factor = do
  resolved ← config_or_env env config
  settled env (broker resolved.brokers topic num_partitions replication_factor)

-- `SchemaRegistry.register`; the client answers with an id or refuses, and `dumps` is `json.dumps`
unfoldable pub register :
    (Json → String) → (String → String → Option ℕ) → String → Json → Result BusError ℕ
unfolding subject_for
register dumps register_schema event_type schema =
    or_raise (register_schema (subject_for event_type) (dumps schema)) schema_registry_error

-- a file that `sorted(base.glob("*.schema.json"))` yields: its name, and what `json.loads` makes of it
pub record SchemaFile : Type 0 where
  pub name : String
  pub parsed : Result BusError Json

unfoldable pub len : String → ℕ
len [] = 0
len (c ∷ s) = suc (len s)

-- `s[:n]`
unfoldable pub take : ℕ → String → String
take zero s = ""
take (suc n) [] = ""
take (suc n) (c ∷ s) = c ∷ take n s

-- `path.name[: -len(_SCHEMA_SUFFIX)]`
unfoldable pub event_type_of : SchemaFile → String
unfolding len take
event_type_of file = take (len file.name - len ".schema.json") file.name

-- the loop of `register_all` over `iter_schema_files`, from what is registered so far
unfoldable pub register_files :
    (String → Json → Result BusError ℕ)
    → List SchemaFile
    → Dict String ℕ
    → Result BusError (Dict String ℕ)
unfolding event_type_of insert
register_files register no_files registered = ok registered
register_files register (file_then file files) registered = do
  schema ← file.parsed
  id ← register (event_type_of file) schema
  register_files register files (insert (event_type_of file) id registered)

-- `register_all`
unfoldable pub register_all :
    (Json → String)
    → (String → String → Option ℕ)
    → List SchemaFile
    → Result BusError (Dict String ℕ)
unfolding register register_files
register_all dumps register_schema files =
    register_files (register dumps register_schema) files no_files
