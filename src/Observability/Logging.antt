-- ===== src/Observability/Logging.antt =====
-- observability/logging.py: the structured logger. The loggers of the stdlib module are a dict by name,
-- and the lines written to stderr a list, the newest first. Timestamps, hex digits, the text of JSON
-- and the traceback of the active exception are parameters, as are the names of the loggers above one,
-- the nearest first, which the stdlib keeps. A logger has no filter, and a handler no level.
pub mod Schema
pub mod Wiring
mod Examples
use Prim.Native.String.{◌++◌}
use trustlist_core.Base.{
  ℕ, zero, suc, String, Bool, true, false, Option, none, some, List, [], ◌∷◌, ◌++◌ as append, ◌&&◌,
  ◌==◌, String-eq, ℕ-eq, if◌then◌else◌, is_some, leb, ltb, not, map,
}
use trustlist_core.Base.Json.{
  Json, null, text, object, Fields, no_fields, field, find, is_truthy, put, update_fields,
  drop_field,
}
use trustlist_core.Base.Lists.{any, contains}
use trustlist_core.Base.Dict.{Dict, lookup, insert}
use trustlist_core.Base.Result.{Result, ok, err}
use trustlist_core.Base.Action.{Action, pure, raise}

pub data LogError : Type 0 where
  value_error : LogError

pub record Printing : Type 0 where
  -- `datetime.fromtimestamp(t, tz=UTC).isoformat(timespec="milliseconds")`
  pub isoformat : ℕ → String
  -- `format(n, "032x")` and `format(n, "016x")`
  pub hex : ℕ → ℕ → String
  -- `json.dumps(entry, default=str, sort_keys=True)`
  pub dumps : Json → String
  -- `logging.getLevelName`
  pub level_name : ℕ → String

-- What is around a call: the clock, the ids of the current span, and the rendered `sys.exc_info()`.
pub record Ambient : Type 0 where
  pub created : ℕ
  pub trace_id : ℕ
  pub span_id : ℕ
  pub traceback : String

-- `_RESERVED_FIELDS`
abbrev pub reserved_fields : List String
reserved_fields = "timestamp" ∷ "level" ∷ "component" ∷ "trace_id" ∷ "span_id" ∷ "message" ∷ []

-- a `LogRecord` that `_log` makes
pub record LogRecord : Type 0 where
  pub level : ℕ
  pub component : String
  pub message : String
  pub fields : Fields
  pub exc_info : Bool

-- `_format_trace_id` and `_format_span_id`, by the number of digits
unfoldable pub format_id : Printing → ℕ → ℕ → Json
format_id py digits n = if n == 0 then null else text (py.hex digits n)

-- the six fields of the schema
unfoldable pub schema_of : Printing → Ambient → LogRecord → Fields
unfolding format_id
schema_of py a r = field "timestamp" (text (py.isoformat a.created)) (
    field "level" (text (py.level_name r.level)) (
      field "component" (text r.component) (
        field "trace_id" (format_id py 32 a.trace_id) (
          field "span_id" (format_id py 16 a.span_id)
            (field "message" (text r.message) no_fields)))))

-- the dict that `JsonFormatter.format` renders
unfoldable pub entry_of : Printing → Ambient → LogRecord → Fields
unfolding schema_of
entry_of py a r =
    let entry = update_fields (schema_of py a r) r.fields in
    if r.exc_info then put "exception" (text a.traceback) entry else entry

-- `JsonFormatter.format`
unfoldable pub format : Printing → Ambient → LogRecord → String
unfolding entry_of
format py a r = py.dumps (object (entry_of py a r))

pub data Handler : Type 0 where
  stderr_handler foreign_handler : Handler

-- a `logging.Logger`
pub record Logger : Type 0 where
  pub level : ℕ
  pub propagate : Bool
  pub disabled : Bool
  pub handlers : List Handler

pub record Logs : Type 0 where
  pub loggers : Dict String Logger
  -- the level of `logging.disable`
  pub disable : ℕ
  pub lines : List String

-- `logging.getLogger(name)`: a new logger has no level of its own and no handler
unfoldable pub or_new : Option Logger → Logger
or_new none = record { level = 0; propagate = true; disabled = false; handlers = [] }
or_new (some logger) = logger

unfoldable pub logger_at : String → Logs → Logger
unfolding lookup or_new
logger_at name s = or_new (lookup name s.loggers)

pub record StructuredLogger : Type 0 where
  pub component : String
  pub name : String

-- `isinstance(handler, _StderrHandler)`
unfoldable pub is_stderr : Handler → Bool
is_stderr stderr_handler = true
is_stderr foreign_handler = false

-- the handlers after `get_logger` has wired its own
unfoldable pub wired : List Handler → List Handler
unfolding is_stderr
wired handlers = if any is_stderr handlers then handlers else append handlers (stderr_handler ∷ [])

-- the logger as `get_logger` leaves it
unfoldable pub configured : ℕ → Logger → Logger
unfolding wired
configured level logger = record logger {
  level = level;
  propagate = false;
  handlers = wired logger.handlers;
}

-- `get_logger`
unfoldable pub get_logger : String → ℕ → Action LogError Logs StructuredLogger
unfolding logger_at configured insert
get_logger component level s =
    let name = "trustlist." ++ component in
    (
      ok (record { component = component; name = name }),
      record s { loggers = insert name (configured level (logger_at name s)) s.loggers },
    )

-- `_RESERVED_FIELDS.intersection(fields)` is not empty
unfoldable pub collides : Fields → Bool
unfolding find
collides fields = any (λ name. is_some (find name fields)) reserved_fields

-- one line for each handler of `_StderrHandler`; other handlers write elsewhere
unfoldable pub emitted : List Handler → String → List String → List String
emitted [] line lines = lines
emitted (stderr_handler ∷ handlers) line lines = emitted handlers line (line ∷ lines)
emitted (foreign_handler ∷ handlers) line lines = emitted handlers line lines

-- `Logger.callHandlers`: the handlers of a logger and, while it propagates, of the loggers above
unfoldable pub handlers_from : Logger → List Logger → List Handler
handlers_from logger [] = logger.handlers
handlers_from logger (parent ∷ above) =
    let rest = handlers_from parent above in
    if logger.propagate then append logger.handlers rest else logger.handlers

abbrev pub is_empty : List Handler → Bool
is_empty [] = true
is_empty (handler ∷ handlers) = false

-- With no handler at all, `logging.lastResort` writes the message of a warning.
unfoldable pub delivered : List Handler → ℕ → String → String → List String → List String
unfolding emitted
delivered handlers level message line lines =
    if is_empty handlers
    then (if leb 30 level then message ∷ lines else lines)
    else emitted handlers line lines

-- `Logger.getEffectiveLevel`: a logger without a level of its own has that of the loggers above
unfoldable pub effective_level : Logger → List Logger → ℕ
effective_level logger [] = logger.level
effective_level logger (parent ∷ above) =
    let inherited = effective_level parent above in
    if logger.level == 0 then inherited else logger.level

-- `Logger.isEnabledFor`
unfoldable pub is_enabled : ℕ → Logger → List Logger → ℕ → Bool
unfolding effective_level
is_enabled disable logger above level =
    not logger.disabled && ltb disable level && leb (effective_level logger above) level

-- `exc_info`, as the stdlib's logging reads it
unfoldable pub wants_traceback : Option Json → Bool
unfolding is_truthy
wants_traceback none = false
wants_traceback (some x) = is_truthy x

-- `StructuredLogger._log`
unfoldable pub log :
    Printing
    → Ambient
    → List String
    → StructuredLogger
    → ℕ
    → String
    → Fields
    → Action LogError Logs (Unit {0})
unfolding collides find drop_field logger_at is_enabled handlers_from delivered format
    wants_traceback
log py a ancestors self level message fields = if collides fields then raise value_error else λ s.
    let logger = logger_at self.name s in
    let above = map (λ name. logger_at name s) ancestors in
    let line = format py a (record {
      level = level;
      component = self.component;
      message = message;
      fields = drop_field "exc_info" fields;
      exc_info = wants_traceback (find "exc_info" fields);
    }) in
    (
      ok tt,
      record s {
        lines =
            if is_enabled s.disable logger above level
            then delivered (handlers_from logger above) level message line s.lines
            else s.lines;
      },
    )

-- the methods `debug`, `info`, `warning`, `error` and `critical`
pub data Level : Type 0 where
  debug info warning error critical : Level

unfoldable pub level_number : Level → ℕ
level_number debug = 10
level_number info = 20
level_number warning = 30
level_number error = 40
level_number critical = 50

unfoldable pub log_at :
    Printing
    → Ambient
    → List String
    → StructuredLogger
    → Level
    → String
    → Fields
    → Action LogError Logs (Unit {0})
unfolding log level_number
log_at py a ancestors self level = log py a ancestors self (level_number level)
