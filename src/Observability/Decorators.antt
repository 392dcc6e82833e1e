-- ===== src/Observability/Decorators.antt =====
-- observability/decorators.py and observability/propagation.py: the decorators that run a callable in
-- a span. OpenTelemetry is a record of parameters; `World` is the tracing context of a caller, with
-- the spans that have ended, the newest first. An awaitable is what `await` runs.
pub mod Spans
mod Examples
use Prim.Native.String.{◌++◌}
use trustlist_core.Base.{
  ℕ, suc, String, Bool, true, false, Option, none, some, List, [], ◌∷◌, ◌==◌, String-eq,
  if◌then◌else◌,
}
use trustlist_core.Base.Json.{Json, text, object, Fields, no_fields, field, find}
use trustlist_core.Base.Dict.{Dict, insert}
use trustlist_core.Base.Result.{Result, ok, err}
use trustlist_core.Base.Action.{Action, pure}

pub data SpanKind : Type 0 where
  server client producer consumer internal : SpanKind

-- the status of a span; an error carries `str(exc)`
pub data Status (E : Type 0) : Type 0 where
  unset : Status E
  error : E → Status E

pub record Span (E Context : Type 0) : Type 0 where
  pub name : String
  pub kind : SpanKind
  pub parent : Context
  pub context : Context
  pub attributes : Dict String Json
  pub recorded : List E
  pub status : Status E

-- OpenTelemetry: the context of a new span under a parent, the W3C headers of a context and the context
-- of headers, and what leaving `start_as_current_span` adds to a span, given the exception that
-- leaves it. `is_exception` is `isinstance(exc, Exception)`.
pub record Otel (E : Type 0) : Type 1 where
  pub Context : Type 0
  pub child : Context → ℕ → Context
  pub inject : Context → Fields
  pub extract : Fields → Context
  pub left : Option E → Span E Context → Span E Context
  pub is_exception : E → Bool

-- `name or func.__qualname__`
unfoldable pub or_qualname : Option String → String → String
or_qualname none qualname = qualname
or_qualname (some name) qualname = if name == "" then qualname else name

-- `merged.update(attributes)`
unfoldable pub merge : Dict String Json → Dict String Json → Dict String Json
merge merged [] = merged
merge merged ((k, v) ∷ attributes) = merge (insert k v merged) attributes

-- `dict(static_attributes)`, then `if attributes: merged.update(attributes)`
unfoldable pub merged_attributes : Dict String Json → Option (Dict String Json) → Dict String Json
unfolding merge
merged_attributes static none = static
merged_attributes static (some attributes) = merge static attributes

-- `candidate if isinstance(candidate, Mapping) else None`
unfoldable pub carrier_of : Option Json → Option Fields
carrier_of (some (object fs)) = some fs
carrier_of _ = none

module _ {E : Type 0} (otel : Otel E) where
  pub record World : Type 0 where
    pub current : otel.Context
    pub fresh : ℕ
    pub ended : List (Span E otel.Context)

  -- a value, or an awaitable of one
  pub data Answer (V : Type 0) : Type 0 where
    value : V → Answer V
    awaitable : Action E World V → Answer V

  -- the positional and the keyword arguments
  abbrev pub Arguments : Type 0
  Arguments = List Json × Fields

  -- `iscoroutinefunction` holds of the second form only
  pub data Callable (V : Type 0) : Type 0 where
    function : (Arguments → Action E World (Answer V)) → Callable V
    coroutine_function : (Arguments → Action E World V) → Callable V

  -- `inject_trace_context()`
  unfoldable pub inject_trace_context : World → Fields
  inject_trace_context w = otel.inject w.current

  -- `extract_trace_context`
  abbrev pub extract_trace_context : Fields → otel.Context
  extract_trace_context carrier = otel.extract carrier

  -- `extract_trace_context(dict(carrier)) if carrier is not None else None`, and the current context
  -- where `start_as_current_span` gets None
  unfoldable pub parent_of : Option Fields → World → otel.Context
  parent_of none w = w.current
  parent_of (some carrier) w = extract_trace_context carrier

  unfoldable pub entered : otel.Context → World → World
  entered parent w = record w { current = otel.child parent w.fresh; fresh = suc w.fresh }

  -- the span that `start_as_current_span` starts
  unfoldable pub started :
      String → SpanKind → Dict String Json → otel.Context → World → Span E otel.Context
  started name kind attributes parent w = record {
    name = name;
    kind = kind;
    parent = parent;
    context = otel.child parent w.fresh;
    attributes = attributes;
    recorded = [];
    status = unset;
  }

  -- the span at the end of the `try` statement
  unfoldable pub noted : {A : Type 0} → Result E A → Span E otel.Context → Span E otel.Context
  noted (ok a) span = span
  noted (err exc) span =
      if otel.is_exception exc
      then record span { recorded = exc ∷ span.recorded; status = error exc }
      else span

  unfoldable pub raised : {A : Type 0} → Result E A → Option E
  raised (ok a) = none
  raised (err exc) = some exc

  -- `with tracer.start_as_current_span(...) as span: try: return body() except Exception ...`
  unfoldable pub in_span :
      {A : Type 0}
      → String
      → SpanKind
      → Dict String Json
      → Option Fields
      → Action E World A
      → Action E World A
  unfolding parent_of entered started noted raised
  in_span name kind attributes carrier body w =
      let parent = parent_of carrier w in
      let (r, after) = body (entered parent w) in
      (
        r,
        record after {
          current = w.current;
          ended =
              otel.left (raised r) (noted r (started name kind attributes parent w)) ∷ after.ended;
        },
      )

  -- `_run_in_span`
  unfoldable pub run_in_span :
      {V : Type 0}
      → Callable V
      → String
      → SpanKind
      → Dict String Json
      → Option Fields
      → Arguments
      → Action E World (Answer V)
  unfolding in_span
  run_in_span (function call) name kind attributes carrier arguments =
      in_span name kind attributes carrier (call arguments)
  run_in_span (coroutine_function body) name kind attributes carrier arguments =
      pure (awaitable (in_span name kind attributes carrier (body arguments)))

  -- what `_make_decorator` makes, applied to a callable: the wrapper is a plain function
  unfoldable pub decorated :
      {V : Type 0}
      → SpanKind
      → String
      → Dict String Json
      → Option String
      → Option (Dict String Json)
      → String
      → Callable V
      → Callable V
  unfolding run_in_span or_qualname merged_attributes
  decorated kind prefix static name attributes qualname func = function (λ arguments.
      run_in_span func (prefix ++ " " ++ or_qualname name qualname) kind
        (merged_attributes static attributes) none arguments)

  -- `{"trustlist.surface": surface}`
  abbrev pub on_surface : String → Dict String Json
  on_surface surface = ("trustlist.surface", text surface) ∷ []

  abbrev pub Instrument : Type 0 → Type 0
  Instrument V = Option String → Option (Dict String Json) → String → Callable V → Callable V

  abbrev pub instrument_http_request : {V : Type 0} → Instrument V
  instrument_http_request = decorated server "HTTP" (on_surface "http_request")

  abbrev pub instrument_db_query : {V : Type 0} → Instrument V
  instrument_db_query = decorated client "DB" (on_surface "db_query")

  abbrev pub instrument_produce : {V : Type 0} → Instrument V
  instrument_produce = decorated producer "PRODUCE" (on_surface "event_produce")

  abbrev pub instrument_scheduled_job : {V : Type 0} → Instrument V
  instrument_scheduled_job = decorated internal "JOB" (on_surface "scheduled_job")

  -- `instrument_consume`
  unfoldable pub instrument_consume : {V : Type 0} → String → Instrument V
  unfolding run_in_span or_qualname merged_attributes carrier_of find
  instrument_consume carrier_arg name attributes qualname func = function (λ arguments.
      run_in_span func ("CONSUME " ++ or_qualname name qualname) consumer
        (merged_attributes (on_surface "event_consume") attributes)
        (carrier_of (find carrier_arg arguments.1)) arguments)
