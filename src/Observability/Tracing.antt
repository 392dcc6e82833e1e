-- ===== src/Observability/Tracing.antt =====
-- observability/tracing.py: the choice of the exporter and the set-up of the tracer provider. The
-- environment and the methods of `str` are parameters; `provider` is OpenTelemetry's global provider.
pub mod Selection
mod Examples
use trustlist_core.Base.{
  String, Bool, true, false, not, Option, none, some, ◌==◌, String-eq, if◌then◌else◌,
}
use trustlist_core.Base.Result.{Result, ok, err}
use trustlist_core.Base.Action.{Action, lift, modify, pure, ◌>>=◌, ◌>>◌}

pub data TracingError : Type 0 where
  value_error : TracingError

-- `os.environ.get(k, "")`, `s.strip()` and `s.lower()`
pub record Environ : Type 0 where
  pub get : String → String
  pub strip : String → String
  pub lower : String → String

pub data ExporterKind : Type 0 where
  otlp console no_exporter : ExporterKind

-- `ExporterKind(s)`
unfoldable pub exporter_kind : String → Result TracingError ExporterKind
exporter_kind s =
    if s == "otlp"
    then ok otlp
    else if s == "console"
    then ok console
    else if s == "none"
    then ok no_exporter
    else err value_error

-- the stripped and lowered TRUSTLIST_OTEL_EXPORTER
unfoldable pub explicit_of : Environ → String
explicit_of env = env.lower (env.strip (env.get "TRUSTLIST_OTEL_EXPORTER"))

-- OTEL_EXPORTER_OTLP_ENDPOINT is not blank
unfoldable pub has_endpoint : Environ → Bool
has_endpoint env = not (env.strip (env.get "OTEL_EXPORTER_OTLP_ENDPOINT") == "")

-- `_resolve_exporter_kind`
unfoldable pub resolve_exporter_kind : Environ → Result TracingError ExporterKind
unfolding exporter_kind explicit_of has_endpoint
resolve_exporter_kind env =
    if not (explicit_of env == "")
    then exporter_kind (explicit_of env)
    else if has_endpoint env
    then ok otlp
    else ok console

-- the exporters of OpenTelemetry, and one that a caller supplies
pub data Exporter : Type 0 where
  console_exporter otlp_exporter supplied_exporter : Exporter

-- `_build_exporter`
unfoldable pub build_exporter : ExporterKind → Option Exporter
build_exporter no_exporter = none
build_exporter console = some console_exporter
build_exporter otlp = some otlp_exporter

pub data Processor : Type 0 where
  simple batch : Exporter → Processor

pub record Provider : Type 0 where
  pub service_name : String
  pub processor : Option Processor
  pub is_shut_down : Bool

-- the global provider, if one was set
pub record Telemetry : Type 0 where
  pub provider : Option Provider

-- `x or other`, for texts
unfoldable pub or_text : String → String → String
or_text s other = if s == "" then other else s

-- `service_name or os.environ.get("OTEL_SERVICE_NAME", "").strip() or "trustlist"`
unfoldable pub resolved_name : Environ → Option String → String
unfolding or_text
resolved_name env none = or_text (env.strip (env.get "OTEL_SERVICE_NAME")) "trustlist"
resolved_name env (some name) =
    or_text name (or_text (env.strip (env.get "OTEL_SERVICE_NAME")) "trustlist")

unfoldable pub batch_of : Option Exporter → Option Processor
batch_of none = none
batch_of (some exporter) = some (batch exporter)

-- `_build_exporter`, for a kind that was resolved
unfoldable pub built : Result TracingError ExporterKind → Result TracingError (Option Processor)
unfolding build_exporter batch_of
built (err raised) = err raised
built (ok kind) = ok (batch_of (build_exporter kind))

-- the processor that `init_tracing` adds
unfoldable pub processor_of : Environ → Option Exporter → Result TracingError (Option Processor)
unfolding resolve_exporter_kind built
processor_of env (some exporter) = ok (some (simple exporter))
processor_of env none = built (resolve_exporter_kind env)

-- `trace.set_tracer_provider(provider)`, which takes effect once only, and the return of the provider
unfoldable pub first_of : Option Provider → Provider → Provider
first_of none provider = provider
first_of (some earlier) provider = earlier

unfoldable pub set_provider : Provider → Action TracingError Telemetry Provider
unfolding first_of
set_provider provider s = (ok provider, record s { provider = some (first_of s.provider provider) })

-- `init_tracing`
unfoldable pub init_tracing :
    Environ → Option String → Option Exporter → Action TracingError Telemetry Provider
unfolding processor_of resolved_name set_provider
init_tracing env service_name exporter = do
  processor ← lift (processor_of env exporter)
  set_provider (record {
    service_name = resolved_name env service_name;
    processor = processor;
    is_shut_down = false;
  })

unfoldable pub shut : Option Provider → Option Provider
shut none = none
shut (some provider) = some (record provider { is_shut_down = true })

-- `shutdown_tracing`
unfoldable pub shutdown_tracing : Action TracingError Telemetry (Unit {0})
unfolding shut
shutdown_tracing = modify (λ s. record s { provider = shut s.provider })
