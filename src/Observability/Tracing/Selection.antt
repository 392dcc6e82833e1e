-- ===== src/Observability/Tracing/Selection.antt =====
-- When an exporter that reaches the network is installed.
use trustlist_core.Base.{
  String, ◌≡◌, refl, Bool, true, false, not, ◌&&◌, ◌||◌, Option, none, some, ◌==◌, String-eq,
  ==_iff, if◌then◌else◌, arith, ap, ◌∙◌,
}
use trustlist_core.Base.Result.{Result, ok, err}
use trustlist_core.Observability.Tracing.{
  TracingError, value_error, Environ, otlp, console, no_exporter, exporter_kind, explicit_of,
  has_endpoint, resolve_exporter_kind, otlp_exporter, build_exporter, Processor, batch, Provider,
  Telemetry, built, batch_of, processor_of, set_provider, init_tracing,
}

-- The environment asks for the exporter over the network: by name, or by an endpoint and no name.
abbrev pub asks_for_otlp : Environ → Bool
asks_for_otlp env = (explicit_of env == "otlp") || ((explicit_of env == "") && has_endpoint env)

-- The provider that was set sends its spans over the network.
abbrev pub is_networked : Option Processor → Bool
is_networked (some (batch otlp_exporter)) = true
is_networked _ = false

abbrev pub installs_otlp : Result TracingError Provider → Bool
installs_otlp (ok provider) = is_networked provider.processor
installs_otlp (err raised) = false

abbrev networked : Result TracingError (Option Processor) → Bool
networked (ok processor) = is_networked processor
networked (err raised) = false

networked-choice :
    (blank by_name is_console is_none endpoint : Bool)
    → (blank ≡ true → by_name ≡ false)
    → networked (
        built (
          if not blank
          then if by_name
            then ok otlp
            else if is_console
            then ok console
            else if is_none
            then ok no_exporter
            else err value_error
          else if endpoint
          then ok otlp
          else ok console))
      ≡ (by_name || (blank && endpoint))
unfolding built build_exporter batch_of
networked-choice true by_name is_console is_none true unnamed = rw (unnamed refl) refl
networked-choice true by_name is_console is_none false unnamed = rw (unnamed refl) refl
networked-choice false true is_console is_none endpoint unnamed = refl
networked-choice false false true is_none endpoint unnamed = refl
networked-choice false false false true endpoint unnamed = refl
networked-choice false false false false endpoint unnamed = refl

blank-unnamed : (s : String) → (s == "") ≡ true → (s == "otlp") ≡ false
blank-unnamed s blank =
    let same : s ≡ "" = ground (arith, ==_iff s "", blank) in ap (λ s. s == "otlp") same

networked-processor_of : (env : Environ) → networked (processor_of env none) ≡ asks_for_otlp env
unfolding processor_of resolve_exporter_kind exporter_kind
networked-processor_of env =
    networked-choice (explicit_of env == "") (explicit_of env == "otlp")
      (explicit_of env == "console") (explicit_of env == "none") (has_endpoint env)
      (blank-unnamed (explicit_of env))

installs-networked :
    (env : Environ) (name : Option String) (r : Result TracingError (Option Processor))
    (s : Telemetry)
    → processor_of env none ≡ r
    → installs_otlp (init_tracing env name none s).0 ≡ networked r
unfolding init_tracing set_provider
installs-networked env name (ok processor) s resolved = rw resolved refl
installs-networked env name (err raised) s resolved = rw resolved refl

-- Without an exporter of the caller, `init_tracing` returns a provider that exports over the network
-- exactly when the environment asks for it: TRUSTLIST_OTEL_EXPORTER says "otlp", or it is blank and
-- OTEL_EXPORTER_OTLP_ENDPOINT is not.
pub init_tracing_iff :
    (env : Environ) (name : Option String) (s : Telemetry)
    → installs_otlp (init_tracing env name none s).0 ≡ asks_for_otlp env
init_tracing_iff env name s =
    installs-networked env name (processor_of env none) s refl ∙ networked-processor_of env
