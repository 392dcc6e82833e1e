-- ===== src/Observability/Tracing/Examples.antt =====
-- The theorem of this directory in an environment with an endpoint.
use trustlist_core.Base.{◌≡◌, true, none, ◌==◌, String-eq, if◌then◌else◌}
use trustlist_core.Observability.Tracing.{Environ, explicit_of, has_endpoint, init_tracing}
use trustlist_core.Observability.Tracing.Selection.{installs_otlp, init_tracing_iff}

abbrev at_honeycomb : Environ
at_honeycomb = record {
  get = λ k. if k == "OTEL_EXPORTER_OTLP_ENDPOINT" then "https://api.honeycomb.io" else "";
  strip = λ s. s;
  lower = λ s. s;
}

init_tracing_iff_example :
    installs_otlp (init_tracing at_honeycomb none none (record { provider = none })).0 ≡ true
unfolding explicit_of has_endpoint
init_tracing_iff_example = init_tracing_iff at_honeycomb none (record { provider = none })
