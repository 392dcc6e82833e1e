-- ===== src/Observability/Decorators/Examples.antt =====
-- The theorems of this directory for contexts that are numbers.
use trustlist_core.Base.{ℕ, suc, String, ◌≡◌, refl, true, Option, none, some, [], ◌∷◌, String-eq}
use trustlist_core.Base.Json.{Json, integer, object, no_fields, field, find}
use trustlist_core.Base.Result.{ok}
use trustlist_core.Base.Action.{Action, pure, raise}
use trustlist_core.Observability.Decorators.{
  server, client, consumer, Otel, World, Answer, value, awaitable, Arguments, function,
  coroutine_function, in_span, decorated, on_surface, entered, started, instrument_consume,
  or_qualname, merged_attributes, noted, raised,
}
use trustlist_core.Observability.Decorators.Spans.{
  called, Leaves, Propagates, instrument_consume-joins, decorated-coroutine,
}

abbrev number_in : Option Json → ℕ
number_in (some (integer n)) = n
number_in _ = 0

abbrev numbered : Otel String
numbered = record {
  Context = ℕ;
  child = λ parent fresh. suc fresh;
  inject = λ c. field "traceparent" (integer c) no_fields;
  extract = λ fs. number_in (find "traceparent" fs);
  left = λ exc s. s;
  is_exception = λ exc. true;
}

numbered-Leaves : Leaves numbered
numbered-Leaves = record {
  left-none = λ s. refl;
  left-other = λ exc s not_caught. refl;
  left-error = λ exc s failed. failed;
}

numbered-Propagates : Propagates numbered
unfolding find
numbered-Propagates = record { extract-inject = λ c. refl }

abbrev idle : World numbered
idle = record { current = 0; fresh = 4; ended = [] }

abbrev fails : Action String (World numbered) ℕ
fails = raise "boom"

abbrev arguments : Arguments numbered
arguments = ([], field "carrier" (object (field "traceparent" (integer 9) no_fields)) no_fields)

abbrev handler : Arguments numbered → Action String (World numbered) (Answer numbered ℕ)
handler given = pure (value 1)

carried : find "carrier" arguments.1 ≡ some (object (numbered.inject 9))
unfolding find
carried = refl

instrument_consume-joins_example :
    called numbered
      (instrument_consume numbered "carrier" (some "score") none "handler" (function handler))
      arguments
      idle
    ≡ (
      ok (value 1),
      record {
        current = 0;
        fresh = 5;
        ended =
            started numbered "CONSUME score" consumer (on_surface numbered "event_consume") 9 idle
            ∷ [];
      },
    )
unfolding entered noted raised merged_attributes or_qualname
instrument_consume-joins_example =
    instrument_consume-joins numbered "carrier" (some "score") none "handler" handler arguments idle
      9 numbered-Propagates carried

abbrev body : Arguments numbered → Action String (World numbered) ℕ
body given = fails

decorated-coroutine_example :
    called numbered
      (decorated numbered server "HTTP" (on_surface numbered "http_request") none none "f" (
        decorated numbered client "DB"
          (on_surface numbered "db_query")
          none
          none
          "f"
          (coroutine_function body)))
      arguments
      idle
    ≡ (
      ok (
          awaitable (
            in_span numbered "DB f" client (on_surface numbered "db_query") none (body arguments))),
      record {
        current = 0;
        fresh = 5;
        ended = started numbered "HTTP f" server (on_surface numbered "http_request") 0 idle ∷ [];
      },
    )
decorated-coroutine_example =
    decorated-coroutine numbered server client "HTTP" "DB" (on_surface numbered "http_request")
      (on_surface numbered "db_query") "f" body arguments idle numbered-Leaves
