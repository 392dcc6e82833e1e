-- ===== src/Observability/Decorators/Spans.antt =====
-- What a decorated callable does, and what its span says.
use Prim.Native.String.{◌++◌}
use trustlist_core.Base.{suc, String, ◌≡◌, refl, Bool, true, false, Option, none, some, ◌∷◌}
use trustlist_core.Base.Json.{Json, object, Fields, find}
use trustlist_core.Base.Dict.{Dict}
use trustlist_core.Base.Result.{Result, ok, err}
use trustlist_core.Base.Action.{Action, pure}
use trustlist_core.Observability.Decorators.{
  SpanKind, consumer, Status, unset, error, Span, Otel, or_qualname, merged_attributes, carrier_of,
  World, Answer, awaitable, Arguments, Callable, function, coroutine_function, parent_of, entered,
  started, noted, raised, in_span, run_in_span, decorated, on_surface, instrument_consume,
}

abbrev pub is_error : {E : Type 0} → Status E → Bool
is_error unset = false
is_error (error exc) = true

-- What is relied on of leaving a span: nothing is added when nothing was raised, or an exception that
-- is no `Exception`, and an error is not taken back.
pub record Leaves {E : Type 0} (otel : Otel E) : Type 1 where
  pub left-none : (s : Span E otel.Context) → otel.left none s ≡ s
  pub left-other :
      (exc : E) (s : Span E otel.Context)
      → otel.is_exception exc ≡ false
      → otel.left (some exc) s ≡ s
  pub left-error :
      (exc : E) (s : Span E otel.Context)
      → is_error s.status ≡ true
      → is_error (otel.left (some exc) s).status ≡ true

-- Leaving a span changes neither where it stands nor what it is.
pub record KeepsIdentity {E : Type 0} (otel : Otel E) : Type 1 where
  pub left-name : (exc : Option E) (s : Span E otel.Context) → (otel.left exc s).name ≡ s.name
  pub left-kind : (exc : Option E) (s : Span E otel.Context) → (otel.left exc s).kind ≡ s.kind
  pub left-parent : (exc : Option E) (s : Span E otel.Context) → (otel.left exc s).parent ≡ s.parent
  pub left-context :
      (exc : Option E) (s : Span E otel.Context) → (otel.left exc s).context ≡ s.context
  pub left-attributes :
      (exc : Option E) (s : Span E otel.Context) → (otel.left exc s).attributes ≡ s.attributes

-- The headers of a context are read back as it.
pub record Propagates {E : Type 0} (otel : Otel E) : Type 1 where
  pub extract-inject : (c : otel.Context) → otel.extract (otel.inject c) ≡ c

module _ {E : Type 0} (otel : Otel E) where
  -- An `Exception` was raised.
  abbrev pub failed : {A : Type 0} → Result E A → Bool
  failed (ok a) = false
  failed (err exc) = otel.is_exception exc

  -- The call of a callable; that of a coroutine function runs nothing.
  abbrev pub called :
      {V : Type 0} → Callable otel V → Arguments otel → Action E (World otel) (Answer otel V)
  called (function call) arguments = call arguments
  called (coroutine_function body) arguments = pure (awaitable (body arguments))

  -- The context of a carrier's headers, or the caller's without a carrier.
  abbrev pub origin : Option Fields → World otel → otel.Context
  origin none w = w.current
  origin (some headers) w = otel.extract headers

  -- The world in which the body of a span under `parent` runs.
  abbrev pub inside : otel.Context → World otel → World otel
  inside parent w = record w { current = otel.child parent w.fresh; fresh = suc w.fresh }

  -- What a call gives back that runs a body in a span: the body runs in the span's context, a child of
  -- the parent; the call has its result, and the caller's context again; and one span more has ended,
  -- last of all, with the name, the kind, the attributes, the parent and the context of the call, and
  -- with the status ERROR exactly when the body raised an `Exception`.
  pub record IsSpanned {A : Type 0} (name : String) (kind : SpanKind)
      (attributes : Dict String Json) (parent : otel.Context) (body : Action E (World otel) A)
      (w : World otel) (outcome : Result E A × World otel) : Type 1 where
    pub result : outcome.0 ≡ (body (inside parent w)).0
    pub restored : outcome.1.current ≡ w.current
    pub span : Span E otel.Context
    pub ended : outcome.1.ended ≡ span ∷ (body (inside parent w)).1.ended
    pub named : span.name ≡ name
    pub of_kind : span.kind ≡ kind
    pub described : span.attributes ≡ attributes
    pub under : span.parent ≡ parent
    pub around : span.context ≡ otel.child parent w.fresh
    pub status : is_error span.status ≡ failed (body (inside parent w)).0

  -- A consumer's span joins the producer's trace: when the carrier argument is the headers that a
  -- context `c` injects, the handler runs with the same arguments in a child of `c`, and the span that
  -- ends has the parent `c`. The headers have to be read back as the context.
  pub instrument_consume-joins :
      {V : Type 0} (carrier_arg : String) (name : Option String)
      (attributes : Option (Dict String Json)) (qualname : String)
      (call : Arguments otel → Action E (World otel) (Answer otel V)) (arguments : Arguments otel)
      (w : World otel) (c : otel.Context)
      → Propagates otel
      → find carrier_arg arguments.1 ≡ some (object (otel.inject c))
      → called
          (instrument_consume otel carrier_arg name attributes qualname (function call))
          arguments
          w
        ≡ (
          (call arguments (entered otel c w)).0,
          record (call arguments (entered otel c w)).1 {
            current = w.current;
            ended =
                otel.left (raised otel (call arguments (entered otel c w)).0) (
                  noted otel (call arguments (entered otel c w)).0 (
                    started otel
                      ("CONSUME " ++ or_qualname name qualname)
                      consumer
                      (merged_attributes (on_surface otel "event_consume") attributes)
                      c
                      w))
                ∷ (call arguments (entered otel c w)).1.ended;
          },
        )
  unfolding instrument_consume run_in_span in_span carrier_of parent_of
  instrument_consume-joins carrier_arg name attributes qualname call arguments w c laws carried =
      rw (carried, laws.extract-inject c) refl

  -- Two decorators on a coroutine function: calling it ends the outer span at once, without an error
  -- of the body, which has not run, and only the inner span is open while the awaitable runs, in
  -- whatever context is current then.
  pub decorated-coroutine :
      {V : Type 0} (kind inner_kind : SpanKind) (prefix inner_prefix : String)
      (static inner_static : Dict String Json) (qualname : String)
      (body : Arguments otel → Action E (World otel) V) (arguments : Arguments otel)
      (w : World otel)
      → Leaves otel
      → called
          (decorated otel kind prefix static none none qualname (
            decorated otel inner_kind inner_prefix inner_static none none qualname
              (coroutine_function body)))
          arguments
          w
        ≡ (
          ok (
              awaitable (
                in_span otel
                  (inner_prefix ++ " " ++ qualname)
                  inner_kind
                  inner_static
                  none
                  (body arguments))),
          record w {
            fresh = suc w.fresh;
            ended = started otel (prefix ++ " " ++ qualname) kind static w.current w ∷ w.ended;
          },
        )
  unfolding decorated run_in_span in_span or_qualname merged_attributes parent_of entered noted
      raised
  decorated-coroutine kind inner_kind prefix inner_prefix static inner_static qualname body
        arguments w laws =
      rw (laws.left-none (started otel (prefix ++ " " ++ qualname) kind static w.current w)) refl
