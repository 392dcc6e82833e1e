-- ===== src/Observability/Logging/Wiring.antt =====
-- The handlers of the loggers, and what a call writes.
use Prim.Native.String.{◌++◌}
use trustlist_core.Base.{
  ℕ, suc, ◌≤◌, String, ◌≡◌, refl, ap, sym, ◌∙◌, Bool, true, false, Option, some, List, [], ◌∷◌,
  ◌++◌ as append, ◌==◌, String-eq, ==_iff, if◌then◌else◌, map, arith, Bool-cases, inl, inr, subst,
}
use trustlist_core.Base.Lists.{any}
use trustlist_core.Base.Json.{Fields, find, drop_field}
use trustlist_core.Base.Dict.{lookup, lookup-insert}
use trustlist_core.Base.Result.{ok, err}
use trustlist_core.Observability.Logging.{
  value_error, Printing, Ambient, LogRecord, format, Handler, stderr_handler, foreign_handler,
  Logger, Logs, or_new, logger_at, StructuredLogger, is_stderr, wired, configured, get_logger,
  collides, emitted, is_empty, delivered, handlers_from, is_enabled, wants_traceback, log,
}

-- How many handlers of the library a logger has.
abbrev pub own_handlers : List Handler → ℕ
own_handlers [] = 0
own_handlers (stderr_handler ∷ handlers) = suc (own_handlers handlers)
own_handlers (foreign_handler ∷ handlers) = own_handlers handlers

own_handlers-any :
    (handlers : List Handler) → any is_stderr handlers ≡ false → own_handlers handlers ≡ 0
unfolding is_stderr
own_handlers-any [] unwired = refl
own_handlers-any (stderr_handler ∷ handlers) unwired = cc
own_handlers-any (foreign_handler ∷ handlers) unwired = own_handlers-any handlers unwired

own_handlers-some :
    (handlers : List Handler) → any is_stderr handlers ≡ true → 1 ≤ own_handlers handlers
unfolding is_stderr
own_handlers-some [] has = cc
own_handlers-some (stderr_handler ∷ handlers) has = omega arith
own_handlers-some (foreign_handler ∷ handlers) has = own_handlers-some handlers has

own_handlers-append :
    (handlers : List Handler)
    → own_handlers (append handlers (stderr_handler ∷ [])) ≡ suc (own_handlers handlers)
own_handlers-append [] = refl
own_handlers-append (stderr_handler ∷ handlers) = ap suc (own_handlers-append handlers)
own_handlers-append (foreign_handler ∷ handlers) = own_handlers-append handlers

own_handlers-wired :
    (handlers : List Handler) → own_handlers handlers ≤ 1 → own_handlers (wired handlers) ≡ 1
unfolding wired
own_handlers-wired handlers few = elim (Bool-cases (any is_stderr handlers)) [
  | inl has ↦ rw has (omega (arith, own_handlers-some handlers has))
  | inr lacks ↦
      rw lacks (omega (arith, own_handlers-append handlers, own_handlers-any handlers lacks))
]

-- No logger has more than one handler of the library.
abbrev pub IsWired : Logs → Type 0
IsWired s = (name : String) → own_handlers (logger_at name s).handlers ≤ 1

or_new-if :
    (b : Bool) (logger : Logger) (found : Option Logger)
    → or_new (if b then some logger else found) ≡ (if b then logger else or_new found)
unfolding or_new
or_new-if true logger found = refl
or_new-if false logger found = refl

configured-once :
    (level : ℕ) (logger : Logger)
    → own_handlers logger.handlers ≤ 1
    → own_handlers (configured level logger).handlers ≡ 1
unfolding configured
configured-once level logger few = own_handlers-wired logger.handlers few

logger_at-get_logger :
    (component name : String) (level : ℕ) (s : Logs)
    → logger_at name (get_logger component level s).1 ≡ (
        if ("trustlist." ++ component) == name
        then configured level (logger_at ("trustlist." ++ component) s)
        else logger_at name s)
unfolding get_logger logger_at or_new
logger_at-get_logger component name level s =
    rw
      (lookup-insert ("trustlist." ++ component) name
        (configured level (logger_at ("trustlist." ++ component) s)) s.loggers)
      (or_new-if (("trustlist." ++ component) == name)
        (configured level (logger_at ("trustlist." ++ component) s)) (lookup name s.loggers))

equal_self : (k : String) → (k == k) ≡ true
equal_self k = ground (arith, ==_iff k k)

if-few :
    (b : Bool) (one other : Logger)
    → own_handlers one.handlers ≤ 1
    → own_handlers other.handlers ≤ 1
    → own_handlers (if b then one else other).handlers ≤ 1
if-few true one other few_one few_other = few_one
if-few false one other few_one few_other = few_other

get_logger-few :
    (component name : String) (level : ℕ) (s : Logs)
    → IsWired s
    → own_handlers (logger_at name (get_logger component level s).1).handlers ≤ 1
get_logger-few component name level s few =
    let once =
      configured-once level (logger_at ("trustlist." ++ component) s)
        (few ("trustlist." ++ component)) in
    subst (λ l. own_handlers l.handlers ≤ 1) (sym (logger_at-get_logger component name level s))
      (if-few (("trustlist." ++ component) == name)
        (configured level (logger_at ("trustlist." ++ component) s)) (logger_at name s)
        (omega (arith, once)) (few name))

-- `get_logger` wires a logger once: from a state in which no logger has two handlers of the library,
-- the logger of the component has exactly one, and no logger has two, however often it is called.
pub get_logger-IsWired :
    (component : String) (level : ℕ) (s : Logs)
    → IsWired s
    → (own_handlers
          (logger_at ("trustlist." ++ component) (get_logger component level s).1).handlers
        ≡ 1)
      × IsWired (get_logger component level s).1
get_logger-IsWired component level s few = (
  ap (λ l. own_handlers l.handlers)
        (logger_at-get_logger component ("trustlist." ++ component) level s)
      ∙ rw (equal_self ("trustlist." ++ component)) (
          configured-once level (logger_at ("trustlist." ++ component) s)
            (few ("trustlist." ++ component))),
  λ name. get_logger-few component name level s few,
)

emitted-once :
    (handlers : List Handler) (line : String) (lines : List String)
    → own_handlers handlers ≡ 0
    → emitted handlers line lines ≡ lines
unfolding emitted
emitted-once [] line lines no_own = refl
emitted-once (stderr_handler ∷ handlers) line lines no_own = absurd (omega (arith, no_own))
emitted-once (foreign_handler ∷ handlers) line lines no_own =
    emitted-once handlers line lines no_own

emitted-one :
    (handlers : List Handler) (line : String) (lines : List String)
    → own_handlers handlers ≡ 1
    → emitted handlers line lines ≡ line ∷ lines
unfolding emitted
emitted-one [] line lines own = absurd (omega (arith, own))
emitted-one (stderr_handler ∷ handlers) line lines own =
    emitted-once handlers line (line ∷ lines) (omega (arith, own))
emitted-one (foreign_handler ∷ handlers) line lines own = emitted-one handlers line lines own

-- The record that a call makes.
abbrev pub record_of : StructuredLogger → ℕ → String → Fields → LogRecord
record_of self level message fields = record {
  level = level;
  component = self.component;
  message = message;
  fields = drop_field "exc_info" fields;
  exc_info = wants_traceback (find "exc_info" fields);
}

own_handlers-nonempty :
    (handlers : List Handler) → own_handlers handlers ≡ 1 → is_empty handlers ≡ false
own_handlers-nonempty [] own = absurd (omega (arith, own))
own_handlers-nonempty (handler ∷ handlers) own = refl

delivered-one :
    (handlers : List Handler) (level : ℕ) (message line : String) (lines : List String)
    → own_handlers handlers ≡ 1
    → delivered handlers level message line lines ≡ line ∷ lines
unfolding delivered
delivered-one handlers level message line lines own =
    rw (own_handlers-nonempty handlers own, emitted-one handlers line lines own) refl

-- A logger that does not propagate has its own handlers only.
handlers_from-still :
    (logger : Logger) (above : List Logger)
    → logger.propagate ≡ false
    → handlers_from logger above ≡ logger.handlers
unfolding handlers_from
handlers_from-still logger [] still = refl
handlers_from-still logger (parent ∷ above) still = rw still refl

-- The logger of a component after `get_logger`.
own_logger :
    (component : String) (level : ℕ) (s : Logs)
    → logger_at ("trustlist." ++ component) (get_logger component level s).1
      ≡ configured level (logger_at ("trustlist." ++ component) s)
own_logger component level s =
    logger_at-get_logger component ("trustlist." ++ component) level s
    ∙ rw (equal_self ("trustlist." ++ component)) refl

own_logger-propagate :
    (component : String) (level : ℕ) (s : Logs)
    → (logger_at ("trustlist." ++ component) (get_logger component level s).1).propagate ≡ false
unfolding configured
own_logger-propagate component level s = ap (λ l. l.propagate) (own_logger component level s)

log-wired :
    (py : Printing) (a : Ambient) (ancestors : List String) (self : StructuredLogger) (level : ℕ)
    (message : String) (fields : Fields) (s : Logs)
    → own_handlers (logger_at self.name s).handlers ≡ 1
    → (logger_at self.name s).propagate ≡ false
    → log py a ancestors self level message fields s ≡ (
        if collides fields then (err value_error, s) else (
          ok tt,
          record s {
            lines =
                if is_enabled s.disable
                  (logger_at self.name s)
                  (map (λ name. logger_at name s) ancestors)
                  level
                then format py a (record_of self level message fields) ∷ s.lines
                else s.lines;
          },
        ))
unfolding log
log-wired py a ancestors self level message fields s own still =
    elim (Bool-cases (collides fields)) [
      | inl bad ↦ rw bad refl
      | inr good ↦
          rw
            (
              good,
              handlers_from-still (logger_at self.name s) (map (λ name. logger_at name s) ancestors)
                  still,
              delivered-one (logger_at self.name s).handlers level message
                  (format py a (record_of self level message fields)) s.lines own,
            )
            refl
    ]

-- The logger that `get_logger` returns.
abbrev pub returned : String → StructuredLogger
returned component = record { component = component; name = "trustlist." ++ component }

-- What a call does on the logger that `get_logger` returns, from a state in which no logger has two
-- handlers of the library, and whatever handlers the loggers above it have: a field with a reserved
-- name is refused with ValueError, and nothing is written; if not, exactly one line is written, that
-- of the call's record, or none when the stdlib does not let the level through.
pub log_lem :
    (py : Printing) (a : Ambient) (ancestors : List String) (component : String)
    (threshold level : ℕ) (message : String) (fields : Fields) (s : Logs)
    → IsWired s
    → let (self, s') = get_logger component threshold s in
      (self ≡ ok (returned component))
      × (log py a ancestors (returned component) level message fields s' ≡ (
          if collides fields then (err value_error, s') else (
            ok tt,
            record s' {
              lines =
                  if is_enabled s'.disable
                    (logger_at ("trustlist." ++ component) s')
                    (map (λ name. logger_at name s') ancestors)
                    level
                  then format py a (record_of (returned component) level message fields) ∷ s.lines
                  else s.lines;
            },
          )))
unfolding get_logger
log_lem py a ancestors component threshold level message fields s few = (
  refl,
  log-wired py a ancestors (returned component) level message fields
      (get_logger component threshold s).1 (get_logger-IsWired component threshold s few).0
      (own_logger-propagate component threshold s),
)
