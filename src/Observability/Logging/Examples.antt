-- ===== src/Observability/Logging/Examples.antt =====
-- The theorems of this directory for a logger of one component.
use trustlist_core.Base.{◌≡◌, refl, true, false, some, map, if◌then◌else◌, [], ◌∷◌, arith}
use trustlist_core.Base.Dict.{lookup}
use trustlist_core.Base.Json.{text, no_fields, field, find}
use trustlist_core.Base.Result.{ok, err}
use trustlist_core.Observability.Logging.{
  value_error, Printing, Ambient, LogRecord, entry_of, format, Logs, or_new, logger_at, get_logger,
  collides, is_enabled, log,
}
use trustlist_core.Observability.Logging.Schema.{id_or_null, entry_of_lem}
use trustlist_core.Observability.Logging.Wiring.{
  own_handlers, IsWired, get_logger-IsWired, record_of, returned, log_lem,
}

abbrev plain : Printing
plain = record {
  isoformat = λ t. "2026-01-01T00:00:00.000+00:00";
  hex = λ digits n. "0a";
  dumps = λ j. "{}";
  level_name = λ n. "INFO";
}

abbrev quiet : Ambient
quiet = record { created = 0; trace_id = 0; span_id = 0; traceback = "NoneType: None" }

abbrev scored : LogRecord
scored = record {
  level = 20;
  component = "scoring";
  message = "done";
  fields = field "domain" (text "d1") no_fields;
  exc_info = true;
}

scored-clear : collides scored.fields ≡ false
unfolding collides find
scored-clear = refl

entry_of_lem_example :
    (find "timestamp" (entry_of plain quiet scored) ≡ some (text (plain.isoformat 0)))
    × (find "level" (entry_of plain quiet scored) ≡ some (text (plain.level_name 20)))
    × (find "component" (entry_of plain quiet scored) ≡ some (text "scoring"))
    × (find "trace_id" (entry_of plain quiet scored) ≡ some (id_or_null plain 32 0))
    × (find "span_id" (entry_of plain quiet scored) ≡ some (id_or_null plain 16 0))
    × (find "message" (entry_of plain quiet scored) ≡ some (text "done"))
entry_of_lem_example = entry_of_lem plain quiet scored scored-clear

abbrev nothing : Logs
nothing = record { loggers = []; disable = 0; lines = [] }

nothing-IsWired : IsWired nothing
unfolding logger_at or_new lookup
nothing-IsWired name = omega arith

get_logger-IsWired_example :
    (own_handlers (logger_at "trustlist.scoring" (get_logger "scoring" 20 nothing).1).handlers ≡ 1)
    × IsWired (get_logger "scoring" 20 nothing).1
get_logger-IsWired_example = get_logger-IsWired "scoring" 20 nothing nothing-IsWired

-- A logger above that of the component, with a handler of its own.
abbrev crowded : Logs
crowded = (get_logger "scoring" 20 nothing).1

crowded-IsWired : IsWired crowded
crowded-IsWired = (get_logger-IsWired "scoring" 20 nothing nothing-IsWired).1

log_lem_example :
    ((get_logger "scoring.batch" 20 crowded).0 ≡ ok (returned "scoring.batch"))
    × (log plain quiet
          ("trustlist.scoring" ∷ [])
          (returned "scoring.batch")
          20
          "done"
          no_fields
          (get_logger "scoring.batch" 20 crowded).1
        ≡ (if collides no_fields
            then (err value_error, (get_logger "scoring.batch" 20 crowded).1)
            else (
              ok tt,
              record (get_logger "scoring.batch" 20 crowded).1 {
                lines =
                    if is_enabled
                      (get_logger "scoring.batch" 20 crowded).1.disable
                      (logger_at "trustlist.scoring.batch"
                        (get_logger "scoring.batch" 20 crowded).1)
                      (map
                        (λ name. logger_at name (get_logger "scoring.batch" 20 crowded).1)
                        ("trustlist.scoring" ∷ []))
                      20
                    then format plain quiet
                        (record_of (returned "scoring.batch") 20 "done" no_fields)
                      ∷ crowded.lines
                    else crowded.lines;
              },
            )))
log_lem_example =
    log_lem plain quiet ("trustlist.scoring" ∷ []) "scoring.batch" 20 20 "done" no_fields crowded
      crowded-IsWired
