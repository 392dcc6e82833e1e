-- ===== src/EventBus/SchemaRegistry/Examples.antt =====
-- The theorems of this directory for a registry with one schema, which accepts one payload.
use trustlist_core.Base.{String, ◌≡◌, refl, [], ◌∷◌, ◌==◌, String-eq}
use trustlist_core.Base.Dict.{lookup}
use trustlist_core.Base.Result.{ok}
use trustlist_core.EventBus.SchemaRegistry.{
  Answer, refused, body, Jsonschema, SchemaRegistry, remembered, fetched, cached_or_fetched,
  validator_of,
}

-- A schema is the one payload that it accepts.
abbrev exact : Jsonschema String String
exact = record { compiled = λ text. ok text; conforms = λ validator payload. validator == payload }

abbrev one_schema : String → Answer
one_schema subject = body "{}"

abbrev offline : String → Answer
offline subject = refused

abbrev one_cached : SchemaRegistry String
one_cached = record { validator_cache = ("domain.scored", "[]") ∷ [] }

obtains : (validator_of exact one_schema "signal.observed" one_cached).0 ≡ ok "{}"
unfolding validator_of cached_or_fetched fetched remembered lookup
obtains = refl
