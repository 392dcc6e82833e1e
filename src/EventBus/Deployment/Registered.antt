-- ===== src/EventBus/Deployment/Registered.antt =====
-- What `register_all` has registered when it returns.
use trustlist_core.Base.{
  ℕ, String, ◌≡◌, ap, subst, true, List, [], ◌∷◌, String-eq, arith, is_some, Option,
}
use trustlist_core.Base.Lists.{All}
use trustlist_core.Base.Json.{Json}
use trustlist_core.Base.Dict.{Dict, has, insert, lookup-insert, lookup-insert_self}
use trustlist_core.Base.Result.{Result, ok, split_ok, ok_injective}
use trustlist_core.EventBus.Errors.{BusError}
use trustlist_core.EventBus.Deployment.{
  SchemaFile, event_type_of, register, register_files, register_all,
}

has-insert :
    (k j : String) (id : ℕ) (d : Dict String ℕ) → has j d ≡ true → has j (insert k id d) ≡ true
has-insert k j id d present = ground (arith, lookup-insert k j id d, present)

module _ (register_one : String → Json → Result BusError ℕ) where
  kept :
      (files : List SchemaFile) (registered d : Dict String ℕ) (k : String)
      → register_files register_one files registered ≡ ok d
      → has k registered ≡ true
      → has k d ≡ true
  unfolding register_files
  kept [] registered d k returned present =
      subst (λ d. has k d ≡ true) (ok_injective returned) present
  kept (file ∷ files) registered d k returned present =
      let (schema, parsed, rest) = split_ok file.parsed _ d returned in
      let (id, accepted, last) = split_ok (register_one (event_type_of file) schema) _ d rest in
      kept files (insert (event_type_of file) id registered) d k last
        (has-insert (event_type_of file) k id registered present)

  covered :
      (files : List SchemaFile) (registered d : Dict String ℕ)
      → register_files register_one files registered ≡ ok d
      → All (λ file. has (event_type_of file) d ≡ true) files
  unfolding register_files
  covered [] registered d returned = tt
  covered (file ∷ files) registered d returned =
      let (schema, parsed, rest) = split_ok file.parsed _ d returned in
      let (id, accepted, last) = split_ok (register_one (event_type_of file) schema) _ d rest in
      let k = event_type_of file in
      (
        kept files (insert k id registered) d k last
            (ap (λ found. is_some found) (lookup-insert_self k id registered)),
        covered files (insert k id registered) d last,
      )

-- When `register_all` returns, every file has been registered: the event type of each has an id.
pub register_all-covered :
    (dumps : Json → String) (register_schema : String → String → Option ℕ) (files : List SchemaFile)
    (d : Dict String ℕ)
    → register_all dumps register_schema files ≡ ok d
    → All (λ file. has (event_type_of file) d ≡ true) files
unfolding register_all
register_all-covered dumps register_schema files d returned =
    covered (register dumps register_schema) files [] d returned
