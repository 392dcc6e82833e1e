-- ===== src/Lib.antt =====
-- TrustList core: a model of the authentication library (auth/trustlist_auth), of the Python SDK of
-- the event bus (event-bus-sdk/trustlist_event_bus), of the canonical data model with its migration
-- (data-model) and of the library observability, with the properties that make them correct.
--
-- The parts and their files.
-- Base: Python's constructs. `Base.Result` is a call that returns or raises, `Base.Action` a method
--   that also changes a state, `Base.Dict` a dict, `Base.Lists` sequences and sets.
-- Auth.Rbac (rbac.py): `Model` has the enums `Archetype` and `Permission` and `validate_permission`,
--   `Framework` the classes `Role` and `RoleCatalogue` with their methods, `Catalogues` the three
--   declared catalogues and `catalogue_for`.
-- Auth.Database (data-model/trustlist_data_model/models.py): the three tables that the library
--   writes or refers to, with the constraints that its statements can violate. Which values the columns
--   of the types INET, JSONB and TEXT take is part of its state, as `ColumnTypes`.
-- Auth.RoleStore (role_store.py): `grant_role`, `revoke_role`, `live_assignments` and
--   `live_role_identifiers` on the table of role assignments.
-- Auth.Provider (fake_provider.py, provider.py) and Auth.Provider.Credentials (also passwords.py and
--   totp.py): `InMemoryIdentityProvider`, its accounts, its index by archetype and lower-case email,
--   and its sessions. `Auth.Provider.Protocol` is the protocol `IdentityProvider` with promises of its
--   docstrings as laws, for `Protocol.InMemory`; `Insight` is what they say beyond the results of the methods.
-- Auth.Audit (audit.py, testing.py): `record_event` is `AuditTrail.record`; the sinks are data.
-- Auth.Service (service.py): `World` is what an `AuthService` acts on, that is a provider, the database
--   of the caller's transaction and a sink; `Methods` has every method under its own name.
-- Auth.Tokens (tokens.py): `TokenSigner`, its segments and its claims; base64, hmac, json and the text of
--   integers are the fields of `Codec`. A lifetime is not negative, and the timestamps of the code,
--   which are floats, are exact.
-- EventBus.Dedup (consumer.py): the protocol `DedupStore` and `InMemoryDedupStore`; `remember` is its
--   method `record`.
-- EventBus.Consumer (consumer.py): `poll_once` and `run` of `EventConsumer`, over interfaces for the
--   decoder of envelopes, the schema registry and the store of keys; the effects on the world, that
--   is handler calls that returned and commits that the broker accepted, are a list.
-- EventBus.Stdlib: what the SDK calls of Python's json, uuid and datetime, with the laws assumed of
--   them; `Base.Json` has the values that JSON can write.
-- EventBus.Envelope (envelope.py): `Provenance`, `EventEnvelope` and `new_envelope`.
-- EventBus.Idempotency (idempotency.py): `derive_idempotency_key`; `Alike` is equality of JSON values
--   as data, which the canonical text may depend on only.
-- EventBus.Producer (producer.py): `produce` and `close` of `EventProducer`; the messages, flushes and
--   polls that confluent_kafka accepts are a list.
-- EventBus.Wire: the consumer's interfaces filled with the envelope and the registry of the SDK;
--   `Wire.Delivery` follows an event from a producer to a consumer's handler.
-- EventBus.SchemaRegistry (schema_registry.py): `validate` and the cache of validators; what the
--   registry answers, the compilation of a schema and its judgement are arguments.
-- EventBus.Deployment (config.py, admin.py, schema_files.py): `from_env`, `ensure_topic`, `register` and
--   `register_all`.
-- Ci.LicenseHeaders (ci/check_license_headers.py): which files are checked, and the exit code.
-- DataModel.Ddl: the vocabulary of columns, constraints and operations; `DataModel.Models`
--   (data-model/trustlist_data_model/models.py): the fifteen models in `Domains` and `Accounts`, the enum
--   types, and in `Declaration` the naming convention and `mapped`, the table that a model declares as
--   SQLAlchemy documents it.
-- DataModel.Migration (data-model/migrations/versions/0001_create_canonical_data_model.py): `upgrade` is the
--   list of the operations that the migration sends; a table and an index have the name that they get.
--   A check has the name that Alembic makes of the given one by the naming convention, which env.py passes
--   with the metadata; the shortening of names of more than 63 characters is left out.
--   `DataModel.Script` reads such a list: what it creates, needs and grants. Its children compare the list
--   with the models and with the authentication library.
-- DataModel.EvidenceCurrent (the same file): the query of the view `evidence_current` on rows. The
--   collation of texts is a parameter of which only a total preorder is assumed.
-- DataModel.Constraints: the keys and references that a model declares, read as conditions on a new row,
--   and the INSERT statements of `Auth.Database` against them.
-- Observability.Decorators (observability/decorators.py, observability/propagation.py): a callable is a plain
--   or a coroutine function on a `World`, that is the current context and the spans that have ended.
-- Observability.Logging (observability/logging.py): `get_logger`, `log` and `format`; the loggers of the
--   stdlib are a dict, the lines on stderr a list. The names of the loggers above one are an argument of
--   `log`, which calls their handlers as long as the loggers propagate, respects `disabled`,
--   `logging.disable` and inherited levels, and falls back on `logging.lastResort`.
-- Observability.Tracing (observability/tracing.py): the choice of the exporter and `init_tracing`.
--
-- How the code is read. A UUID and a timestamp are natural numbers: the code compares them, adds a
-- lifetime to a timestamp, and prints them. The readings of the clock, new UUIDs and random bytes
-- are arguments. An exception is a constructor without its message. A set or frozenset is a list
-- that is read by `contains` only. A statement that a table constraint refuses raises an integrity
-- error, one with a value that its column does not take a data error, and both change nothing.
-- argon2-cffi, pyotp and the methods of `str` that need Unicode tables are the fields of
-- `Auth.External.External`; the one law assumed of them, where a theorem names it, is that a
-- password verifies against its own hashes. The loop of `run` takes the list of its rounds, which
-- ends when `close` is seen; all other loops run over finite lists too, so there is no fuel.
--
-- Not modelled: the decoy verification for an unknown email, which has no effect but time; the
-- settings that constructors pass to confluent_kafka; what PostgreSQL and Alembic do with the operations of
-- the migration, and env.py but for the naming convention; the printed report of the licence check;
-- the TypeScript SDK.
pub mod Auth
pub mod Base
pub mod Ci
pub mod DataModel
pub mod EventBus
pub mod Observability
