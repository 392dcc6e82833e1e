-- ===== src/EventBus.antt =====
-- event-bus-sdk/trustlist_event_bus: the Python SDK of the event bus.
pub mod Errors
pub mod Dedup
pub mod Stdlib
pub mod Samples
pub mod Envelope
pub mod Idempotency
pub mod Producer
pub mod Consumer
pub mod SchemaRegistry
pub mod Wire
pub mod Deployment
