-- ===== src/Observability.antt =====
-- observability: the tracing and logging library of the components.
pub mod Decorators
pub mod Logging
pub mod Tracing
