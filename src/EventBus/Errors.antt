-- ===== src/EventBus/Errors.antt =====
-- event-bus-sdk/trustlist_event_bus/errors.py: the exceptions of the SDK, and those of Python that its
-- methods let through. `handler_error` is any exception of a consumer's handler.
use trustlist_core.Base.{Bool, true, false}

pub data BusError : Type 0 where
  event_bus_error back_pressure_error produce_error : BusError
  schema_validation_error schema_registry_error : BusError
  value_error key_error type_error attribute_error handler_error : BusError

-- `isinstance(exc, EventBusError)`
unfoldable pub is_event_bus_error : BusError → Bool
is_event_bus_error event_bus_error = true
is_event_bus_error back_pressure_error = true
is_event_bus_error produce_error = true
is_event_bus_error schema_validation_error = true
is_event_bus_error schema_registry_error = true
is_event_bus_error _ = false
