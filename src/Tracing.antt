-- ===== src/Tracing.antt =====
-- `TraceEvent` and `Tracer` of include/neuralplus/tracing.hpp. The time stamp is left out: nothing
-- but the printers of src/tracing.cpp reads it.
pub mod Sinks
use neural_plus.Prelude.{Bytes}
use neural_plus.Outcome.{Result}
use neural_plus.Json.{JsonValue, Members, put_member}

pub data TraceLevel : Type 0 where
  debug info warning error : TraceLevel

pub data TraceEventType : Type 0 where
  generation_start generation_end provider_start provider_end tool_start tool_end error :
      TraceEventType

-- `attributes` holds the members of an object.
pub record TraceEvent : Type 0 where
  pub level : TraceLevel
  pub type : TraceEventType
  pub session_id : Bytes
  pub run_id : Bytes
  pub operation_id : Bytes
  pub name : Bytes
  pub attributes : Members
  pub payload : Bytes

-- `Tracer::record` over the state `S` that it can reach; it may throw.
abbrev pub Tracer : Type 0 → Type 0
Tracer S = TraceEvent → S → Result (Unit {0}) × S

-- `event.attributes[key] = value`.
unfoldable pub set_attribute : Bytes → JsonValue → TraceEvent → TraceEvent
set_attribute key value event = record event { attributes = put_member key value event.attributes }
