-- ===== src/Tracing/Sinks.antt =====
-- The tracers of src/tracing.cpp. The text of an event's time stamp, the JSON library and the calls of the
-- operating system are parameters; what is written on POSIX systems is modelled.
pub mod Limit
use neural_plus.Prelude.{
  ℕ, ◌+◌, ◌-◌, min, Bytes, lit, Bool, true, false, not, ◌&&◌, Option, none, some, List, [], ◌∷◌,
  ◌++◌, is_empty, length, ltb, ◌==◌, if◌then◌else◌,
}
use neural_plus.Outcome.{Result, ok, err, base_error, configuration_error, throw_if}
use neural_plus.Outcome
use neural_plus.Exec.{Exec, modify, ◌>>=◌, ◌>>◌}
use neural_plus.Json.{JsonValue, string, object, Members, end, put_member, json_object}
use neural_plus.Tracing.{TraceLevel, TraceEventType, TraceEvent, Tracer}

unfoldable pub level_to_string : TraceLevel → Bytes
unfolding lit
level_to_string TraceLevel.debug = lit "debug"
level_to_string TraceLevel.info = lit "info"
level_to_string TraceLevel.warning = lit "warning"
level_to_string TraceLevel.error = lit "error"

unfoldable pub type_to_string : TraceEventType → Bytes
unfolding lit
type_to_string TraceEventType.generation_start = lit "generation_start"
type_to_string TraceEventType.generation_end = lit "generation_end"
type_to_string TraceEventType.provider_start = lit "provider_start"
type_to_string TraceEventType.provider_end = lit "provider_end"
type_to_string TraceEventType.tool_start = lit "tool_start"
type_to_string TraceEventType.tool_end = lit "tool_end"
type_to_string TraceEventType.error = lit "error"

unfoldable pub event_json : Bytes → TraceEvent → Bool → JsonValue
unfolding level_to_string type_to_string put_member lit
event_json timestamp event include_payload = json_object (
    (lit "timestamp", string timestamp)
    ∷ (lit "level", string (level_to_string event.level))
    ∷ (lit "type", string (type_to_string event.type))
    ∷ (lit "session_id", string event.session_id)
    ∷ (lit "run_id", string event.run_id)
    ∷ (lit "operation_id", string event.operation_id)
    ∷ (lit "name", string event.name)
    ∷ (lit "attributes", object event.attributes)
    ∷ (if include_payload && not (is_empty event.payload)
        then (lit "payload", string event.payload) ∷ []
        else []))

abbrev pub Dump : Type 0
Dump = JsonValue → Result Bytes

-- ` label=` and the value, unless there is none.
abbrev pub field : Dump → Bytes → Bytes → Result Bytes
field dump label text =
    if is_empty text
    then ok []
    else Outcome.◌>>=◌ (dump (string text)) (λ value. ok (lit " " ++ (label ++ (lit "=" ++ value))))

abbrev pub attributes_field : Dump → Members → Result Bytes
attributes_field dump end = ok []
attributes_field dump ms =
    Outcome.◌>>=◌ (dump (object ms)) (λ value. ok (lit " attributes=" ++ value))

-- Two results, one after the other, joined.
abbrev pub joined : Result Bytes → Result Bytes → Result Bytes
joined first second = Outcome.◌>>=◌ first (λ text. Outcome.◌>>=◌ second (λ more. ok (text ++ more)))

unfoldable pub human_line : Dump → Bytes → TraceEvent → Result Bytes
unfolding level_to_string type_to_string lit
human_line dump timestamp event =
    let start =
      timestamp
      ++ (lit " [" ++ (level_to_string event.level ++ (lit "] " ++ type_to_string event.type))) in
    joined (ok start) (
      joined (field dump (lit "name") event.name) (
        joined (field dump (lit "session") event.session_id) (
          joined (field dump (lit "run") event.run_id) (
            joined (field dump (lit "operation") event.operation_id)
              (attributes_field dump event.attributes)))))

-- `LOG_DEBUG`, `LOG_INFO`, `LOG_WARNING` and `LOG_ERR` of POSIX.
unfoldable pub syslog_priority : TraceLevel → ℕ
syslog_priority TraceLevel.debug = 7
syslog_priority TraceLevel.info = 6
syslog_priority TraceLevel.warning = 4
syslog_priority TraceLevel.error = 3

pub record FileTracerOptions : Type 0 where
  pub append : Bool
  pub flush_each_event : Bool
  pub include_payloads : Bool
  pub max_bytes : ℕ

abbrev pub default_file_options : FileTracerOptions
default_file_options = record {
  append = true;
  flush_each_event = false;
  include_payloads = false;
  max_bytes = 0;
}

-- How opening the file went; `size` is what `fstat` says.
pub data Opened : Type 0 where
  not_opened no_metadata no_stream : Opened
  opened : (size : ℕ) → Opened

-- `FileTracer::Impl`; `file` is the stream.
pub record FileTracer (S : Type 0) : Type 0 where
  pub options : FileTracerOptions
  pub file : S
  pub bytes_written : ℕ

-- `fwrite` says how many bytes it wrote, `fflush` whether it failed.
pub record Stream (S : Type 0) : Type 0 where
  pub fwrite : Bytes → S → ℕ × S
  pub fflush : S → Bool × S

module _ {S : Type 0} (stream : Stream S) where
  unfoldable pub open_file : Bytes → FileTracerOptions → Opened → S → Result (FileTracer S)
  open_file file_path options result file =
      if is_empty file_path
      then err (configuration_error (lit "trace file path must not be empty"))
      else elim result [
        | not_opened ↦ err (configuration_error (lit "trace file could not be opened"))
        | no_metadata ↦ err (configuration_error (lit "trace file metadata could not be read"))
        | no_stream ↦ err (configuration_error (lit "trace file stream could not be opened"))
        | opened size ↦ ok (record {
          options = options;
          file = file;
          bytes_written = if options.append then size else 0;
        })
      ]

  unfoldable pub write_line : Bytes → Exec (FileTracer S) (Unit {0})
  write_line line tracer =
      let (written, file) = stream.fwrite line tracer.file in
      if written == length line
      then (ok tt, record tracer { file = file })
      else (err (base_error (lit "trace file write failed")), record tracer { file = file })

  unfoldable pub flush_line : Exec (FileTracer S) (Unit {0})
  flush_line tracer =
      if tracer.options.flush_each_event
      then (let (failed, file) = stream.fflush tracer.file in
          (
            (if failed then err (base_error (lit "trace file flush failed")) else ok tt),
            record tracer { file = file },
          ))
      else (ok tt, tracer)

  unfoldable pub store_line : Bytes → Exec (FileTracer S) (Unit {0})
  unfolding write_line flush_line
  store_line line = do
    write_line line
    flush_line
    modify (λ t. record t { bytes_written = t.bytes_written + length line })

  -- The part of `record` under the mutex.
  unfoldable pub append_line : Bytes → Exec (FileTracer S) (Unit {0})
  unfolding store_line
  append_line line tracer =
      let max_bytes = tracer.options.max_bytes in
      let stored = store_line line tracer in
      if not (max_bytes == 0) && ltb (max_bytes - min tracer.bytes_written max_bytes) (length line)
      then (err (base_error (lit "trace file size limit reached")), tracer)
      else stored

  unfoldable pub file_record : Dump → Bytes → TraceEvent → Exec (FileTracer S) (Unit {0})
  unfolding append_line event_json
  file_record dump timestamp event tracer =
      elim (dump (event_json timestamp event tracer.options.include_payloads)) [
        | err e ↦ (err e, tracer)
        | ok text ↦ append_line (text ++ b'\n' ∷ []) tracer
      ]

-- `InMemoryTracer`, with its events.
unfoldable pub memory_record : Tracer (List TraceEvent)
memory_record event events = (ok tt, events ++ event ∷ [])

abbrev pub memory_clear : List TraceEvent → List TraceEvent
memory_clear events = []

-- `FunctionTracer` with a callback, or without one.
unfoldable pub function_tracer : {S : Type 0} → Option (Tracer S) → Result (Tracer S)
function_tracer none = err (configuration_error (lit "trace callback must not be empty"))
function_tracer (some callback) = ok callback

pub record SyslogTracer : Type 0 where
  pub identity : Bytes
  pub facility : ℕ

-- `LOG_USER` is 8.
unfoldable pub syslog_tracer : Bytes → ℕ → Result SyslogTracer
syslog_tracer identity facility =
    if is_empty identity
    then err (configuration_error (lit "syslog identity must not be empty"))
    else ok (record { identity = identity; facility = if facility == 0 then 8 else facility })
