-- ===== src/Client/Execute.antt =====
-- `trace`, `execute_tool` and `execute_tools` of src/client.cpp. A tool holds its invocation mutex while
-- it runs, and the state that tools share is `S`, so an execution is one atomic step. What the threads
-- of a batch do is the choice of the environment: the order in which they run, and whether a thread
-- could not be created.
pub mod Order
pub mod Guard
use neural_plus.Prelude.{
  ℕ, zero, suc, ◌+◌, Bytes, lit, Bool, true, false, not, ◌||◌, Option, none, some, List, [], ◌∷◌,
  ◌++◌, length, take, drop, map, is_empty, min, ltb, if◌then◌else◌,
}
use neural_plus.Outcome.{Error, is_std_exception, Result, ok, err, what}
use neural_plus.Exec.{Exec, pure, throw, lift, continue, modify, ◌>>=◌, ◌>>◌}
use neural_plus.Json.{JsonValue, boolean, end}
use neural_plus.Types.Content.{Content}
use neural_plus.Types.Message.{Message, ToolCall, join_text}
use neural_plus.Session.{Session}
use neural_plus.Schema.{validate_value_against_schema}
use neural_plus.Tool
use neural_plus.Tool.{ToolOutput, ToolContext, Function}
use neural_plus.Tracing.{Tracer, TraceEvent, TraceEventType, TraceLevel, set_attribute}
use neural_plus.Client.Config.{AiClient, RegisteredTool, find_tool}

-- What the libraries contribute: `operator==` of JSON values and the texts of their exceptions.
pub record Library : Type 0 where
  pub json_equal : JsonValue → JsonValue → Bool
  pub exception_text : Error → Bytes

pub record ToolExecution : Type 0 where
  pub call : ToolCall
  pub output : ToolOutput

-- One batch of `execute_tools`: the order in which its threads run, by their positions, and after how
-- many threads `std::async` threw, if it did.
pub record Batch : Type 0 where
  pub order : List ℕ
  pub launched : Option ℕ

-- The state of a process with one client and one session.
pub record World (S : Type 0) : Type 0 where
  pub session : Session
  pub app : S
  -- the counter of `make_run_id`
  pub next_run : ℕ

abbrev pub make_event : TraceEventType → Bytes → Bytes → Bytes → TraceEvent
make_event type session_id run_id name = record {
  level = TraceLevel.info;
  type = type;
  session_id = session_id;
  run_id = run_id;
  operation_id = [];
  name = name;
  attributes = end;
  payload = [];
}

module _ {S : Type 0} where
  -- Whatever a tracer throws is dropped.
  unfoldable pub trace : List (Tracer S) → TraceEvent → S → S
  trace [] event s = s
  trace (t ∷ ts) event s = trace ts event (t event s).1

-- `internal_diagnostic` where it is not empty, else the text of the output.
abbrev pub payload_of : ToolOutput → Bytes → Bytes
payload_of output diagnostic = if is_empty diagnostic then join_text output.contents else diagnostic

-- `!parallel_tool_calls || calls.size() < 2`
abbrev pub sequential : Bool → List ToolCall → Bool
sequential parallel calls = not parallel || ltb (length calls) 2

-- A thread of a batch: its call, and its outcome once it has run.
abbrev pub Slot : Type 0
Slot = ToolCall × Option (Result ToolExecution)

unfoldable pub find_slot : ℕ → List Slot → Option ToolCall
find_slot i [] = none
find_slot zero ((call, none) ∷ slots) = some call
find_slot zero ((call, some r) ∷ slots) = none
find_slot (suc i) (slot ∷ slots) = find_slot i slots

unfoldable pub fill_slot : ℕ → Result ToolExecution → List Slot → List Slot
fill_slot i r [] = []
fill_slot zero r ((call, o) ∷ slots) = (call, some r) ∷ slots
fill_slot (suc i) r (slot ∷ slots) = slot ∷ fill_slot i r slots

-- `future.get()` of one future after the other: the first exception is thrown.
unfoldable pub get_all : List (Result ToolExecution) → Result (List ToolExecution)
get_all [] = ok []
get_all (err e ∷ rs) = err e
get_all (ok x ∷ rs) = elim (get_all rs) [ ok xs ↦ ok (x ∷ xs) | err e ↦ err e ]

-- The number of threads that a batch of `n` calls starts, where fewer than `n`.
unfoldable pub failed_at : Batch → ℕ → Option ℕ
failed_at b n = elim b.launched [ none ↦ none | some k ↦ if ltb k n then some k else none ]

module _ {S : Type 0} (lib : Library) (client : AiClient S) (session_id run_id : Bytes) where
  -- The output of a tool that was called, with the diagnostic that only a trace shows.
  unfoldable pub settle : Bytes → Result ToolOutput → ToolOutput × Bytes
  settle name (ok output) =
      if is_empty output.contents
      then (Tool.error (lit "tool '" ++ (name ++ lit "' returned no content")), [])
      else (output, [])
  settle name (err e) = (
    Tool.error (lit "tool '" ++ (name ++ lit "' failed")),
    if is_std_exception e then what lib.exception_text e else lit "unknown tool exception",
  )

  unfoldable pub invoke_tool : Function S → ToolCall → Exec S (ToolOutput × Bytes)
  unfolding settle
  invoke_tool f call s =
      let (r, s') =
        f (record { session_id = session_id; run_id = run_id; call_id = call.id }) call.arguments
          s in
      (ok (settle call.name r), s')

  -- The branches of `execute_tool` that give the output. The check of the arguments stands outside
  -- the `try` block.
  unfoldable pub tool_output : ToolCall → Exec S (ToolOutput × Bytes)
  unfolding invoke_tool continue
  tool_output call = elim (find_tool call.name client.tools) [
    | none ↦ pure (Tool.error (lit "unknown tool: " ++ call.name), [])
    | some tool ↦
        if not call.arguments_valid
        then pure (
          Tool.error (
              lit "invalid JSON arguments for tool '"
              ++ (call.name ++ (lit "': " ++ call.raw_arguments))),
          [],
        )
        else do
          problem ← lift (
              validate_value_against_schema lib.json_equal tool.spec.input_schema call.arguments
                (lit "$"))
          if not (is_empty problem)
              then pure (
                Tool.error
                    (lit "invalid arguments for tool '" ++ (call.name ++ (lit "': " ++ problem))),
                [],
              )
              else invoke_tool tool.implementation call
  ]

  unfoldable pub tool_start : ToolCall → TraceEvent
  tool_start call = record (make_event TraceEventType.tool_start session_id run_id call.name) {
    operation_id = call.id;
  }

  unfoldable pub tool_end : ToolCall → ToolOutput → Bytes → TraceEvent
  tool_end call output diagnostic =
      set_attribute (lit "is_error") (boolean output.is_error)
        (record (make_event TraceEventType.tool_end session_id run_id call.name) {
          operation_id = call.id;
          level = if output.is_error then TraceLevel.warning else TraceLevel.info;
          payload =
              if client.options.capture_trace_payloads then payload_of output diagnostic else [];
        })

  unfoldable pub execute_tool : ToolCall → Exec S ToolExecution
  unfolding tool_output tool_start tool_end trace continue
  execute_tool call = do
    modify (trace client.tracers (tool_start call))
    (output, diagnostic) ← tool_output call
    modify (trace client.tracers (tool_end call output diagnostic))
    pure (record { call = call; output = output })

  -- The loop without threads.
  unfoldable pub execute_each : List ToolCall → Exec S (List ToolExecution)
  unfolding continue
  execute_each [] = pure []
  execute_each (call ∷ calls) = do x ← execute_tool call; xs ← execute_each calls; pure (x ∷ xs)

  -- The threads that run in the order that the environment chose; a thread runs once.
  unfoldable pub run_slot : Option ToolCall → ℕ → List Slot → S → List Slot × S
  run_slot none i slots s = (slots, s)
  run_slot (some call) i slots s = let (r, s') = execute_tool call s in (fill_slot i r slots, s')

  unfoldable pub run_slots : List ℕ → List Slot → S → List Slot × S
  unfolding run_slot find_slot fill_slot
  run_slots [] slots s = (slots, s)
  run_slots (i ∷ order) slots s =
      let (slots', s') = run_slot (find_slot i slots) i slots s in run_slots order slots' s'

  -- A future whose thread has not run is waited for.
  unfoldable pub await_slots : List Slot → S → List (Result ToolExecution) × S
  await_slots [] s = ([], s)
  await_slots ((call, some r) ∷ slots) s = let (rs, s') = await_slots slots s in (r ∷ rs, s')
  await_slots ((call, none) ∷ slots) s =
      let (r, s₁) = execute_tool call s in let (rs, s₂) = await_slots slots s₁ in (r ∷ rs, s₂)

  -- A batch of threads, its results in the order of the calls.
  unfoldable pub run_batch : List ℕ → List ToolCall → Exec S (List ToolExecution)
  unfolding run_slots await_slots get_all
  run_batch order calls s =
      let (slots, s₁) = run_slots order (map (λ call. (call, none)) calls) s in
      let (rs, s₂) = await_slots slots s₁ in (get_all rs, s₂)

  -- The batches from `offset` on, `parallelism` calls each. Where a thread could not be created, the
  -- threads that were are waited for and all calls that are left run one after the other.
  unfoldable pub run_batches :
      (ℕ → Batch)
      → (parallelism : ℕ) → (fuel offset : ℕ) → List ToolCall
      → Exec S (List ToolExecution)
  unfolding continue
  run_batches plan parallelism fuel offset [] = pure []
  run_batches plan parallelism zero offset (call ∷ calls) = pure []
  run_batches plan parallelism (suc fuel) offset (call ∷ calls) =
      let batch = take parallelism (call ∷ calls) in
      elim (failed_at (plan offset) (length batch)) [
        | some launched ↦ do
          started ← run_batch (plan offset).order (take launched (call ∷ calls))
          others ← execute_each (drop launched (call ∷ calls))
          pure (started ++ others)
        | none ↦ do
          xs ← run_batch (plan offset).order batch
          rest ←
              run_batches plan parallelism fuel (offset + parallelism)
                (drop parallelism (call ∷ calls))
          pure (xs ++ rest)
      ]

  -- Every batch takes a call at least, so as many rounds as there are calls are enough.
  unfoldable pub execute_tools : (ℕ → Batch) → List ToolCall → Exec S (List ToolExecution)
  unfolding execute_each run_batches
  execute_tools plan calls =
      if sequential client.options.parallel_tool_calls calls
      then execute_each calls
      else run_batches plan (min client.options.max_parallel_tool_calls (length calls))
          (length calls) 0 calls
