-- ===== src/Client/Generate.antt =====
-- The steps of `AIClient::generate` of src/client.cpp; the loop over them is in Client/Rounds.
-- While the lease is held nobody else writes the history
-- (Session/Exclusion), so the session changes only where the code below changes it.
use neural_plus.Prelude.{
  ℕ, ◌-◌, Bytes, lit, same, to_string, Bool, true, false, not, ◌&&◌, ◌||◌, List, [], ◌∷◌, ◌++◌,
  length, any, is_empty, is_some, min, ltb, if◌then◌else◌, pos,
}
use neural_plus.Outcome.{
  Error, is_std_exception, Result, ok, err, max_rounds_error, provider_error, throw_if, what,
}
use neural_plus.Outcome
use neural_plus.Exec.{Exec, pure, lift, modify, ◌>>=◌, ◌>>◌}
use neural_plus.Json.{boolean, unsigned, string}
use neural_plus.Types.Enums.{Role, finish_reason_to_string}
use neural_plus.Types.Message.{Message, ToolCall, message_text, set_provider_metadata}
use neural_plus.Types.Message
use neural_plus.Types.Records.{GenerateOptions, AiRequest, AiResponse}
use neural_plus.Session
use neural_plus.Session.{Session}
use neural_plus.Tracing.{TraceEvent, TraceEventType, TraceLevel, set_attribute}
use neural_plus.Client.Config.{AiClient}
use neural_plus.Client.Execute.{ToolExecution, World, make_event, trace}

-- `make_run_id`.
unfoldable pub make_run_id : {S : Type 0} → Exec (World S) Bytes
unfolding Session.next_id
make_run_id w = (
  ok (Session.next_id (lit "run-") w.next_run).0,
  record w { next_run = (Session.next_id (lit "run-") w.next_run).1 },
)

-- `session.append_from_client(message)`.
unfoldable pub append_message : {S : Type 0} → Message → Exec (World S) (Unit {0})
append_message m w = elim (Session.append_from_client m w.session) [
  | ok s ↦ (ok tt, record w { session = s })
  | err e ↦ (err e, w)
]

-- A callback, or a run of tools, over the state of the application.
unfoldable pub on_app : {S A : Type 0} → Exec S A → Exec (World S) A
on_app m w = let (r, s) = m w.app in (r, record w { app = s })

abbrev pub is_assistant : Role → Bool
is_assistant Role.assistant = true
is_assistant _ = false

-- The loop over the calls with the set of the ids that were seen.
unfoldable pub check_calls :
    Error → (Bytes → Error) → List Bytes → List ToolCall → Result (Unit {0})
check_calls nameless duplicate seen [] = ok tt
check_calls nameless duplicate seen (call ∷ calls) =
    Outcome.◌>>◌ (throw_if (is_empty call.id || is_empty call.name) nameless) (
      Outcome.◌>>◌ (throw_if (any (same call.id) seen) (duplicate call.id))
        (check_calls nameless duplicate (call.id ∷ seen) calls))

module _ {S : Type 0} (client : AiClient S) where
  abbrev pub malformed : Bytes → Bytes → Bytes → Error
  malformed request_id code message =
      provider_error message client.model.provider (pos 0) code request_id

  -- What `generate` requires of a response, with the tool calls that were made so far.
  unfoldable pub check_response : AiResponse → ℕ → Result (Unit {0})
  check_response response tool_calls =
      let bad = malformed response.provider_request_id in
      let limit = client.options.max_tool_calls_per_generation in
      Outcome.◌>>◌
        (throw_if (not (is_assistant response.message.role))
          (bad [] (lit "provider response message must have assistant role")))
        (Outcome.◌>>◌
          (throw_if (ltb (limit - min tool_calls limit) (length response.message.tool_calls)) (
            bad (lit "tool_call_limit")
              (lit "provider requested more tool calls than the configured generation limit")))
          (check_calls (bad [] (lit "provider returned a tool call without id or name"))
            (λ id. bad [] (lit "provider returned duplicate tool call id: " ++ id)) []
            response.message.tool_calls))

  unfoldable pub make_request : GenerateOptions → Session → Bytes → AiRequest
  make_request options session run_id = record {
    session_id = session.id;
    run_id = run_id;
    system_message = session.system_message;
    messages = session.messages;
    tools = client.tool_specs;
    options = record options {
      max_output_tokens =
          if not (is_some options.max_output_tokens) && is_some client.model.max_output_tokens
          then client.model.max_output_tokens
          else options.max_output_tokens;
    };
  }

  unfoldable pub round_name : ℕ → Bytes
  round_name round = lit "round-" ++ to_string round

  unfoldable pub provider_start : AiRequest → ℕ → TraceEvent
  unfolding round_name set_attribute
  provider_start request round =
      set_attribute (lit "tool_count") (unsigned (length request.tools)) (
        set_attribute (lit "message_count") (unsigned (length request.messages)) (
          set_attribute (lit "round") (unsigned round)
            (record (make_event TraceEventType.provider_start request.session_id request.run_id
              client.model.id) { operation_id = round_name round })))

  unfoldable pub provider_end : Bytes → Bytes → AiResponse → ℕ → TraceEvent
  unfolding round_name set_attribute
  provider_end session_id run_id response round =
      set_attribute (lit "provider_request_id") (string response.provider_request_id) (
        set_attribute (lit "requires_continuation") (boolean response.requires_continuation) (
          set_attribute (lit "tool_call_count") (unsigned (length response.message.tool_calls)) (
            set_attribute (lit "finish_reason")
              (string (finish_reason_to_string response.finish_reason))
              (set_attribute (lit "round") (unsigned round)
                (record (make_event TraceEventType.provider_end session_id run_id client.model.id) {
                  operation_id = round_name round;
                  payload =
                      if client.options.capture_trace_payloads
                      then message_text response.message
                      else [];
                })))))

  unfoldable pub generation_end : Bytes → Bytes → TraceLevel → ℕ → ℕ → Bytes → TraceEvent
  unfolding set_attribute
  generation_end session_id run_id level round tool_calls reason =
      set_attribute (lit "finish_reason") (string reason) (
        set_attribute (lit "tool_calls") (unsigned tool_calls) (
          set_attribute (lit "model_rounds") (unsigned round)
            (record (make_event TraceEventType.generation_end session_id run_id client.model.id) {
              level = level;
            })))

  unfoldable pub emit : TraceEvent → Exec (World S) (Unit {0})
  emit event = on_app (modify (trace client.tracers event))

-- The message for one execution: `Message::tool` with the metadata of the call.
unfoldable pub tool_result : ToolExecution → Result Message
tool_result x =
    Outcome.◌>>=◌ (Message.tool x.call.id x.call.name x.output.contents x.output.is_error)
      (λ m. ok (set_provider_metadata x.call.provider_metadata m))

-- The loop that appends the results.
unfoldable pub append_results : {S : Type 0} → List ToolExecution → Exec (World S) (Unit {0})
append_results [] = pure tt
append_results (x ∷ xs) = do
  message ← lift (tool_result x)
  append_message message
  append_results xs

abbrev pub saw_error : List ToolExecution → Bool
saw_error = any (λ x. x.output.is_error)
