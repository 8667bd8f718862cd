-- ===== src/Client/Rounds.antt =====
-- The loop of `AIClient::generate` of src/client.cpp, the lease around it, and the `try` block that
-- traces an exception before it goes on. `generate_once` is the virtual function that a provider client
-- or a callback supplies; `plan` is what the environment does with the threads of each round.
-- `left` counts the rounds that `round <= max_model_rounds` still admits.
pub mod Results
pub mod Invariant
pub mod Transcript
pub mod Refusal
use neural_plus.Prelude.{
  ℕ, zero, suc, ◌+◌, Bytes, lit, Bool, true, false, not, ◌&&◌, ◌||◌, List, [], length, is_empty,
  ◌==◌, if◌then◌else◌,
}
use neural_plus.Outcome.{Error, is_std_exception, Result, ok, err, max_rounds_error, throw_if, what}
use neural_plus.Exec.{Exec, pure, throw, lift, continue, modify, ◌>>=◌, ◌>>◌}
use neural_plus.Json.{string}
use neural_plus.Types.Enums.{FinishReason, role_to_string, finish_reason_to_string}
use neural_plus.Types.Message.{Message, message_text}
use neural_plus.Types.Message
use neural_plus.Types.Records.{GenerateOptions, TokenUsage, no_usage, AiRequest, AiResponse}
use neural_plus.Session
use neural_plus.Session.{Session}
use neural_plus.Tracing.{TraceEvent, TraceEventType, TraceLevel, set_attribute}
use neural_plus.Client.Usage.{add_usage}
use neural_plus.Client.Config.{AiClient}
use neural_plus.Client.Input.{validate_input, validate_options}
use neural_plus.Client.Execute.{Library, ToolExecution, Batch, World, make_event, execute_tools}
use neural_plus.Client.Generate.{
  make_run_id, append_message, on_app, check_response, make_request, provider_start, provider_end,
  generation_end, emit, append_results, saw_error,
}

abbrev pub the_session : {S : Type 0} → Exec (World S) Session
the_session w = (ok w.session, w)

-- A provider client, or the callback of `FunctionAIClient`.
abbrev pub GenerateOnce : Type 0 → Type 0
GenerateOnce S = AiRequest → Exec S AiResponse

-- `requires_continuation`, or tool calls to answer.
abbrev pub needs_another_round : AiResponse → Bool
needs_another_round response =
    not (is_empty response.message.tool_calls) || response.requires_continuation

abbrev pub concluded : AiResponse → TokenUsage → ℕ → ℕ → AiResponse
concluded response usage round tool_calls = record response {
  usage = usage;
  model_rounds = round;
  tool_calls = tool_calls;
}

module _ {S : Type 0} where
  -- `RunLease`: its destructor releases the session however the function is left.
  unfoldable pub with_lease : Exec (World S) AiResponse → Exec (World S) AiResponse
  with_lease m w = elim (Session.acquire w.session) [
    | err e ↦ (err e, w)
    | ok s ↦
        let (r, w') = m (record w { session = s }) in
        (r, record w' { session = Session.release w'.session })
  ]

module _ {S : Type 0} (client : AiClient S) where
  -- The end of a generation whose last response asks for nothing more.
  unfoldable pub conclude : Bytes → ℕ → TokenUsage → ℕ → AiResponse → Exec (World S) AiResponse
  conclude run_id round usage tool_calls response = do
    session ← the_session
    emit client (
        generation_end client session.id run_id TraceLevel.info round tool_calls
          (finish_reason_to_string response.finish_reason))
    pure (concluded response usage round tool_calls)

  -- The end of a generation that stops on a tool error.
  unfoldable pub conclude_on_error :
      Bytes → ℕ → TokenUsage → ℕ → AiResponse → Exec (World S) AiResponse
  conclude_on_error run_id round usage tool_calls response = do
    session ← the_session
    emit client
        (generation_end client session.id run_id TraceLevel.warning round tool_calls (lit "error"))
    pure (concluded (record response { finish_reason = FinishReason.error }) usage round tool_calls)

  unfoldable pub generation_start : Bytes → Bytes → Message → TraceEvent
  generation_start session_id run_id input =
      set_attribute (lit "input_role") (string (role_to_string input.role))
        (record (make_event TraceEventType.generation_start session_id run_id client.model.id) {
          payload = if client.options.capture_trace_payloads then message_text input else [];
        })

module _ {S : Type 0} (lib : Library) (client : AiClient S) where
  -- The tools of one response, and their results in the history.
  unfoldable pub tool_round : (ℕ → Batch) → Bytes → AiResponse → Exec (World S) (List ToolExecution)
  tool_round plan run_id response = do
    session ← the_session
    executions ←
        on_app (execute_tools lib client session.id run_id plan response.message.tool_calls)
    append_results executions
    pure executions

  -- What follows an appended response: the end of the generation, or the next round, after the tools
  -- if the response calls any. `next` is the next round, from the number of tool calls so far.
  unfoldable pub answer :
      (ℕ → Batch)
      → Bytes
      → (round : ℕ) → TokenUsage
      → (tool_calls : ℕ) → AiResponse
      → (next : ℕ → Exec (World S) AiResponse) → Exec (World S) AiResponse
  answer plan run_id round usage tool_calls response next =
      if not (needs_another_round response)
      then conclude client run_id round usage tool_calls response
      else if is_empty response.message.tool_calls
      then next tool_calls
      else do
        executions ← tool_round plan run_id response
        if saw_error executions && client.options.stop_on_tool_error
            then conclude_on_error client run_id round usage (tool_calls + length executions)
                response
            else next (tool_calls + length executions)

  -- The events of the two `catch` clauses.
  unfoldable pub error_event : Bytes → Bytes → Error → TraceEvent
  error_event session_id run_id e =
      set_attribute (lit "category")
        (string (if is_std_exception e then lit "exception" else lit "unknown_exception"))
        (record (make_event TraceEventType.error session_id run_id client.model.id) {
          level = TraceLevel.error;
          payload =
              if client.options.capture_trace_payloads
              then (if is_std_exception e
                  then what lib.exception_text e
                  else lit "unknown generation error")
              else [];
        })

  unfoldable pub rethrow : Bytes → Result AiResponse × World S → Result AiResponse × World S
  rethrow run_id (ok response, w) = (ok response, w)
  rethrow run_id (err e, w) = (err e, (emit client (error_event w.session.id run_id e) w).1)

module _ {S : Type 0} (lib : Library) (client : AiClient S) (generate_once : GenerateOnce S) where
  -- From the request to `trace(provider_end)`: the response, and the usage with it.
  unfoldable pub provider_round :
      GenerateOptions → Bytes → ℕ → TokenUsage → ℕ → Exec (World S) (AiResponse × TokenUsage)
  provider_round options run_id round usage tool_calls = do
    session ← the_session
    let request = make_request client options session run_id
    emit client (provider_start client request round)
    response ← on_app (generate_once request)
    lift (check_response client response tool_calls)
    usage' ← lift (add_usage usage response.usage (round == 1))
    emit client (provider_end client session.id run_id response round)
    pure (response, usage')

  module _ (plan : ℕ → ℕ → Batch) (options : GenerateOptions) (run_id : Bytes) where
    unfoldable pub rounds : ℕ → ℕ → TokenUsage → ℕ → Exec (World S) AiResponse
    unfolding continue answer
    rounds zero round usage tool_calls =
        throw (max_rounds_error (lit "maximum model rounds exceeded without a final response"))
    rounds (suc left) round usage tool_calls = do
      (response, usage') ← provider_round options run_id round usage tool_calls
      lift (
          throw_if (needs_another_round response && round == client.options.max_model_rounds) (
            max_rounds_error
              (lit "maximum model rounds reached before provider continuation could be completed")))
      append_message response.message
      answer lib client (plan round) run_id round usage' tool_calls response
          (rounds left (round + 1) usage')

  unfoldable pub guarded_rounds :
      (ℕ → ℕ → Batch) → GenerateOptions → Bytes → Exec (World S) AiResponse
  guarded_rounds plan options run_id w =
      rethrow lib client run_id
        (rounds plan options run_id client.options.max_model_rounds 1 no_usage 0 w)

  -- What runs under the lease.
  unfoldable pub leased : (ℕ → ℕ → Batch) → Message → GenerateOptions → Exec (World S) AiResponse
  leased plan input options = do
    run_id ← make_run_id
    session ← the_session
    emit client (generation_start client session.id run_id input)
    append_message input
    guarded_rounds plan options run_id

  unfoldable pub generate : (ℕ → ℕ → Batch) → Message → GenerateOptions → Exec (World S) AiResponse
  unfolding leased
  generate plan input options = do
    lift (validate_input client.model input)
    lift (validate_options options)
    with_lease (leased plan input options)

  -- The overload that takes a text.
  unfoldable pub generate_text :
      (ℕ → ℕ → Batch) → Bytes → GenerateOptions → Exec (World S) AiResponse
  unfolding generate
  generate_text plan input options = generate plan (Message.user_text input) options
