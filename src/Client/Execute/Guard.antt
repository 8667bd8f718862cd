-- ===== src/Client/Execute/Guard.antt =====
-- When `execute_tool` of src/client.cpp lets a tool run.
use neural_plus.Prelude.{
  Bytes, lit, ◌≡◌, refl, true, Bool-cases, ◌⊎◌, inl, inr, some, Option-cases, [], ◌∷◌,
}
use neural_plus.Outcome.{Result, ok, err}
use neural_plus.Exec.{continue}
use neural_plus.Types.Message.{ToolCall}
use neural_plus.Schema.{validate_value_against_schema}
use neural_plus.Schema.Totality.{validated_schema_never_throws}
use neural_plus.Tool
use neural_plus.Tool.{ToolOutput, ToolContext, Function}
use neural_plus.Client.Config.Registry.{IsReady}
use neural_plus.Client.Config.{AiClient, RegisteredTool, find_tool}
use neural_plus.Client.Execute.{Library, tool_output, invoke_tool, settle}

-- The call was answered with an error, and without an exception.
abbrev pub IsErrorOutput : Result (ToolOutput × Bytes) → Type 0
IsErrorOutput (ok (output, diagnostic)) = output.is_error ≡ true
IsErrorOutput (err e) = ⊥

module _ {S : Type 0} (lib : Library) (client : AiClient S) (session_id run_id : Bytes) where
  abbrev pub context_of : ToolCall → ToolContext
  context_of call = record { session_id = session_id; run_id = run_id; call_id = call.id }

  -- The tool that runs, and what its run gives.
  pub record Runs (call : ToolCall) (s : S) : Type 0 where
    pub tool : RegisteredTool S
    pub found : find_tool call.name client.tools ≡ some tool
    pub parsed : call.arguments_valid ≡ true
    pub conforming :
        validate_value_against_schema lib.json_equal tool.spec.input_schema call.arguments (lit "$")
        ≡ ok []
    pub outcome : tool_output lib client session_id run_id call s ≡ (
      ok (
          settle lib client session_id run_id call.name
            (tool.implementation (context_of call) call.arguments s).0),
      (tool.implementation (context_of call) call.arguments s).1,
    )

  abbrev pub IsHeld : ToolCall → S → Type 0
  IsHeld call s =
      ((tool_output lib client session_id run_id call s).1 ≡ s)
      × IsErrorOutput (tool_output lib client session_id run_id call s).0

  checked :
      (call : ToolCall) (tool : RegisteredTool S) (problem : Bytes) (s : S)
      → find_tool call.name client.tools ≡ some tool
      → call.arguments_valid ≡ true
      → validate_value_against_schema lib.json_equal tool.spec.input_schema call.arguments (lit "$")
        ≡ ok problem
      → IsHeld call s ⊎ Runs call s
  unfolding tool_output continue invoke_tool
  checked call tool [] s found parsed h = inr (record {
    tool = tool;
    found = found;
    parsed = parsed;
    conforming = h;
    outcome = rw (found, tool_output) (rw (parsed, tool_output) (rw (h, tool_output) refl));
  })
  checked call tool (b ∷ bs) s found parsed h = inl (
      rw (found, tool_output)
        (rw (parsed, tool_output) (rw (h, tool_output) (refl, unfold Tool.error in refl))))

  -- Where the client's tools have accepted schemas, a call runs a tool only if its name is registered, its
  -- arguments were parsed, and they conform to the tool's schema; the output is then what the
  -- tool's run settles to. Every other call is answered with an error output, throws nothing and
  -- leaves the state of the application as it was.
  pub tool_output_guarded : IsReady client → (call : ToolCall) (s : S) → IsHeld call s ⊎ Runs call s
  unfolding tool_output
  tool_output_guarded ready call s = elim (Option-cases (find_tool call.name client.tools)) [
    | inl unknown ↦ inl (rw (unknown, tool_output) (refl, unfold Tool.error in refl))
    | inr (tool, found) ↦ elim (Bool-cases call.arguments_valid) [
      | inr unparsed ↦
          inl
            (rw (found, tool_output) (rw (unparsed, tool_output) (refl, unfold Tool.error in refl)))
      | inl parsed ↦
          let (location, defined) = ready call.name tool found in
          let (problem, h) =
            validated_schema_never_throws lib.json_equal tool.spec.input_schema location
              call.arguments (lit "$") defined in
          checked call tool problem s found parsed h
    ]
  ]
