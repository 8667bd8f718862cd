-- ===== src/Tests/Generation.antt =====
-- A run of `AIClient::generate` (src/client.cpp) with one tool and a model that calls it twice, under a
-- schedule that starts one of two threads.
use mathlib.Core.List.{Perm}
use neural_plus.Prelude.{
  ◌⊎◌, ℕ, zero, suc, Bytes, lit, ◌≡◌, refl, true, false, none, some, List, [], ◌∷◌, arith, same,
}
use neural_plus.Outcome.{Error, ok, err}
use neural_plus.Json.{string, object, end, member, find_member}
use neural_plus.Types.Content
use neural_plus.Types.Content.{Content, empty_object}
use neural_plus.Types.Message
use neural_plus.Types.Message.{Message, ToolCall}
use neural_plus.Types.Records.{
  ToolSpec, ModelDescriptor, AiResponse, response_of, default_model, default_capabilities,
  default_generate_options,
}
use neural_plus.Schema.{
  validate_schema_definition, definition_steps, check_type, supported_type, check_required,
  check_enum,
}
use neural_plus.Tool
use neural_plus.Tool.{Tool, Function}
use neural_plus.Client.Config.{
  ClientOptions, AiClient, construct, validate_tool_spec, valid_tool_name, check_root, sort_specs,
  find_tool,
}
use neural_plus.Client.Config
use neural_plus.Client.Config.Sorting.{IsSorted, specs_of, construct-IsSorted}
use neural_plus.Client.Config.Specs.{accepted_specs, names_agree}
use neural_plus.Client.Config.Registry.{IsConfigured, construct-IsConfigured}
use neural_plus.Client.Input.{validate_input, validate_part, validate_parts, validate_options}
use neural_plus.Client.Execute.{Library, Batch, World, execute_tools}
use neural_plus.Client.Execute.Guard.{IsHeld, Runs, tool_output_guarded}
use neural_plus.Client.Execute.Order.{Answers, execute_tools-Answers}
use neural_plus.Client.Rounds.{GenerateOnce, generate}
use neural_plus.Client.Rounds.Results.{start}
use neural_plus.Client.Rounds.Invariant.{Ends}
use neural_plus.Client.Rounds.Transcript.{with_input, generate-Ends}
use neural_plus.Client.Rounds.Refusal.{in_use, CallerError, generate_refused}

-- The application state counts the requests to the model.
abbrev lib : Library
lib = record { json_equal = λ v w. false; exception_text = λ e. [] }

abbrev clock : Function ℕ
clock context arguments s = (ok (Tool.text (lit "noon")), s)

abbrev clock_spec : ToolSpec
clock_spec = record {
  name = lit "clock";
  description = lit "tells the time";
  input_schema = object (member (lit "type") (string (lit "object")) end);
  provider_options = empty_object;
}

abbrev model : ModelDescriptor
model = record default_model {
  id = lit "m";
  capabilities = record default_capabilities { tools = true };
}

abbrev client_options : ClientOptions ℕ
client_options = record {
  tools = some (record { spec = clock_spec; invoke = clock }) ∷ [];
  tracers = [];
  max_model_rounds = 8;
  parallel_tool_calls = true;
  max_parallel_tool_calls = 4;
  max_tool_calls_per_generation = 64;
  stop_on_tool_error = false;
  capture_trace_payloads = false;
}

abbrev client : AiClient ℕ
client = record {
  model = model;
  options = client_options;
  tracers = [];
  tools = (lit "clock", record { implementation = clock; spec = clock_spec }) ∷ [];
  tool_specs = clock_spec ∷ [];
}

constructs : construct model client_options ≡ ok client
unfolding construct lit validate_tool_spec valid_tool_name validate_schema_definition
    definition_steps check_type find_member same supported_type check_required check_enum check_root
    find_tool sort_specs
constructs = refl

abbrev call : Bytes → ToolCall
call id = record {
  id = id;
  name = lit "clock";
  arguments = empty_object;
  raw_arguments = lit "{}";
  arguments_valid = true;
  provider_metadata = empty_object;
}

abbrev calls : List ToolCall
calls = call (lit "a") ∷ call (lit "b") ∷ []

-- The first response asks for both calls, and each later one ends the generation.
abbrev respond : ℕ → AiResponse
respond zero = response_of (Message.assistant_text [] calls)
respond (suc n) = response_of (Message.assistant_text (lit "it is noon") [])

abbrev generate_once : GenerateOnce ℕ
generate_once request n = (ok (respond n), suc n)

abbrev plan : ℕ → ℕ → Batch
plan round offset = record { order = 1 ∷ 0 ∷ []; launched = some 1 }

abbrev hello : Message
hello = Message.user_text (lit "what time is it?")

abbrev idle : World ℕ
idle = record {
  session = record { id = lit "s"; system_message = none; messages = []; active = false };
  app = 0;
  next_run = 1;
}

abbrev busy : World ℕ
busy = record idle {
  session = record { id = lit "s"; system_message = none; messages = []; active = true };
}

construct-IsConfigured_example : IsConfigured client
construct-IsConfigured_example = construct-IsConfigured model client_options client constructs

takes_hello : validate_input client.model hello ≡ ok tt
unfolding validate_input validate_part validate_parts lit Message.user_text Content.text
takes_hello = refl

takes_options : validate_options default_generate_options ≡ ok tt
unfolding validate_options
takes_options = refl

no_calls : hello.tool_calls ≡ []
unfolding Message.user_text
no_calls = refl

generate-Ends_example :
    Ends client
      (with_input hello idle.session)
      (generate lib client generate_once plan hello default_generate_options idle)
generate-Ends_example =
    generate-Ends lib client generate_once
      (construct-IsConfigured model client_options client constructs) plan hello
      default_generate_options idle refl start no_calls takes_hello takes_options

generate_refused_example :
    (e : Error) × (generate lib client generate_once plan hello default_generate_options busy
      ≡ (err e, busy))
    × CallerError e
generate_refused_example =
    generate_refused lib client generate_once plan hello default_generate_options busy (in_use refl)

execute_tools-Answers_example :
    Answers (execute_tools lib client (lit "s") (lit "run-1") (plan 1) calls 0).0 calls
execute_tools-Answers_example =
    execute_tools-Answers lib client (lit "s") (lit "run-1")
      (construct-IsConfigured model client_options client constructs).ready (omega arith) (plan 1)
      calls 0

accepts_clock : Config.validate_tool_spec clock_spec ≡ ok tt
unfolding Config.validate_tool_spec valid_tool_name validate_schema_definition definition_steps
    check_type find_member same supported_type check_required check_enum check_root lit
accepts_clock = refl

names_agree_example :
    valid_tool_name (lit "get-time_2") ≡ Tool.is_portable_tool_name (lit "get-time_2")
names_agree_example = names_agree (lit "get-time_2")

accepted_specs_example : Tool.validate_tool_spec clock_spec ≡ ok tt
accepted_specs_example = accepted_specs clock_spec accepts_clock

tool_output_guarded_example :
    IsHeld lib client (lit "s") (lit "run-1") (call (lit "a")) 0
    ⊎ Runs lib client (lit "s") (lit "run-1") (call (lit "a")) 0
tool_output_guarded_example =
    tool_output_guarded lib client (lit "s") (lit "run-1")
      (construct-IsConfigured model client_options client constructs).ready (call (lit "a")) 0

construct-IsSorted_example :
    IsSorted client.tool_specs × Perm client.tool_specs (specs_of client_options.tools)
construct-IsSorted_example = construct-IsSorted model client_options client constructs
