-- ===== src/Client/Config.antt =====
-- The constructor of `AIClient`, with `valid_tool_name` and `validate_tool_spec` of src/client.cpp.
-- A `std::shared_ptr` is an `Option`, and `S` is the state that tools and tracers reach. The transport
-- of `ClientOptions` is read by the provider clients only.
pub mod Registry
pub mod Specs
pub mod Sorting
use neural_plus.Prelude.{
  ℕ, Bytes, lit, same, Bool, not, ◌&&◌, ◌||◌, Option, none, some, List, [], ◌∷◌, ◌++◌, length, all,
  is_empty, is_some, ltb, leb, ◌==◌, if◌then◌else◌,
}
use neural_plus.Outcome.{
  Result, ok, err, Error, configuration_error, json_exception, throw_if, ◌>>=◌, ◌>>◌,
}
use neural_plus.Json.{JsonValue, is_object, find, less}
use neural_plus.Types.Records.{ToolSpec, ModelDescriptor}
use neural_plus.Schema.{validate_schema_definition, get_string}
use neural_plus.Tool.{Tool, Function}
use neural_plus.Tracing.{Tracer}

pub record ClientOptions (S : Type 0) : Type 0 where
  pub tools : List (Option (Tool S))
  pub tracers : List (Option (Tracer S))
  pub max_model_rounds : ℕ
  pub parallel_tool_calls : Bool
  pub max_parallel_tool_calls : ℕ
  pub max_tool_calls_per_generation : ℕ
  pub stop_on_tool_error : Bool
  pub capture_trace_payloads : Bool

-- `RegisteredTool`: the specification is read once, when the tool is registered.
pub record RegisteredTool (S : Type 0) : Type 0 where
  pub implementation : Function S
  pub spec : ToolSpec

pub record AiClient (S : Type 0) : Type 0 where
  pub model : ModelDescriptor
  pub options : ClientOptions S
  -- `options_.tracers` after the test for null
  pub tracers : List (Tracer S)
  pub tools : List (Bytes × RegisteredTool S)
  pub tool_specs : List ToolSpec

unfoldable pub require_json_object : JsonValue → Bytes → Result (Unit {0})
require_json_object value field =
    throw_if (not (is_object value)) (configuration_error (field ++ lit " must be a JSON object"))

abbrev pub valid_character : ℕ → Bool
valid_character c =
    leb b'A' c && leb c b'Z'
    || leb b'a' c && leb c b'z'
    || leb b'0' c && leb c b'9'
    || c == b'_'
    || c == b'-'

unfoldable pub valid_tool_name : Bytes → Bool
valid_tool_name name = not (is_empty name || ltb 64 (length name)) && all valid_character name

-- `root_type == end() || root_type->get<std::string>() != "object"`.
unfoldable pub check_root : Option JsonValue → Bytes → Result (Unit {0})
check_root none name =
    err (
      configuration_error (lit "tool '" ++ (name ++ lit "' input_schema root type must be object")))
check_root (some v) name = do
  t ← get_string v
  throw_if (not (same t (lit "object"))) (
      configuration_error (lit "tool '" ++ (name ++ lit "' input_schema root type must be object")))

unfoldable pub validate_tool_spec : ToolSpec → Result (Unit {0})
unfolding require_json_object
validate_tool_spec spec = do
  throw_if (not (valid_tool_name spec.name))
      (configuration_error (lit "tool name must contain 1-64 ASCII letters, digits, '_' or '-'"))
  throw_if (is_empty spec.description)
      (configuration_error (lit "tool description must not be empty: " ++ spec.name))
  validate_schema_definition spec.input_schema (lit "tool '" ++ (spec.name ++ lit "' input_schema"))
  require_json_object spec.provider_options (lit "tool provider_options")
  check_root (find (lit "type") spec.input_schema) spec.name

-- `std::sort` by name. The names are distinct, so the order has one outcome.
unfoldable pub insert_spec : ToolSpec → List ToolSpec → List ToolSpec
insert_spec spec [] = spec ∷ []
insert_spec spec (t ∷ ts) =
    let later = t ∷ insert_spec spec ts in if less t.name spec.name then later else spec ∷ t ∷ ts

unfoldable pub sort_specs : List ToolSpec → List ToolSpec
unfolding insert_spec
sort_specs [] = []
sort_specs (t ∷ ts) = insert_spec t (sort_specs ts)

module _ {S : Type 0} where
  unfoldable pub check_tracers : List (Option (Tracer S)) → Result (List (Tracer S))
  check_tracers [] = ok []
  check_tracers (none ∷ ts) = err (configuration_error (lit "tracers must not contain null"))
  check_tracers (some t ∷ ts) = do rest ← check_tracers ts; ok (t ∷ rest)

  unfoldable pub find_tool : Bytes → List (Bytes × RegisteredTool S) → Option (RegisteredTool S)
  find_tool name [] = none
  find_tool name ((k, t) ∷ ts) = if same k name then some t else find_tool name ts

  -- The loop over `options_.tools`: the map and the specifications so far.
  unfoldable pub register :
      List (Option (Tool S))
      → List (Bytes × RegisteredTool S)
      → List ToolSpec
      → Result (List (Bytes × RegisteredTool S) × List ToolSpec)
  register [] tools specs = ok (tools, specs)
  register (none ∷ ts) tools specs = err (configuration_error (lit "tools must not contain null"))
  register (some t ∷ ts) tools specs = do
    validate_tool_spec t.spec
    throw_if (is_some (find_tool t.spec.name tools))
        (configuration_error (lit "duplicate tool: " ++ t.spec.name))
    register ts (tools ++ (t.spec.name, record { implementation = t.invoke; spec = t.spec }) ∷ [])
        (specs ++ t.spec ∷ [])

  -- The tests of the constructor above its loops.
  unfoldable pub check_limits : ModelDescriptor → ClientOptions S → Result (Unit {0})
  unfolding require_json_object
  check_limits model options = do
    throw_if (is_empty model.id) (configuration_error (lit "model id must not be empty"))
    require_json_object model.provider_options (lit "model provider_options")
    throw_if (options.max_model_rounds == 0)
        (configuration_error (lit "max_model_rounds must be greater than zero"))
    throw_if (options.max_parallel_tool_calls == 0)
        (configuration_error (lit "max_parallel_tool_calls must be greater than zero"))
    throw_if (options.max_tool_calls_per_generation == 0)
        (configuration_error (lit "max_tool_calls_per_generation must be greater than zero"))

  -- The test and the sort below its loops.
  unfoldable pub assemble :
      ModelDescriptor
      → ClientOptions S
      → List (Tracer S)
      → List (Bytes × RegisteredTool S) × List ToolSpec
      → Result (AiClient S)
  assemble model options tracers (tools, specs) = do
    throw_if (not (is_empty specs) && not model.capabilities.tools) (
        configuration_error
          (lit "tools were configured for a model that does not advertise tool support"))
    ok (record {
      model = model;
      options = options;
      tracers = tracers;
      tools = tools;
      tool_specs = sort_specs specs;
    })

  unfoldable pub construct : ModelDescriptor → ClientOptions S → Result (AiClient S)
  unfolding check_limits check_tracers register assemble
  construct model options = do
    check_limits model options
    tracers ← check_tracers options.tracers
    registry ← register options.tools [] []
    assemble model options tracers registry
