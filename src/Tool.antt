-- ===== src/Tool.antt =====
-- include/neuralplus/tool.hpp and src/tool.cpp. `S` is the state of the application that a tool can
-- reach, the session's cache among it; a tool's function takes it and gives it back, also on a throw.
use neural_plus.Prelude.{
  ℕ, Bytes, lit, same, Bool, true, false, not, ◌&&◌, ◌||◌, Option, none, some, List, [], ◌∷◌,
  length, is_empty, leb, ltb, ◌==◌, if◌then◌else◌,
}
use neural_plus.Outcome.{Result, ok, err, invalid_argument, throw_if, ◌>>◌}
use neural_plus.Json.{JsonValue, string, array, is_object, elements, find}
use neural_plus.Types.Content
use neural_plus.Types.Content.{Content}
use neural_plus.Types.Records.{ToolSpec}

pub record ToolContext : Type 0 where
  pub session_id : Bytes
  pub run_id : Bytes
  pub call_id : Bytes

pub record ToolOutput : Type 0 where
  pub contents : List Content
  pub is_error : Bool

unfoldable pub text : Bytes → ToolOutput
text value = record { contents = Content.text value ∷ []; is_error = false }

-- `dump` of the JSON library is a parameter.
unfoldable pub json : (JsonValue → Bytes) → JsonValue → ToolOutput
unfolding text
json dump value = text (dump value)

unfoldable pub error : Bytes → ToolOutput
unfolding text
error value = record (text value) { is_error = true }

abbrev pub Function : Type 0 → Type 0
Function S = ToolContext → JsonValue → S → Result ToolOutput × S

pub record Tool (S : Type 0) : Type 0 where
  pub spec : ToolSpec
  pub invoke : Function S

abbrev between : ℕ → ℕ → ℕ → Bool
between lo hi c = leb lo c && leb c hi

unfoldable pub ascii_alphanumeric : ℕ → Bool
ascii_alphanumeric c = between b'A' b'Z' c || between b'a' b'z' c || between b'0' b'9' c

-- The loop of `is_portable_tool_name`, which leaves at the first other character.
unfoldable pub portable_characters : Bytes → Bool
unfolding ascii_alphanumeric
portable_characters [] = true
portable_characters (c ∷ cs) =
    if not (ascii_alphanumeric c) && (not (c == b'_') && not (c == b'-'))
    then false
    else portable_characters cs

unfoldable pub is_portable_tool_name : Bytes → Bool
is_portable_tool_name name =
    if is_empty name || ltb 64 (length name) then false else portable_characters name

abbrev pub bad_entry : JsonValue → Bool
bad_entry (string s) = is_empty s
bad_entry _ = true

unfoldable pub validate_required_entries : List JsonValue → Result (Unit {0})
validate_required_entries [] = ok tt
validate_required_entries (name ∷ names) = do
  throw_if (bad_entry name)
      (invalid_argument (lit "tool input_schema.required entries must be non-empty strings"))
  validate_required_entries names

unfoldable pub validate_required : JsonValue → Result (Unit {0})
unfolding validate_required_entries
validate_required (array es) = validate_required_entries (elements es)
validate_required _ = err (invalid_argument (lit "tool input_schema.required must be a JSON array"))

abbrev pub is_object_type : Option JsonValue → Bool
is_object_type (some (string t)) = same t (lit "object")
is_object_type _ = false

abbrev pub object_or_absent : Option JsonValue → Bool
object_or_absent none = true
object_or_absent (some v) = is_object v

abbrev pub required_or_absent : Option JsonValue → Result (Unit {0})
required_or_absent none = ok tt
required_or_absent (some v) = validate_required v

unfoldable pub validate_tool_spec : ToolSpec → Result (Unit {0})
validate_tool_spec spec = do
  throw_if (not (is_portable_tool_name spec.name))
      (invalid_argument (lit "tool name must contain 1-64 ASCII letters, digits, '_' or '-'"))
  throw_if (is_empty spec.description) (invalid_argument (lit "tool description must not be empty"))
  throw_if (not (is_object spec.input_schema))
      (invalid_argument (lit "tool input_schema must be a JSON object"))
  throw_if (not (is_object spec.provider_options))
      (invalid_argument (lit "tool provider_options must be a JSON object"))
  throw_if (not (is_object_type (find (lit "type") spec.input_schema)))
      (invalid_argument (lit "tool input_schema root type must be 'object'"))
  throw_if (not (object_or_absent (find (lit "properties") spec.input_schema)))
      (invalid_argument (lit "tool input_schema.properties must be a JSON object"))
  required_or_absent (find (lit "required") spec.input_schema)

-- `FunctionTool::invoke`.
unfoldable pub invoke_function : {S : Type 0} → Function S → Function S
invoke_function f context arguments s =
    if is_object arguments
    then f context arguments s
    else (err (invalid_argument (lit "tool arguments must be a JSON object")), s)

-- The constructor of `FunctionTool`; an empty `std::function` is `none`.
unfoldable pub function_tool : {S : Type 0} → ToolSpec → Option (Function S) → Result (Tool S)
unfolding invoke_function
function_tool spec none = do
  validate_tool_spec spec
  err (invalid_argument (lit "tool function must not be empty"))
function_tool spec (some f) = do
  validate_tool_spec spec
  ok (record { spec = spec; invoke = invoke_function f })
