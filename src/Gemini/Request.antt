-- ===== src/Gemini/Request.antt =====
-- The requests of src/providers/gemini.cpp: messages as turns, tools and options as JSON.
use neural_plus.Prelude.{
  Bytes, lit, same, Bool, true, false, not, Option, none, some, List, [], ◌∷◌, ◌++◌, is_empty, map,
  if◌then◌else◌,
}
use neural_plus.Outcome.{Result, ok, err, configuration_error, throw_if, ◌>>=◌, ◌>>◌}
use neural_plus.Json.{
  JsonValue, string, unsigned, float, array, object, Members, end, is_array, elements, elements_of,
  find, find_member, put_member, json_object,
}
use neural_plus.Types.Enums.{Role}
use neural_plus.Types.Message.{Message, ToolCall}
use neural_plus.Types.Records.{ModelDescriptor, ToolSpec, GenerateOptions, AiRequest}
use neural_plus.Provider.Redact.{JsonText}
use neural_plus.Provider.Fields.{
  string_field, merged_provider_options, assign, elements_or_none, put_optional, members_of,
  members_or,
}
use neural_plus.Provider.History.{system_lines, text_or_empty}
use neural_plus.Gemini.Parts.{
  gemini, gemini_parts, gemini_tool_response, gemini_tool_response_parts,
}

-- The content of a candidate that its message keeps.
unfoldable pub native_content : Message → Option Members
unfolding string_field lit find_member
native_content message =
    if same (string_field message.provider_metadata (lit "provider")) gemini
    then members_or (find (lit "content") message.provider_metadata)
    else none

-- A turn of the conversation.
unfoldable pub turn : Bytes → List JsonValue → JsonValue
unfolding put_member lit
turn role parts =
    json_object ((lit "role", string role) ∷ (lit "parts", array (elements_of parts)) ∷ [])

-- The last turn with the parts, where it is of the role; otherwise a turn after it.
unfoldable pub extend_turn : JsonValue → Bytes → List JsonValue → List JsonValue
unfolding turn string_field find_member put_member lit
extend_turn (object ms) role parts =
    let apart = object ms ∷ turn role parts ∷ [] in
    if same (string_field (object ms) (lit "role")) role
    then elim (find_member (lit "parts") ms) [
      | some (array es) ↦
          object (put_member (lit "parts") (array (elements_of (elements es ++ parts))) ms) ∷ []
      | _ ↦ apart
    ]
    else apart
extend_turn last role parts = last ∷ turn role parts ∷ []

unfoldable pub append_gemini_turn : List JsonValue → Bytes → List JsonValue → List JsonValue
unfolding extend_turn turn
append_gemini_turn [] role parts = turn role parts ∷ []
append_gemini_turn (m ∷ []) role parts = extend_turn m role parts
append_gemini_turn (m ∷ n ∷ ms) role parts = m ∷ append_gemini_turn (n ∷ ms) role parts

-- The role and the parts of the content of a candidate; without parts there is no turn.
unfoldable pub native_turn : Members → Option (Bytes × List JsonValue)
unfolding string_field find_member lit
native_turn native = elim (find_member (lit "parts") native) [
  | some (array es) ↦
      let role = string_field (object native) (lit "role") in
      some ((if is_empty role then lit "model" else role), elements es)
  | _ ↦ none
]

-- Whether the provider gave the call of a tool's message its id.
unfoldable pub provider_supplied_id : Message → Bool
unfolding string_field find_member lit
provider_supplied_id message = elim (find (lit "functionCall") message.provider_metadata) [
  | some (object call) ↦ not (is_empty (string_field (object call) (lit "id")))
  | _ ↦ false
]

unfoldable pub function_response : JsonText → Message → List JsonValue → JsonValue
unfolding gemini_tool_response provider_supplied_id put_member lit
function_response json message response_parts = json_object (
    (
      lit "functionResponse",
      json_object (
          (lit "name", string message.tool_name)
          ∷ (lit "response", gemini_tool_response json message)
          ∷ ((if provider_supplied_id message
                then (lit "id", string message.tool_call_id) ∷ []
                else [])
              ++ (if is_empty response_parts
                  then []
                  else (lit "parts", array (elements_of response_parts)) ∷ []))),
    )
    ∷ [])

unfoldable pub call_part : ToolCall → JsonValue
unfolding find_member put_member lit
call_part call = elim (find (lit "functionCall") call.provider_metadata) [
  | some v ↦ call.provider_metadata
  | none ↦ json_object (
      (
        lit "functionCall",
        json_object (
            (lit "name", string call.name)
            ∷ (lit "args", call.arguments)
            ∷ (if is_empty call.id then [] else (lit "id", string call.id) ∷ [])),
      )
      ∷ [])
]

-- The role and the parts of the turn of a message, where it has one.
unfoldable pub turn_of : JsonText → Message → Result (Option (Bytes × List JsonValue))
unfolding native_content native_turn gemini_parts gemini_tool_response_parts function_response
    call_part lit
turn_of json message = elim message.role [
  | Role.system ↦ ok none
  | Role.tool ↦ (do
    response_parts ← gemini_tool_response_parts message.contents
    ok (some (lit "user", function_response json message response_parts ∷ [])))
  | Role.user ↦ (do parts ← gemini_parts message.contents; ok (some (lit "user", parts)))
  | Role.assistant ↦ elim (native_content message) [
    | some native ↦ ok (native_turn native)
    | none ↦ (do
      parts ← gemini_parts message.contents
      ok (some (lit "model", parts ++ map call_part message.tool_calls)))
  ]
]

abbrev pub append_some : List JsonValue → Option (Bytes × List JsonValue) → List JsonValue
append_some turns none = turns
append_some turns (some (role, parts)) = append_gemini_turn turns role parts

-- The loop over the messages, with the turns so far.
unfoldable pub append_gemini_history :
    JsonText → List JsonValue → List Message → Result (List JsonValue)
unfolding turn_of append_gemini_turn
append_gemini_history json turns [] = ok turns
append_gemini_history json turns (m ∷ ms) = do
  added ← turn_of json m
  append_gemini_history json (append_some turns added) ms

unfoldable pub gemini_system_instruction : AiRequest → Bytes
unfolding system_lines
gemini_system_instruction request =
    system_lines request.messages (text_or_empty request.system_message)

abbrev pub instruction : Bytes → Option JsonValue
instruction system =
    if is_empty system
    then none
    else some (
        json_object (
          (lit "parts", array (elements_of (json_object ((lit "text", string system) ∷ []) ∷ [])))
          ∷ []))

unfoldable pub declaration : ToolSpec → Result JsonValue
unfolding put_member lit
declaration tool = do
  named ← assign (lit "name") (string tool.name) tool.provider_options
  described ← assign (lit "description") (string tool.description) named
  assign (lit "parameters") tool.input_schema described

unfoldable pub declarations : List ToolSpec → Result (List JsonValue)
unfolding declaration
declarations [] = ok []
declarations (t ∷ ts) = do first ← declaration t; rest ← declarations ts; ok (first ∷ rest)

abbrev pub check_tools : Option JsonValue → Result (Unit {0})
check_tools none = ok tt
check_tools (some v) =
    throw_if (not (is_array v))
      (configuration_error (lit "Gemini tools provider option must be an array"))

-- All declarations are one element of the tools.
unfoldable pub add_tools : List ToolSpec → Members → Result Members
unfolding declarations find_member put_member lit
add_tools [] body = check_tools (find_member (lit "tools") body) >> ok body
add_tools (t ∷ tools) body = do
  check_tools (find_member (lit "tools") body)
  made ← declarations (t ∷ tools)
  ok (
      put_member (lit "tools")
        (array (
          elements_of (
            elements_or_none (find_member (lit "tools") body)
            ++ json_object ((lit "functionDeclarations", array (elements_of made)) ∷ []) ∷ [])))
        body)

-- The generation config with the limits of a request.
unfoldable pub with_limits : GenerateOptions → Members → Members
unfolding put_member lit
with_limits options config =
    put_optional (lit "temperature")
      (elim options.temperature [ none ↦ none | some t ↦ some (float t) ])
      (put_optional (lit "maxOutputTokens")
        (elim options.max_output_tokens [ none ↦ none | some n ↦ some (unsigned n) ]) config)

abbrev pub has_limits : GenerateOptions → Bool
has_limits options = elim options.max_output_tokens [
  | some n ↦ true
  | none ↦ elim options.temperature [ some t ↦ true | none ↦ false ]
]

abbrev pub generation_config : Option JsonValue → Result Members
generation_config none = ok end
generation_config (some (object config)) = ok config
generation_config (some _) =
    err (configuration_error (lit "Gemini generationConfig provider option must be an object"))

unfoldable pub limit_generation : GenerateOptions → Members → Result Members
unfolding with_limits find_member put_member lit
limit_generation options body =
    if has_limits options
    then (do
      config ← generation_config (find_member (lit "generationConfig") body)
      ok (put_member (lit "generationConfig") (object (with_limits options config)) body))
    else ok body

unfoldable pub make_gemini_request : JsonText → ModelDescriptor → AiRequest → Result JsonValue
unfolding merged_provider_options append_gemini_history gemini_system_instruction add_tools
    limit_generation put_member lit
make_gemini_request json model request = do
  merged ← merged_provider_options model.provider_options request.options.provider_options
  contents ← append_gemini_history json [] request.messages
  tooled ← add_tools request.tools (
      put_optional (lit "systemInstruction") (instruction (gemini_system_instruction request))
        (put_member (lit "contents") (array (elements_of contents)) (members_of merged)))
  body ← limit_generation request.options tooled
  ok (object body)
