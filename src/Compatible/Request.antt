-- ===== src/Compatible/Request.antt =====
-- The requests of src/providers/openai_compatible.cpp: history, tools and options as JSON.
pub mod Fixed
use neural_plus.Prelude.{
  ℕ, Bytes, lit, same, Bool, true, false, not, ◌&&◌, ◌||◌, Option, none, some, List, [], ◌∷◌, ◌++◌,
  is_empty, is_some, map, if◌then◌else◌,
}
use neural_plus.Outcome.{
  Result, ok, err, configuration_error, json_exception, provider_error, throw_if, ◌>>=◌, ◌>>◌,
}
use neural_plus.Prelude.{pos}
use neural_plus.Json.{
  JsonValue, null, boolean, string, unsigned, float, array, object, Members, end, is_array,
  elements, elements_of, find, find_member, put_member, json_object,
}
use neural_plus.Types.Enums.{Provider, Role, ContentType, ContentSource}
use neural_plus.Types.Content.{Content}
use neural_plus.Types.Message.{Message, ToolCall, message_text}
use neural_plus.Types.Records.{ModelDescriptor, ToolSpec, GenerateOptions, AiRequest}
use neural_plus.Provider.Base64.{base64_encode}
use neural_plus.Provider.Fields.{
  string_field, data_url, chat_audio_format, merged_provider_options, throw_unsupported_content,
}
use neural_plus.Provider.Fields.{assign, elements_or_none, put_optional, members_of}
use neural_plus.Provider.History.{system_lines, text_or_empty}
use neural_plus.Compatible.Parts.{
  the_provider, compatible, native_message, is_text_value, compatible_message_content,
}

unfoldable pub compatible_system_instruction : AiRequest → Bytes
unfolding system_lines
compatible_system_instruction request =
    system_lines request.messages (text_or_empty request.system_message)

unfoldable pub tool_texts : List Content → Result Bytes
unfolding throw_unsupported_content
tool_texts [] = ok []
tool_texts (c ∷ cs) =
    let rest = tool_texts cs >>= (λ text. ok (c.value ++ text)) in
    if is_text_value c then rest else throw_unsupported_content the_provider c

unfoldable pub compatible_tool_content : Message → Result Bytes
compatible_tool_content message = tool_texts message.contents

-- What is sent of the audio of a response is its id.
abbrev pub replay_audio : Members → Option JsonValue → Result JsonValue
replay_audio ms (some (object audio)) =
    let id = string_field (object audio) (lit "id") in
    if is_empty id
    then err (
        provider_error (lit "OpenAI-compatible audio history is missing its id") the_provider
          (pos 0) (lit "malformed_response") [])
    else ok (object (put_member (lit "audio") (json_object ((lit "id", string id) ∷ [])) ms))
replay_audio ms _ = ok (object ms)

abbrev pub is_true : Option JsonValue → Bool
is_true (some (boolean b)) = b
is_true _ = false

unfoldable pub tool_message : Message → Bytes → JsonValue
unfolding put_member lit find_member
tool_message message text =
    if is_true (find (lit "legacy_function_call") message.provider_metadata)
    then json_object (
        (lit "role", string (lit "function"))
        ∷ (lit "name", string message.tool_name)
        ∷ (lit "content", string text)
        ∷ [])
    else json_object (
        (lit "role", string (lit "tool"))
        ∷ (lit "tool_call_id", string message.tool_call_id)
        ∷ (lit "content", string text)
        ∷ [])

unfoldable pub call_json : ToolCall → JsonValue
unfolding put_member lit
call_json call = json_object (
    (lit "id", string call.id)
    ∷ (lit "type", string (lit "function"))
    ∷ (
      lit "function",
      json_object
          ((lit "name", string call.name) ∷ (lit "arguments", string call.raw_arguments) ∷ []),
    )
    ∷ [])

-- A message of the user, or of an assistant whose metadata is of no compatible server.
unfoldable pub plain_message : Bytes → JsonValue → List ToolCall → JsonValue
unfolding put_member lit call_json
plain_message role content calls = json_object (
    (lit "role", string role)
    ∷ (lit "content", content)
    ∷ (if is_empty calls
        then []
        else (lit "tool_calls", array (elements_of (map call_json calls))) ∷ []))

-- What `append_compatible_history` appends for a message.
unfoldable pub history_of : Message → Result (List JsonValue)
unfolding native_message compatible_tool_content tool_message compatible_message_content
    plain_message string_field put_member
history_of message = elim message.role [
  | Role.system ↦ ok []
  | Role.tool ↦ (do text ← compatible_tool_content message; ok (tool_message message text ∷ []))
  | Role.user ↦ (do
    content ← compatible_message_content message
    ok (plain_message (lit "user") content [] ∷ []))
  | Role.assistant ↦ elim (native_message message) [
    | some ms ↦ (do native ← replay_audio ms (find_member (lit "audio") ms); ok (native ∷ []))
    | none ↦ (do
      content ← compatible_message_content message
      ok (plain_message (lit "assistant") content message.tool_calls ∷ []))
  ]
]

unfoldable pub history : List Message → Result (List JsonValue)
unfolding history_of
history [] = ok []
history (m ∷ ms) = do first ← history_of m; rest ← history ms; ok (first ++ rest)

unfoldable pub declaration : ToolSpec → Result JsonValue
unfolding put_member lit
declaration tool = do
  named ← assign (lit "name") (string tool.name) tool.provider_options
  described ← assign (lit "description") (string tool.description) named
  full ← assign (lit "parameters") tool.input_schema described
  ok (json_object ((lit "type", string (lit "function")) ∷ (lit "function", full) ∷ []))

unfoldable pub declarations : List ToolSpec → Result (List JsonValue)
unfolding declaration
declarations [] = ok []
declarations (t ∷ ts) = do first ← declaration t; rest ← declarations ts; ok (first ∷ rest)

abbrev pub check_tools : Option JsonValue → Result (Unit {0})
check_tools none = ok tt
check_tools (some v) =
    throw_if (not (is_array v))
      (configuration_error (lit "OpenAI-compatible tools provider option must be an array"))

-- The tools of the options, and then those of the request.
unfoldable pub append_tools : List ToolSpec → Members → Result Members
unfolding put_member find_member declarations lit
append_tools [] body = ok body
append_tools (t ∷ tools) body = do
  made ← declarations (t ∷ tools)
  ok (
      put_member (lit "tools")
        (array (elements_of (elements_or_none (find_member (lit "tools") body) ++ made))) body)

unfoldable pub add_tools : List ToolSpec → Members → Result Members
unfolding append_tools find_member lit
add_tools tools body = check_tools (find_member (lit "tools") body) >> append_tools tools body

abbrev pub system_messages : Bytes → List JsonValue
system_messages system =
    if is_empty system
    then []
    else json_object ((lit "role", string (lit "system")) ∷ (lit "content", string system) ∷ [])
      ∷ []

-- The options with the members that the client sets itself.
unfoldable pub base_body : Members → Bytes → Bytes → List JsonValue → Members
unfolding put_member lit
base_body merged model_id system messages =
    put_member (lit "messages") (array (elements_of (system_messages system ++ messages))) (
      put_member (lit "stream") (boolean false) (put_member (lit "model") (string model_id) merged))

abbrev pub with_limits : GenerateOptions → Members → Members
with_limits options body =
    put_optional (lit "temperature")
      (elim options.temperature [ none ↦ none | some t ↦ some (float t) ])
      (put_optional (lit "max_tokens")
        (elim options.max_output_tokens [ none ↦ none | some n ↦ some (unsigned n) ]) body)

unfoldable pub make_compatible_request : ModelDescriptor → AiRequest → Result JsonValue
unfolding merged_provider_options compatible_system_instruction history add_tools base_body
    put_member
make_compatible_request model request = do
  merged ← merged_provider_options model.provider_options request.options.provider_options
  messages ← history request.messages
  body ←
      add_tools request.tools
        (base_body (members_of merged) model.id (compatible_system_instruction request) messages)
  ok (object (with_limits request.options body))
