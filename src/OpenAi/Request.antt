-- ===== src/OpenAi/Request.antt =====
-- The requests of src/providers/openai.cpp: the input items of the history, tools and options as JSON.
pub mod Fixed
use neural_plus.Prelude.{
  Bytes, lit, same, Bool, true, false, not, Option, none, some, List, [], ◌∷◌, ◌++◌, is_empty, map,
  if◌then◌else◌,
}
use neural_plus.Outcome.{Result, ok, configuration_error, throw_if, ◌>>=◌, ◌>>◌}
use neural_plus.Json.{
  JsonValue, boolean, string, unsigned, float, array, object, Elements, Members, is_array, elements,
  elements_of, find, find_member, put_member, json_object,
}
use neural_plus.Types.Enums.{Provider, Role, ContentType, ContentSource}
use neural_plus.Types.Content.{Content}
use neural_plus.Types.Message.{Message, ToolCall}
use neural_plus.Types.Records.{ModelDescriptor, ToolSpec, AiRequest, GenerateOptions}
use neural_plus.Provider.Fields.{
  string_field, data_url, merged_provider_options, throw_unsupported_content, assign,
  elements_or_none, put_optional, members_of,
}

abbrev pub the_provider : Provider
the_provider = Provider.openai

abbrev pub openai : Bytes
openai = lit "openai"

-- The output items of a response that its message keeps.
unfoldable pub native_output : Message → Option Elements
unfolding string_field lit find_member
native_output message =
    if same (string_field message.provider_metadata (lit "provider")) openai
    then elim (find (lit "output") message.provider_metadata) [
      | some (array es) ↦ some es
      | _ ↦ none
    ]
    else none

abbrev pub detail_members : Option JsonValue → List (Bytes × JsonValue)
detail_members (some (string detail)) = (lit "detail", string detail) ∷ []
detail_members _ = []

unfoldable pub image_part : Content → Bytes → JsonValue
unfolding put_member lit find_member
image_part content url = json_object (
    (lit "type", string (lit "input_image"))
    ∷ (lit "image_url", string url)
    ∷ detail_members (find (lit "detail") content.options))

-- A file under the key for its source.
unfoldable pub file_part : Content → Bytes → Bytes → JsonValue
unfolding put_member lit
file_part content key text = json_object (
    (lit "type", string (lit "input_file"))
    ∷ (key, string text)
    ∷ (if is_empty content.filename then [] else (lit "filename", string content.filename) ∷ []))

unfoldable pub openai_input_part : Content → Result JsonValue
unfolding image_part file_part data_url throw_unsupported_content put_member lit
openai_input_part content = elim content.type [
  | ContentType.text ↦ elim content.source [
    | ContentSource.value ↦ ok (
        json_object
          ((lit "type", string (lit "input_text")) ∷ (lit "text", string content.value) ∷ []))
    | _ ↦ throw_unsupported_content the_provider content
  ]
  | ContentType.image ↦ elim content.source [
    | ContentSource.url ↦ ok (image_part content content.url)
    | ContentSource.bytes ↦ ok (image_part content (data_url content))
    | _ ↦ throw_unsupported_content the_provider content
  ]
  | ContentType.file ↦ elim content.source [
    | ContentSource.url ↦ ok (file_part content (lit "file_url") content.url)
    | ContentSource.bytes ↦ ok (file_part content (lit "file_data") (data_url content))
    | _ ↦ throw_unsupported_content the_provider content
  ]
  | ContentType.extension ↦ elim content.source [
    | ContentSource.provider_data ↦
        if same content.provider openai
        then ok content.provider_data
        else throw_unsupported_content the_provider content
    | _ ↦ throw_unsupported_content the_provider content
  ]
  | ContentType.audio ↦ throw_unsupported_content the_provider content
]

unfoldable pub input_parts : List Content → Result (List JsonValue)
unfolding openai_input_part
input_parts [] = ok []
input_parts (c ∷ cs) = do part ← openai_input_part c; parts ← input_parts cs; ok (part ∷ parts)

unfoldable pub openai_message_content : List Content → Result JsonValue
unfolding input_parts
openai_message_content contents = input_parts contents >>= λ parts. ok (array (elements_of parts))

abbrev pub is_text_value : Content → Bool
is_text_value content = elim content.type [
  | ContentType.text ↦ elim content.source [ ContentSource.value ↦ true | _ ↦ false ]
  | _ ↦ false
]

unfoldable pub openai_tool_output : List Content → Result JsonValue
unfolding openai_message_content
openai_tool_output [] = ok (string [])
openai_tool_output (c ∷ []) =
    if is_text_value c then ok (string c.value) else openai_message_content (c ∷ [])
openai_tool_output (c ∷ d ∷ cs) = openai_message_content (c ∷ d ∷ cs)

-- The id of the item that the call came from, where it is a text.
abbrev pub id_members : Option JsonValue → List (Bytes × JsonValue)
id_members (some (string id)) = (lit "id", string id) ∷ []
id_members _ = []

unfoldable pub call_item : ToolCall → JsonValue
unfolding put_member lit find_member
call_item call = json_object (
    (lit "type", string (lit "function_call"))
    ∷ (lit "call_id", string call.id)
    ∷ (lit "name", string call.name)
    ∷ (lit "arguments", string call.raw_arguments)
    ∷ id_members (find (lit "id") call.provider_metadata))

abbrev pub role_item : Bytes → JsonValue → JsonValue
role_item role content = json_object ((lit "role", string role) ∷ (lit "content", content) ∷ [])

-- The message of an assistant, unless it is empty.
unfoldable pub assistant_items : List Content → Result (List JsonValue)
unfolding openai_message_content put_member lit
assistant_items [] = ok []
assistant_items (c ∷ cs) = do
  content ← openai_message_content (c ∷ cs)
  ok (role_item (lit "assistant") content ∷ [])

-- What `append_openai_history` appends for a message.
unfoldable pub history_of : Message → Result (List JsonValue)
unfolding native_output openai_tool_output openai_message_content assistant_items call_item
    put_member lit
history_of message = elim message.role [
  | Role.tool ↦ (do
    output ← openai_tool_output message.contents
    ok (
        json_object (
          (lit "type", string (lit "function_call_output"))
          ∷ (lit "call_id", string message.tool_call_id)
          ∷ (lit "output", output)
          ∷ [])
        ∷ []))
  | Role.assistant ↦ elim (native_output message) [
    | some es ↦ ok (elements es)
    | none ↦ (do
      items ← assistant_items message.contents
      ok (items ++ map call_item message.tool_calls))
  ]
  | Role.system ↦ (do
    content ← openai_message_content message.contents
    ok (role_item (lit "developer") content ∷ []))
  | Role.user ↦ (do
    content ← openai_message_content message.contents
    ok (role_item (lit "user") content ∷ []))
]

unfoldable pub history : List Message → Result (List JsonValue)
unfolding history_of
history [] = ok []
history (m ∷ ms) = do first ← history_of m; rest ← history ms; ok (first ++ rest)

unfoldable pub declaration : ToolSpec → Result JsonValue
unfolding put_member lit
declaration tool = do
  typed ← assign (lit "type") (string (lit "function")) tool.provider_options
  named ← assign (lit "name") (string tool.name) typed
  described ← assign (lit "description") (string tool.description) named
  assign (lit "parameters") tool.input_schema described

unfoldable pub declarations : List ToolSpec → Result (List JsonValue)
unfolding declaration
declarations [] = ok []
declarations (t ∷ ts) = do first ← declaration t; rest ← declarations ts; ok (first ∷ rest)

abbrev pub check_tools : Option JsonValue → Result (Unit {0})
check_tools none = ok tt
check_tools (some v) =
    throw_if (not (is_array v))
      (configuration_error (lit "OpenAI tools provider option must be an array"))

unfoldable pub add_tools : List ToolSpec → Members → Result Members
unfolding declarations find_member put_member lit
add_tools [] body = check_tools (find_member (lit "tools") body) >> ok body
add_tools (t ∷ tools) body = do
  check_tools (find_member (lit "tools") body)
  made ← declarations (t ∷ tools)
  ok (
      put_member (lit "tools")
        (array (elements_of (elements_or_none (find_member (lit "tools") body) ++ made))) body)

abbrev pub text_value : Option Bytes → Option JsonValue
text_value none = none
text_value (some text) = some (string text)

-- The options with the members that the client sets itself.
unfoldable pub base_body : Members → Bytes → List JsonValue → Members
unfolding put_member lit
base_body merged model_id input = put_member (lit "input") (array (elements_of input)) (
    put_member (lit "background") (boolean false) (
      put_member (lit "stream") (boolean false)
        (put_member (lit "model") (string model_id) merged)))

unfoldable pub with_limits : GenerateOptions → Members → Members
unfolding put_member lit
with_limits options body =
    put_optional (lit "temperature")
      (elim options.temperature [ none ↦ none | some t ↦ some (float t) ])
      (put_optional (lit "max_output_tokens")
        (elim options.max_output_tokens [ none ↦ none | some n ↦ some (unsigned n) ]) body)

unfoldable pub with_instructions : Option Bytes → Members → Members
unfolding put_member lit
with_instructions instructions body =
    put_optional (lit "instructions") (text_value instructions) body

unfoldable pub make_openai_request : ModelDescriptor → AiRequest → Result JsonValue
unfolding merged_provider_options history add_tools base_body with_limits with_instructions
make_openai_request model request = do
  merged ← merged_provider_options model.provider_options request.options.provider_options
  input ← history request.messages
  body ←
      add_tools request.tools
        (with_instructions request.system_message (base_body (members_of merged) model.id input))
  ok (object (with_limits request.options body))
