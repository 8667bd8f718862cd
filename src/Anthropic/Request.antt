-- ===== src/Anthropic/Request.antt =====
-- The requests of src/providers/anthropic.cpp: messages as turns, tools and options as JSON.
pub mod Turns
use neural_plus.Prelude.{
  ℕ, pos, Bytes, lit, same, Bool, true, false, not, ◌&&◌, Option, none, some, List, [], ◌∷◌, ◌++◌,
  is_empty, map, if◌then◌else◌,
}
use neural_plus.Outcome.{
  Result, ok, err, configuration_error, provider_error, throw_if, ◌>>=◌, ◌>>◌,
}
use neural_plus.Json.{
  JsonValue, null, boolean, string, unsigned, float, array, object, Elements, Members, end,
  is_array, elements, elements_of, find, find_member, put_member, json_object,
}
use neural_plus.Types.Enums.{Provider, Role, ContentType, ContentSource}
use neural_plus.Types.Content.{Content}
use neural_plus.Types.Message.{Message, ToolCall}
use neural_plus.Types.Records.{ModelDescriptor, ToolSpec, GenerateOptions, AiRequest}
use neural_plus.Provider.Base64.{base64_encode}
use neural_plus.Provider.Fields.{
  string_field, merged_provider_options, throw_unsupported_content, assign, elements_or_none,
  put_optional, members_of,
}
use neural_plus.Provider.History.{system_lines, text_or_empty}

abbrev pub the_provider : Provider
the_provider = Provider.anthropic

abbrev pub anthropic : Bytes
anthropic = lit "anthropic"

-- The content array of a response that its message keeps.
unfoldable pub native_content : Message → Option Elements
unfolding string_field lit find_member
native_content message =
    if same (string_field message.provider_metadata (lit "provider")) anthropic
    then elim (find (lit "content") message.provider_metadata) [
      | some (array es) ↦ some es
      | _ ↦ none
    ]
    else none

abbrev pub typed : Bytes → List (Bytes × JsonValue) → JsonValue
typed type pairs = json_object ((lit "type", string type) ∷ pairs)

abbrev pub inline_source : Bytes → List ℕ → JsonValue
inline_source media_type bytes =
    typed (lit "base64")
      ((lit "media_type", string media_type) ∷ (lit "data", string (base64_encode bytes)) ∷ [])

abbrev pub url_source : Bytes → JsonValue
url_source url = typed (lit "url") ((lit "url", string url) ∷ [])

unfoldable pub document : Content → JsonValue → JsonValue
unfolding put_member lit
document content source = typed (lit "document") (
    (lit "source", source)
    ∷ (if is_empty content.filename then [] else (lit "title", string content.filename) ∷ []))

unfoldable pub file_part : Content → Result JsonValue
unfolding document base64_encode
file_part content =
    let unsupported = err (
      provider_error (lit "Anthropic file input supports document URLs and inline PDFs")
        the_provider (pos 0) (lit "unsupported_document") []) in
    elim content.source [
      | ContentSource.url ↦ ok (document content (url_source content.url))
      | ContentSource.bytes ↦
          if same content.media_type (lit "application/pdf")
          then ok (document content (inline_source (lit "application/pdf") content.bytes))
          else unsupported
      | _ ↦ unsupported
    ]

unfoldable pub anthropic_content_part : Content → Result JsonValue
unfolding file_part throw_unsupported_content put_member lit base64_encode
anthropic_content_part content = elim content.type [
  | ContentType.text ↦ elim content.source [
    | ContentSource.value ↦ ok (typed (lit "text") ((lit "text", string content.value) ∷ []))
    | _ ↦ throw_unsupported_content the_provider content
  ]
  | ContentType.image ↦ elim content.source [
    | ContentSource.url ↦ ok (typed (lit "image") ((lit "source", url_source content.url) ∷ []))
    | ContentSource.bytes ↦
        ok (
          typed (lit "image") ((lit "source", inline_source content.media_type content.bytes) ∷ []))
    | _ ↦ throw_unsupported_content the_provider content
  ]
  | ContentType.file ↦ file_part content
  | ContentType.extension ↦ elim content.source [
    | ContentSource.provider_data ↦
        if same content.provider anthropic
        then ok content.provider_data
        else throw_unsupported_content the_provider content
    | _ ↦ throw_unsupported_content the_provider content
  ]
  | ContentType.audio ↦ throw_unsupported_content the_provider content
]

unfoldable pub anthropic_content : List Content → Result (List JsonValue)
unfolding anthropic_content_part
anthropic_content [] = ok []
anthropic_content (c ∷ cs) = do
  part ← anthropic_content_part c
  parts ← anthropic_content cs
  ok (part ∷ parts)

-- A turn of the conversation.
unfoldable pub turn : Bytes → List JsonValue → JsonValue
unfolding put_member lit
turn role blocks =
    json_object ((lit "role", string role) ∷ (lit "content", array (elements_of blocks)) ∷ [])

-- The last turn with the blocks, where it is of the role; otherwise a turn after it.
unfoldable pub extend_turn : JsonValue → Bytes → List JsonValue → List JsonValue
unfolding turn string_field find_member put_member lit
extend_turn (object ms) role blocks =
    let apart = object ms ∷ turn role blocks ∷ [] in
    if same (string_field (object ms) (lit "role")) role
    then elim (find_member (lit "content") ms) [
      | some (array es) ↦
          object (put_member (lit "content") (array (elements_of (elements es ++ blocks))) ms) ∷ []
      | _ ↦ apart
    ]
    else apart
extend_turn last role blocks = last ∷ turn role blocks ∷ []

unfoldable pub append_anthropic_turn : List JsonValue → Bytes → List JsonValue → List JsonValue
unfolding extend_turn turn
append_anthropic_turn [] role blocks = turn role blocks ∷ []
append_anthropic_turn (m ∷ []) role blocks = extend_turn m role blocks
append_anthropic_turn (m ∷ n ∷ ms) role blocks = m ∷ append_anthropic_turn (n ∷ ms) role blocks

unfoldable pub tool_result : Message → List JsonValue → JsonValue
unfolding put_member lit
tool_result message blocks = typed (lit "tool_result") (
    (lit "tool_use_id", string message.tool_call_id)
    ∷ (lit "content", array (elements_of blocks))
    ∷ (if message.tool_error then (lit "is_error", boolean true) ∷ [] else []))

unfoldable pub tool_use : ToolCall → JsonValue
unfolding put_member lit
tool_use call = typed (lit "tool_use") (
    (lit "id", string call.id)
    ∷ (lit "name", string call.name)
    ∷ (lit "input", call.arguments)
    ∷ [])

-- The role and the blocks of the turn of a message; a system message has none.
unfoldable pub turn_of : Message → Result (Option (Bytes × List JsonValue))
unfolding native_content anthropic_content tool_result tool_use lit
turn_of message = elim message.role [
  | Role.system ↦ ok none
  | Role.tool ↦ (do
    blocks ← anthropic_content message.contents
    ok (some (lit "user", tool_result message blocks ∷ [])))
  | Role.user ↦ (do blocks ← anthropic_content message.contents; ok (some (lit "user", blocks)))
  | Role.assistant ↦ elim (native_content message) [
    | some es ↦ ok (some (lit "assistant", elements es))
    | none ↦ (do
      blocks ← anthropic_content message.contents
      ok (some (lit "assistant", blocks ++ map tool_use message.tool_calls)))
  ]
]

abbrev pub append_some : List JsonValue → Option (Bytes × List JsonValue) → List JsonValue
append_some turns none = turns
append_some turns (some (role, blocks)) = append_anthropic_turn turns role blocks

-- The loop over the messages, with the turns so far.
unfoldable pub append_anthropic_history : List JsonValue → List Message → Result (List JsonValue)
unfolding turn_of append_anthropic_turn
append_anthropic_history turns [] = ok turns
append_anthropic_history turns (m ∷ ms) = do
  added ← turn_of m
  append_anthropic_history (append_some turns added) ms

unfoldable pub anthropic_system_instruction : AiRequest → Bytes
unfolding system_lines
anthropic_system_instruction request =
    system_lines request.messages (text_or_empty request.system_message)

unfoldable pub declaration : ToolSpec → Result JsonValue
unfolding put_member lit
declaration tool = do
  named ← assign (lit "name") (string tool.name) tool.provider_options
  described ← assign (lit "description") (string tool.description) named
  assign (lit "input_schema") tool.input_schema described

unfoldable pub declarations : List ToolSpec → Result (List JsonValue)
unfolding declaration
declarations [] = ok []
declarations (t ∷ ts) = do first ← declaration t; rest ← declarations ts; ok (first ∷ rest)

abbrev pub check_tools : Option JsonValue → Result (Unit {0})
check_tools none = ok tt
check_tools (some v) =
    throw_if (not (is_array v))
      (configuration_error (lit "Anthropic tools provider option must be an array"))

unfoldable pub add_tools : List ToolSpec → Members → Result Members
unfolding declarations find_member put_member lit
add_tools [] body = check_tools (find_member (lit "tools") body) >> ok body
add_tools (t ∷ tools) body = do
  check_tools (find_member (lit "tools") body)
  made ← declarations (t ∷ tools)
  ok (
      put_member (lit "tools")
        (array (elements_of (elements_or_none (find_member (lit "tools") body) ++ made))) body)

abbrev pub value_or : Option ℕ → ℕ → ℕ
value_or none other = other
value_or (some n) other = n

abbrev pub text_unless_empty : Bytes → Option JsonValue
text_unless_empty text = if is_empty text then none else some (string text)

unfoldable pub make_anthropic_request : ModelDescriptor → ℕ → AiRequest → Result JsonValue
unfolding merged_provider_options append_anthropic_history anthropic_system_instruction add_tools
    put_member lit
make_anthropic_request model default_max_output_tokens request = do
  merged ← merged_provider_options model.provider_options request.options.provider_options
  messages ← append_anthropic_history [] request.messages
  body ← add_tools request.tools (
      put_optional (lit "system") (text_unless_empty (anthropic_system_instruction request)) (
        put_member (lit "messages") (array (elements_of messages)) (
          put_member (lit "max_tokens")
            (unsigned (value_or request.options.max_output_tokens default_max_output_tokens))
            (put_member (lit "stream") (boolean false)
              (put_member (lit "model") (string model.id) (members_of merged))))))
  ok (
      object (
        put_optional (lit "temperature")
          (elim request.options.temperature [ none ↦ none | some t ↦ some (float t) ]) body))
