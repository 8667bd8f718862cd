-- ===== src/Gemini/Parts.antt =====
-- The parts of a message as JSON, as src/providers/gemini.cpp sends them.
use neural_plus.Prelude.{
  pos, Bytes, lit, same, true, not, ◌&&◌, Option, none, some, List, [], ◌∷◌, ◌++◌, is_empty,
  if◌then◌else◌, starts_with,
}
use neural_plus.Outcome.{Result, ok, provider_error, throw_if, ◌>>=◌, ◌>>◌}
use neural_plus.Json.{JsonValue, boolean, string, object, Members, end, put_member, json_object}
use neural_plus.Types.Enums.{Provider, ContentType, ContentSource}
use neural_plus.Types.Content.{Content}
use neural_plus.Types.Message.{Message, message_text}
use neural_plus.Provider.Base64.{base64_encode}
use neural_plus.Provider.Redact.{JsonText}
use neural_plus.Provider.Fields.{throw_unsupported_content}

abbrev pub the_provider : Provider
the_provider = Provider.gemini

abbrev pub gemini : Bytes
gemini = lit "gemini"

abbrev pub inline_part : Content → JsonValue
inline_part content = json_object (
    (
      lit "inlineData",
      json_object (
          (lit "mimeType", string content.media_type)
          ∷ (lit "data", string (base64_encode content.bytes))
          ∷ []),
    )
    ∷ [])

-- Media at an address: of the File API, or of Google storage.
unfoldable pub file_part : Content → Result JsonValue
unfolding starts_with put_member lit
file_part content = do
  throw_if
      (not (starts_with (lit "https://generativelanguage.googleapis.com/") content.url)
        && not (starts_with (lit "gs://") content.url))
      (provider_error
        (lit
          "Gemini media URLs must be uploaded File API or gs:// URIs; use inline bytes for arbitrary media data")
        the_provider (pos 0) (lit "unsupported_media_url") [])
  ok (
      json_object (
        (
          lit "fileData",
          json_object (
              (lit "fileUri", string content.url)
              ∷ (if is_empty content.media_type
                  then []
                  else (lit "mimeType", string content.media_type) ∷ [])),
        )
        ∷ []))

abbrev pub media_part : Content → Result JsonValue
media_part content = elim content.source [
  | ContentSource.bytes ↦ ok (inline_part content)
  | ContentSource.url ↦ file_part content
  | _ ↦ throw_unsupported_content the_provider content
]

abbrev pub extension_part : Content → Result JsonValue
extension_part content = elim content.source [
  | ContentSource.provider_data ↦
      if same content.provider gemini
      then ok content.provider_data
      else throw_unsupported_content the_provider content
  | _ ↦ throw_unsupported_content the_provider content
]

unfoldable pub gemini_part : Content → Result JsonValue
unfolding file_part throw_unsupported_content put_member lit base64_encode
gemini_part content = elim content.type [
  | ContentType.text ↦ elim content.source [
    | ContentSource.value ↦ ok (json_object ((lit "text", string content.value) ∷ []))
    | _ ↦ throw_unsupported_content the_provider content
  ]
  | ContentType.image ↦ media_part content
  | ContentType.audio ↦ media_part content
  | ContentType.file ↦ media_part content
  | ContentType.extension ↦ extension_part content
]

unfoldable pub gemini_parts : List Content → Result (List JsonValue)
unfolding gemini_part
gemini_parts [] = ok []
gemini_parts (c ∷ cs) = do part ← gemini_part c; parts ← gemini_parts cs; ok (part ∷ parts)

-- The text of a tool's result: an object as it is, and all else as the member "result".
abbrev pub response_members : Bytes → Option JsonValue → Members
response_members text none = put_member (lit "result") (string text) end
response_members text (some (object ms)) = ms
response_members text (some v) = put_member (lit "result") v end

unfoldable pub gemini_tool_response : JsonText → Message → JsonValue
unfolding put_member message_text lit
gemini_tool_response json message =
    let response = response_members (message_text message) (json.parse (message_text message)) in
    object
      (if message.tool_error then put_member (lit "is_error") (boolean true) response else response)

abbrev pub inline_only : Content → Result (List JsonValue)
inline_only content = elim content.source [
  | ContentSource.bytes ↦ ok (inline_part content ∷ [])
  | _ ↦ throw_unsupported_content the_provider content
]

-- One part or none.
unfoldable pub tool_response_part : Content → Result (List JsonValue)
unfolding throw_unsupported_content put_member lit base64_encode
tool_response_part content = elim content.type [
  | ContentType.text ↦ ok []
  | ContentType.image ↦ inline_only content
  | ContentType.audio ↦ inline_only content
  | ContentType.file ↦ inline_only content
  | ContentType.extension ↦ (do part ← extension_part content; ok (part ∷ []))
]

unfoldable pub gemini_tool_response_parts : List Content → Result (List JsonValue)
unfolding tool_response_part
gemini_tool_response_parts [] = ok []
gemini_tool_response_parts (c ∷ cs) = do
  first ← tool_response_part c
  rest ← gemini_tool_response_parts cs
  ok (first ++ rest)
