-- ===== src/Compatible/Parts.antt =====
-- The contents of a message as JSON (src/providers/openai_compatible.cpp).
use neural_plus.Prelude.{
  Bytes, lit, same, Bool, true, false, Option, none, some, List, [], ◌∷◌, is_empty, if◌then◌else◌,
}
use neural_plus.Outcome.{Result, ok, ◌>>=◌}
use neural_plus.Json.{
  JsonValue, string, array, object, Members, elements_of, find, find_member, put_member,
  json_object,
}
use neural_plus.Types.Enums.{Provider, ContentType, ContentSource}
use neural_plus.Types.Content.{Content}
use neural_plus.Types.Message.{Message}
use neural_plus.Provider.Base64.{base64_encode}
use neural_plus.Provider.Fields.{
  string_field, data_url, chat_audio_format, throw_unsupported_content,
}

abbrev pub the_provider : Provider
the_provider = Provider.openai_compatible

abbrev pub compatible : Bytes
compatible = lit "openai_compatible"

-- The message of a response that its message keeps: the metadata of `provider` "openai_compatible".
unfoldable pub native_message : Message → Option Members
unfolding string_field lit find_member
native_message message =
    if same (string_field message.provider_metadata (lit "provider")) compatible
    then elim (find (lit "message") message.provider_metadata) [
      | some (object ms) ↦ some ms
      | _ ↦ none
    ]
    else none

-- The detail of an image where it is a text.
abbrev pub image_members : Bytes → Option JsonValue → List (Bytes × JsonValue)
image_members url (some (string detail)) =
    (lit "url", string url) ∷ (lit "detail", string detail) ∷ []
image_members url _ = (lit "url", string url) ∷ []

unfoldable pub image_part : Content → Bytes → JsonValue
unfolding put_member lit
image_part content url = json_object (
    (lit "type", string (lit "image_url"))
    ∷ (lit "image_url", json_object (image_members url (find (lit "detail") content.options)))
    ∷ [])

unfoldable pub audio_part : Content → Result JsonValue
unfolding put_member lit chat_audio_format base64_encode
audio_part content = do
  format ← chat_audio_format content the_provider
  ok (
      json_object (
        (lit "type", string (lit "input_audio"))
        ∷ (
          lit "input_audio",
          json_object (
              (lit "data", string (base64_encode content.bytes))
              ∷ (lit "format", string format)
              ∷ []),
        )
        ∷ []))

unfoldable pub file_part : Content → JsonValue
unfolding put_member lit data_url
file_part content = json_object (
    (lit "type", string (lit "file"))
    ∷ (
      lit "file",
      json_object (
          (lit "file_data", string (data_url content))
          ∷ (if is_empty content.filename
              then []
              else (lit "filename", string content.filename) ∷ [])),
    )
    ∷ [])

unfoldable pub text_part : Bytes → JsonValue
unfolding put_member lit
text_part text = json_object ((lit "type", string (lit "text")) ∷ (lit "text", string text) ∷ [])

unfoldable pub compatible_content_part : Content → Result JsonValue
unfolding text_part image_part audio_part file_part data_url throw_unsupported_content
compatible_content_part content = elim content.type [
  | ContentType.text ↦ elim content.source [
    | ContentSource.value ↦ ok (text_part content.value)
    | _ ↦ throw_unsupported_content the_provider content
  ]
  | ContentType.image ↦ elim content.source [
    | ContentSource.url ↦ ok (image_part content content.url)
    | ContentSource.bytes ↦ ok (image_part content (data_url content))
    | _ ↦ throw_unsupported_content the_provider content
  ]
  | ContentType.audio ↦ elim content.source [
    | ContentSource.bytes ↦ audio_part content
    | _ ↦ throw_unsupported_content the_provider content
  ]
  | ContentType.file ↦ elim content.source [
    | ContentSource.bytes ↦ ok (file_part content)
    | _ ↦ throw_unsupported_content the_provider content
  ]
  | ContentType.extension ↦ elim content.source [
    | ContentSource.provider_data ↦
        if same content.provider compatible
        then ok content.provider_data
        else throw_unsupported_content the_provider content
    | _ ↦ throw_unsupported_content the_provider content
  ]
]

unfoldable pub content_parts : List Content → Result (List JsonValue)
unfolding compatible_content_part
content_parts [] = ok []
content_parts (c ∷ cs) = do
  part ← compatible_content_part c
  parts ← content_parts cs
  ok (part ∷ parts)

abbrev pub is_text_value : Content → Bool
is_text_value content = elim content.type [
  | ContentType.text ↦ elim content.source [ ContentSource.value ↦ true | _ ↦ false ]
  | _ ↦ false
]

abbrev pub as_array : List Content → Result JsonValue
as_array contents = content_parts contents >>= λ parts. ok (array (elements_of parts))

-- One text is sent as a text, anything else as an array of parts.
abbrev pub contents_json : List Content → Result JsonValue
contents_json (c ∷ []) = if is_text_value c then ok (string c.value) else as_array (c ∷ [])
contents_json contents = as_array contents

unfoldable pub compatible_message_content : Message → Result JsonValue
compatible_message_content message = contents_json message.contents
