-- ===== src/Provider/Fields.antt =====
-- Reading and writing the JSON of requests and responses (src/provider_common.cpp).
pub mod Lookup
use neural_plus.Prelude.{
  ℕ, suc, ℤ, pos, negsuc, Bytes, lit, same, to_string, Bool, true, false, not, ◌&&◌, ◌||◌, Option,
  none, some, List, [], ◌∷◌, ◌++◌, is_empty, leb, ltb, if◌then◌else◌,
}
use neural_plus.Outcome.{
  json_exception, Result, ok, err, configuration_error, provider_error, throw_if, ◌>>◌,
}
use neural_plus.Json.{
  JsonValue, null, string, array, object, integer, unsigned, Members, end, is_object, is_null,
  elements, find, update_members, put_member,
}
use neural_plus.Types.Enums.{Provider, ContentType, ContentSource, provider_to_string}
use neural_plus.Types.Content.{Content, empty_object}
use neural_plus.Client.Usage.{size_max}
use neural_plus.Transport.{HttpResponse}
use neural_plus.Provider.Base64.{base64_encode}
use neural_plus.Provider.Redact.{JsonText}

-- `std::to_string` of a signed number.
abbrev pub signed_to_string : ℤ → Bytes
signed_to_string (pos n) = to_string n
signed_to_string (negsuc n) = b'-' ∷ to_string (suc n)

unfoldable pub data_url : Content → Bytes
unfolding lit base64_encode
data_url content =
    let media_type =
      if is_empty content.media_type then lit "application/octet-stream" else content.media_type in
    lit "data:" ++ (media_type ++ (lit ";base64," ++ base64_encode content.bytes))

abbrev pub one_of : Bytes → List Bytes → Bool
one_of text [] = false
one_of text (t ∷ ts) = same text t || one_of text ts

unfoldable pub chat_audio_format : Content → Provider → Result Bytes
unfolding lit
chat_audio_format content provider =
    let known =
      if one_of content.media_type (lit "audio/mpeg" ∷ lit "audio/mp3" ∷ [])
      then ok (lit "mp3")
      else if one_of content.media_type
          (lit "audio/wav" ∷ lit "audio/wave" ∷ lit "audio/x-wav" ∷ [])
      then ok (lit "wav")
      else err (
          provider_error (lit "audio input requires MP3/WAV media type or options.format") provider
            (pos 0) (lit "unsupported_audio_format") []) in
    let invalid =
      provider_error (lit "audio format option must be a non-empty string") provider (pos 0)
        (lit "invalid_audio_format") [] in
    elim (find (lit "format") content.options) [
      | none ↦ known
      | some (string format) ↦ if is_empty format then err invalid else ok format
      | some _ ↦ err invalid
    ]

unfoldable pub require_object : JsonValue → Bytes → Result (Unit {0})
require_object value description =
    throw_if (not (is_object value))
      (configuration_error (description ++ lit " must be a JSON object"))

-- `merged.update(request_options)` of two objects.
abbrev pub updated : JsonValue → JsonValue → JsonValue
updated (object ms) (object more) = object (update_members ms more)
updated value other = value

unfoldable pub merged_provider_options : JsonValue → JsonValue → Result JsonValue
unfolding require_object
merged_provider_options model_options request_options = do
  require_object model_options (lit "model provider_options")
  require_object request_options (lit "request provider_options")
  ok (updated model_options request_options)

unfoldable pub parse_response_json : JsonText → HttpResponse → Provider → Bytes → Result Members
unfolding lit
parse_response_json json response provider request_id = elim (json.parse response.body) [
  | some (object ms) ↦ ok ms
  | _ ↦ err (
      provider_error (lit "provider returned malformed JSON") provider response.status
        (lit "malformed_json") request_id)
]

unfoldable pub successful_status : ℤ → Bool
successful_status (pos status) = leb 200 status && ltb status 300
successful_status (negsuc n) = false

unfoldable pub string_field : JsonValue → Bytes → Bytes
string_field value key = elim (find key value) [ some (string s) ↦ s | _ ↦ [] ]

-- The numbers that `std::size_t` holds.
abbrev pub size_of : JsonValue → Option ℕ
size_of (unsigned n) = if leb n size_max then some n else none
size_of (integer (pos n)) = if leb n size_max then some n else none
size_of _ = none

unfoldable pub size_field : JsonValue → Bytes → Option ℕ
size_field value key = elim (find key value) [ none ↦ none | some v ↦ size_of v ]

-- The arguments, and whether the text was JSON.
unfoldable pub parse_tool_arguments : JsonText → Bytes → JsonValue × Bool
parse_tool_arguments json raw = elim (json.parse raw) [
  | none ↦ (empty_object, false)
  | some parsed ↦ (parsed, true)
]

unfoldable pub throw_provider_error {ℓ} :
    {A : Type ℓ} → Provider → HttpResponse → (message code request_id : Bytes) → Result A
throw_provider_error provider response message code request_id =
    let text =
      if is_empty message
      then lit "provider request failed with HTTP status " ++ signed_to_string response.status
      else message in
    err (provider_error text provider response.status code request_id)

abbrev pub content_type_number : ContentType → ℕ
content_type_number ContentType.text = 0
content_type_number ContentType.image = 1
content_type_number ContentType.audio = 2
content_type_number ContentType.file = 3
content_type_number ContentType.extension = 4

abbrev pub content_source_number : ContentSource → ℕ
content_source_number ContentSource.value = 0
content_source_number ContentSource.url = 1
content_source_number ContentSource.bytes = 2
content_source_number ContentSource.provider_data = 3

unfoldable pub throw_unsupported_content {ℓ} : {A : Type ℓ} → Provider → Content → Result A
unfolding provider_to_string
throw_unsupported_content provider content = err (
    provider_error
      (lit "content type/source is not supported by "
        ++ (provider_to_string provider
            ++ (lit ": type="
                ++ (to_string (content_type_number content.type)
                    ++ (lit ", source=" ++ to_string (content_source_number content.source))))))
      provider (pos 0) (lit "unsupported_content") [])

abbrev pub is_text : Option JsonValue → Bool
is_text (some (string s)) = true
is_text _ = false

abbrev pub text_of : Option JsonValue → Bytes
text_of (some (string s)) = s
text_of _ = []

-- A text that is there and is not empty.
abbrev pub is_filled : Option JsonValue → Bool
is_filled (some (string s)) = not (is_empty s)
is_filled _ = false

abbrev pub members_or : Option JsonValue → Option Members
members_or (some (object ms)) = some ms
members_or _ = none

abbrev pub is_present : Option JsonValue → Bool
is_present none = false
is_present (some v) = not (is_null v)

abbrev pub elements_or_none : Option JsonValue → List JsonValue
elements_or_none (some (array es)) = elements es
elements_or_none _ = []

-- `value[key] = v`: null becomes an object, and nothing else that is no object takes a member.
abbrev pub assign : Bytes → JsonValue → JsonValue → Result JsonValue
assign key v (object ms) = ok (object (put_member key v ms))
assign key v null = ok (object (put_member key v end))
assign key v _ = err json_exception

abbrev pub put_optional : Bytes → Option JsonValue → Members → Members
put_optional key none ms = ms
put_optional key (some v) ms = put_member key v ms

abbrev pub members_of : JsonValue → Members
members_of (object ms) = ms
members_of _ = end
