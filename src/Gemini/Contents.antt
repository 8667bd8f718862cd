-- ===== src/Gemini/Contents.antt =====
-- What a part of a response of src/providers/gemini.cpp becomes: a content of the message, or a tool call.
use neural_plus.Prelude.{
  ℕ, ◌+◌, ℤ, Bytes, lit, Bool, true, false, Option, none, some, List, [], ◌∷◌, ◌++◌, length,
  is_empty, to_string, if◌then◌else◌, starts_with,
}
use neural_plus.Outcome.{Result, ok, err, provider_error, throw_if, ◌>>=◌, ◌>>◌}
use neural_plus.Json.{JsonValue, boolean, object, Members, end, find_member}
use neural_plus.Types.Content.{Content, empty_object}
use neural_plus.Types.Content
use neural_plus.Types.Message.{ToolCall}
use neural_plus.Types.Records.{AiRequest}
use neural_plus.Provider.Base64.{base64_decode}
use neural_plus.Provider.Redact.{JsonText}
use neural_plus.Provider.Blocks.{Block, content_block, call_block}
use neural_plus.Provider.Fields.{string_field, text_of}
use neural_plus.Gemini.Parts.{the_provider, gemini}
use neural_plus.Gemini.Checks.{malformed, check_part}

abbrev pub is_true : Option JsonValue → Bool
is_true (some (boolean b)) = b
is_true _ = false

abbrev pub object_or_empty : Option JsonValue → JsonValue
object_or_empty none = object end
object_or_empty (some v) = v

-- The id of a call: its own, or one made of the run, the number of messages and the number of calls
-- before it.
unfoldable pub call_id : AiRequest → ℕ → Bytes → Bytes
unfolding lit to_string
call_id request call_index id =
    if is_empty id
    then lit "gemini_call_"
      ++ (request.run_id
          ++ (lit "_"
              ++ (to_string (length request.messages) ++ (lit "_" ++ to_string call_index))))
    else id

unfoldable pub inline_content : Bytes → Bytes → List ℕ → Result Content
unfolding Content.image_bytes Content.audio_bytes Content.file_bytes starts_with lit
inline_content media_type display_name bytes =
    if starts_with (lit "image/") media_type
    then Content.image_bytes bytes media_type empty_object
    else if starts_with (lit "audio/") media_type
    then Content.audio_bytes bytes media_type empty_object
    else Content.file_bytes bytes media_type display_name empty_object

unfoldable pub file_content : Bytes → Bytes → Bytes → Result Content
unfolding Content.image_url Content.audio_url Content.file_url starts_with lit
file_content media_type display_name uri =
    if starts_with (lit "image/") media_type
    then Content.image_url uri media_type empty_object
    else if starts_with (lit "audio/") media_type
    then Content.audio_url uri media_type empty_object
    else Content.file_url uri media_type display_name empty_object

module _ (json : JsonText) (request : AiRequest) (status : ℤ) (request_id : Bytes) where
  abbrev pub decoded_content : Bytes → Bytes → Option (List ℕ) → Result Content
  decoded_content media_type display_name (some (b ∷ bytes)) =
      if is_empty media_type
      then err (
          provider_error (lit "Gemini returned malformed inline data") the_provider status
            (lit "malformed_inline_data") request_id)
      else inline_content media_type display_name (b ∷ bytes)
  decoded_content media_type display_name _ = err (
      provider_error (lit "Gemini returned malformed inline data") the_provider status
        (lit "malformed_inline_data") request_id)

  unfoldable pub inline_data_content : JsonValue → Result Content
  unfolding inline_content base64_decode string_field lit
  inline_data_content media =
      decoded_content (string_field media (lit "mimeType")) (string_field media (lit "displayName"))
        (base64_decode (string_field media (lit "data")))

  unfoldable pub file_data_content : JsonValue → Result Content
  unfolding file_content string_field lit
  file_data_content media = do
    throw_if (is_empty (string_field media (lit "fileUri"))) (
        provider_error (lit "Gemini returned file data without a URI") the_provider status
          (lit "malformed_file_data") request_id)
    file_content (string_field media (lit "mimeType")) (string_field media (lit "displayName"))
        (string_field media (lit "fileUri"))

  -- A call, which keeps the part that it came in. Its arguments are printed as their raw text.
  unfoldable pub function_call : ℕ → Members → Members → Result ToolCall
  unfolding call_id string_field find_member lit
  function_call call_index call part =
      let arguments = object_or_empty (find_member (lit "args") call) in
      (do
        raw ← json.dump arguments
        ok (record {
          id = call_id request call_index (string_field (object call) (lit "id"));
          name = string_field (object call) (lit "name");
          arguments = arguments;
          raw_arguments = raw;
          arguments_valid = true;
          provider_metadata = object part;
        }))

  abbrev pub as_content : Result Content → Result Block
  as_content result = do content ← result; ok (content_block content)

  -- A part that has neither text nor media: a call, or a part that is kept as it is.
  unfoldable pub other_block : ℕ → Members → Result Block
  unfolding function_call Content.extension find_member lit
  other_block call_index part = elim (find_member (lit "functionCall") part) [
    | some (object call) ↦ (do made ← function_call call_index call part; ok (call_block made))
    | _ ↦ as_content (Content.extension gemini (object part))
  ]

  unfoldable pub media_block : ℕ → Members → Result Block
  unfolding inline_data_content file_data_content other_block find_member lit
  media_block call_index part = elim (find_member (lit "inlineData") part) [
    | some media ↦ as_content (inline_data_content media)
    | none ↦ elim (find_member (lit "fileData") part) [
      | some media ↦ as_content (file_data_content media)
      | none ↦ other_block call_index part
    ]
  ]

  -- A thought is kept as it is, so that the text of the message is the answer alone.
  unfoldable pub read_part : ℕ → Members → Result Block
  unfolding media_block Content.text Content.extension find_member lit
  read_part call_index part = elim (find_member (lit "text") part) [
    | some text ↦
        if is_true (find_member (lit "thought") part)
        then as_content (Content.extension gemini (object part))
        else ok (content_block (Content.text (text_of (some text))))
    | none ↦ media_block call_index part
  ]

  unfoldable pub part_block : ℕ → JsonValue → Result Block
  unfolding check_part read_part
  part_block call_index (object part) =
      check_part status request_id part >> read_part call_index part
  part_block call_index _ =
      err (malformed status request_id (lit "Gemini response content parts must be objects"))

  abbrev pub next_index : ℕ → Block → ℕ
  next_index call_index (content_block content) = call_index
  next_index call_index (call_block call) = call_index + 1

  -- The loop over the parts, with the number of calls so far.
  unfoldable pub part_blocks : ℕ → List JsonValue → Result (List Block)
  unfolding part_block
  part_blocks call_index [] = ok []
  part_blocks call_index (p ∷ ps) = do
    first ← part_block call_index p
    rest ← part_blocks (next_index call_index first) ps
    ok (first ∷ rest)
