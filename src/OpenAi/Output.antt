-- ===== src/OpenAi/Output.antt =====
-- The output items of a response of src/providers/openai.cpp: contents, images and calls.
use neural_plus.Prelude.{
  ℕ, ℤ, Bytes, lit, same, Bool, true, false, not, ◌&&◌, ◌||◌, Option, none, some, List, [], ◌∷◌,
  ◌++◌, drop, if◌then◌else◌, starts_with,
}
use neural_plus.Outcome.{Result, ok, err, Error, provider_error, throw_if, ◌>>=◌, ◌>>◌}
use neural_plus.Json.{JsonValue, string, array, object, Members, elements, find_member, is_string}
use neural_plus.Types.Content.{Content, empty_object}
use neural_plus.Types.Content
use neural_plus.Types.Message.{ToolCall}
use neural_plus.Provider.Base64.{base64_decode}
use neural_plus.Provider.Redact.{JsonText}
use neural_plus.Provider.Fields.{parse_tool_arguments, is_text, text_of, is_filled}
use neural_plus.OpenAi.Request.{the_provider, openai}

-- The format of an image by its first bytes.
unfoldable pub openai_image_media_type : List ℕ → Bytes
unfolding starts_with lit
openai_image_media_type bytes =
    if starts_with (0x89 ∷ 0x50 ∷ 0x4E ∷ 0x47 ∷ []) bytes
    then lit "image/png"
    else if starts_with (0xFF ∷ 0xD8 ∷ 0xFF ∷ []) bytes
    then lit "image/jpeg"
    else if starts_with (lit "RIFF") bytes && starts_with (lit "WEBP") (drop 8 bytes)
    then lit "image/webp"
    else lit "application/octet-stream"

-- What was read of the output: contents, calls, and whether there was a refusal.
pub record Output : Type 0 where
  pub contents : List Content
  pub calls : List ToolCall
  pub refused : Bool

abbrev pub nothing : Output
nothing = record { contents = []; calls = []; refused = false }

abbrev pub one_content : Content → Output
one_content c = record nothing { contents = c ∷ [] }

abbrev pub joined : Output → Output → Output
joined a b = record {
  contents = a.contents ++ b.contents;
  calls = a.calls ++ b.calls;
  refused = a.refused || b.refused;
}

abbrev pub elements_if_array : Option JsonValue → Option (List JsonValue)
elements_if_array (some (array es)) = some (elements es)
elements_if_array _ = none

abbrev pub is_text_or_absent : Option JsonValue → Bool
is_text_or_absent none = true
is_text_or_absent (some v) = is_string v

module _ (json : JsonText) (status : ℤ) (request_id : Bytes) where
  abbrev pub malformed : Bytes → Error
  malformed message =
      provider_error message the_provider status (lit "malformed_response") request_id

  unfoldable pub typed_part : Bytes → Members → Result Output
  unfolding Content.text Content.extension find_member lit
  typed_part type part =
      if same type (lit "output_text")
      then (do
        throw_if (not (is_text (find_member (lit "text") part)))
            (malformed (lit "OpenAI output_text content requires string text"))
        ok (one_content (Content.text (text_of (find_member (lit "text") part)))))
      else if same type (lit "refusal")
      then (do
        throw_if (not (is_text (find_member (lit "refusal") part)))
            (malformed (lit "OpenAI refusal content requires a string refusal"))
        ok (record nothing {
          contents = Content.text (text_of (find_member (lit "refusal") part)) ∷ [];
          refused = true;
        }))
      else (do content ← Content.extension openai (object part); ok (one_content content))

  unfoldable pub part_output : JsonValue → Result Output
  unfolding typed_part find_member lit
  part_output (object part) = elim (find_member (lit "type") part) [
    | none ↦ typed_part [] part
    | some (string type) ↦ typed_part type part
    | some _ ↦ err (malformed (lit "OpenAI response message content part type must be a string"))
  ]
  part_output _ = err (malformed (lit "OpenAI response message content parts must be objects"))

  unfoldable pub part_outputs : List JsonValue → Result Output
  unfolding part_output
  part_outputs [] = ok nothing
  part_outputs (p ∷ ps) = do first ← part_output p; rest ← part_outputs ps; ok (joined first rest)

  unfoldable pub image_output : Option (List ℕ) → Result Output
  unfolding Content.image_bytes openai_image_media_type lit
  image_output (some (b ∷ bytes)) = do
    image ← Content.image_bytes (b ∷ bytes) (openai_image_media_type (b ∷ bytes)) empty_object
    ok (one_content image)
  image_output _ = err (
      provider_error (lit "OpenAI returned malformed base64 image data") the_provider status
        (lit "malformed_image") request_id)

  unfoldable pub call_output : Members → Result Output
  unfolding find_member lit
  call_output item = do
    throw_if
        (not (is_filled (find_member (lit "call_id") item))
          || not (is_filled (find_member (lit "name") item))
          || not (is_text (find_member (lit "arguments") item)))
        (malformed (
          lit
            "OpenAI function_call requires non-empty string call_id and name fields and a string arguments field"))
    throw_if (not (is_text_or_absent (find_member (lit "id") item)))
        (malformed (lit "OpenAI function_call id must be a string when present"))
    ok (record nothing {
      calls =
          record {
            id = text_of (find_member (lit "call_id") item);
            name = text_of (find_member (lit "name") item);
            arguments =
                (parse_tool_arguments json (text_of (find_member (lit "arguments") item))).0;
            raw_arguments = text_of (find_member (lit "arguments") item);
            arguments_valid =
                (parse_tool_arguments json (text_of (find_member (lit "arguments") item))).1;
            provider_metadata = object item;
          }
          ∷ [];
    })

  unfoldable pub typed_item : Bytes → Members → Result Output
  unfolding part_outputs image_output call_output base64_decode find_member lit
  typed_item type item =
      if same type (lit "message")
      then elim (elements_if_array (find_member (lit "content") item)) [
        | none ↦ err (malformed (lit "OpenAI response message content must be an array"))
        | some parts ↦ part_outputs parts
      ]
      else if same type (lit "image_generation_call")
      then (do
        throw_if (not (is_text (find_member (lit "result") item)))
            (malformed (lit "OpenAI image generation output requires a string result"))
        image_output (base64_decode (text_of (find_member (lit "result") item))))
      else if same type (lit "function_call")
      then call_output item
      else ok nothing

  unfoldable pub item_output : JsonValue → Result Output
  unfolding typed_item find_member lit
  item_output (object item) = elim (find_member (lit "type") item) [
    | none ↦ typed_item [] item
    | some (string type) ↦ typed_item type item
    | some _ ↦ err (malformed (lit "OpenAI response output item type must be a string"))
  ]
  item_output _ = err (malformed (lit "OpenAI response output items must be objects"))

  -- The loop over the items of the output.
  unfoldable pub item_outputs : List JsonValue → Result Output
  unfolding item_output
  item_outputs [] = ok nothing
  item_outputs (v ∷ vs) = do first ← item_output v; rest ← item_outputs vs; ok (joined first rest)
