-- ===== src/Compatible/Contents.antt =====
-- The contents of a response of src/providers/openai_compatible.cpp: texts, images, extensions, the
-- refusal and the audio.
use neural_plus.Prelude.{
  ℕ, ℤ, Bytes, lit, same, not, ◌&&◌, ◌||◌, Option, none, some, List, [], ◌∷◌, ◌++◌, is_empty,
  if◌then◌else◌,
}
use neural_plus.Outcome.{Result, ok, err, provider_error, throw_if, ◌>>=◌, ◌>>◌}
use neural_plus.Json.{
  JsonValue, null, string, array, object, Members, elements, find_member, erase_member,
}
use neural_plus.Types.Content.{Content, empty_object}
use neural_plus.Types.Content
use neural_plus.Provider.Base64.{base64_decode}
use neural_plus.Compatible.Parts.{the_provider, compatible}
use neural_plus.Compatible.Shapes.{malformed, is_integer_or_absent, is_text_or_absent}
use neural_plus.Provider.Fields.{is_text, text_of, is_filled}

module _ (status : ℤ) (request_id : Bytes) where
  unfoldable pub image_content : Option JsonValue → Result Content
  unfolding Content.image_url find_member lit
  image_content (some (object image)) = do
    throw_if (not (is_filled (find_member (lit "url") image))) (
        malformed status request_id
          (lit "OpenAI-compatible image_url content requires a string URL"))
    Content.image_url (text_of (find_member (lit "url") image)) [] empty_object
  image_content _ =
      err
        (malformed status request_id (lit "OpenAI-compatible image_url content requires an object"))

  unfoldable pub typed_content : Bytes → Members → Result Content
  unfolding image_content Content.text Content.extension find_member lit
  typed_content type part =
      if same type (lit "text")
      then (do
        throw_if (not (is_text (find_member (lit "text") part))) (
            malformed status request_id (lit "OpenAI-compatible text content requires string text"))
        ok (Content.text (text_of (find_member (lit "text") part))))
      else if same type (lit "image_url")
      then image_content (find_member (lit "image_url") part)
      else Content.extension compatible (object part)

  unfoldable pub part_content : JsonValue → Result Content
  unfolding typed_content find_member lit
  part_content (object part) = elim (find_member (lit "type") part) [
    | none ↦ typed_content [] part
    | some (string type) ↦ typed_content type part
    | some _ ↦
        err
          (malformed status request_id (lit "OpenAI-compatible content part type must be a string"))
  ]
  part_content _ =
      err (
        malformed status request_id (lit "OpenAI-compatible message content parts must be objects"))

  unfoldable pub part_contents : List JsonValue → Result (List Content)
  unfolding part_content
  part_contents [] = ok []
  part_contents (p ∷ ps) = do first ← part_content p; rest ← part_contents ps; ok (first ∷ rest)

  unfoldable pub message_contents : Option JsonValue → Result (List Content)
  unfolding part_contents Content.text
  message_contents none = ok []
  message_contents (some (string s)) = ok (Content.text s ∷ [])
  message_contents (some (array es)) = part_contents (elements es)
  message_contents (some null) = ok []
  message_contents (some _) = err (
      malformed status request_id
        (lit "OpenAI-compatible message content must be a string, array, or null"))

  -- A refusal is the text of a message that has no other.
  unfoldable pub refusal_contents : Option JsonValue → List Content → List Content
  unfolding Content.text
  refusal_contents (some (string text)) [] = Content.text text ∷ []
  refusal_contents refusal contents = contents

  -- The audio that was decoded, after its transcript where there is no other content.
  unfoldable pub decoded_audio : Members → Option (List ℕ) → List Content → Result (List Content)
  unfolding Content.text Content.audio_bytes find_member erase_member lit
  decoded_audio audio (some (b ∷ bytes)) contents = do
    sound ←
        Content.audio_bytes (b ∷ bytes) (lit "application/octet-stream")
          (object (erase_member (lit "data") audio))
    ok (
        (if is_empty contents && is_filled (find_member (lit "transcript") audio)
          then Content.text (text_of (find_member (lit "transcript") audio)) ∷ []
          else contents)
        ++ sound ∷ [])
  decoded_audio audio _ contents = err (
      provider_error (lit "OpenAI-compatible message audio contains malformed base64") the_provider
        status (lit "malformed_audio") request_id)

  unfoldable pub audio_contents : Option JsonValue → List Content → Result (List Content)
  unfolding decoded_audio base64_decode find_member lit
  audio_contents none contents = ok contents
  audio_contents (some null) contents = ok contents
  audio_contents (some (object audio)) contents = do
    throw_if
        (not (is_filled (find_member (lit "id") audio))
          || not (is_text (find_member (lit "data") audio))
          || not (is_integer_or_absent (find_member (lit "expires_at") audio))
          || not (is_text_or_absent (find_member (lit "transcript") audio)))
        (malformed status request_id
          (lit "OpenAI-compatible message audio has invalid id, data, expiry, or transcript"))
    decoded_audio audio (base64_decode (text_of (find_member (lit "data") audio))) contents
  audio_contents (some _) contents = err (
      malformed status request_id (lit "OpenAI-compatible message audio must be an object or null"))
