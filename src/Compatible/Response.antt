-- ===== src/Compatible/Response.antt =====
-- `parse_compatible_response` of src/providers/openai_compatible.cpp.
pub mod Named
use neural_plus.Prelude.{
  ℕ, ℤ, pos, Bytes, lit, same, to_string, Bool, true, false, not, ◌&&◌, ◌||◌, Option, none, some,
  List, [], ◌∷◌, ◌++◌, is_empty, length, if◌then◌else◌,
}
use neural_plus.Outcome.{Result, ok, err, Error, provider_error, throw_if, ◌>>=◌, ◌>>◌}
use neural_plus.Json.{
  JsonValue, null, boolean, string, array, object, Elements, nil, cons, Members, is_null, is_string,
  is_number_integer, elements, find, find_member, put_member, erase_member, json_object,
}
use neural_plus.Types.Enums.{Provider, FinishReason}
use neural_plus.Types.Content.{Content, empty_object}
use neural_plus.Types.Content
use neural_plus.Types.Message.{Message, ToolCall, set_provider_metadata}
use neural_plus.Types.Message
use neural_plus.Types.Records.{TokenUsage, no_usage, AiRequest, AiResponse, response_of}
use neural_plus.Transport.{HttpResponse}
use neural_plus.Provider.Base64.{base64_decode}
use neural_plus.Provider.Redact.{JsonText}
use neural_plus.Provider.Headers.{response_request_id}
use neural_plus.Provider.Fields.{
  string_field, size_field, successful_status, parse_response_json, parse_tool_arguments,
  throw_provider_error,
}
use neural_plus.Compatible.Parts.{the_provider, compatible}
use neural_plus.Compatible.Shapes.{
  malformed, is_integer_or_absent, is_text_or_absent, first_choice, usage_of, legacy_id,
  compatible_finish_reason,
}
use neural_plus.Provider.Fields.{is_text, text_of, is_filled, members_or, is_present}
use neural_plus.Compatible.Contents.{message_contents, refusal_contents, audio_contents}
use neural_plus.Compatible.Calls.{message_tool_calls, legacy_calls}

-- The message and the code of an error response.
abbrev pub error_texts : Option JsonValue → Bytes × Bytes
error_texts (some (object error)) =
    let code = string_field (object error) (lit "code") in
    (
      string_field (object error) (lit "message"),
      if is_empty code then string_field (object error) (lit "type") else code,
    )
error_texts _ = ([], [])

unfoldable pub throw_compatible_http_error : JsonText → HttpResponse → Bytes → Result AiResponse
unfolding string_field throw_provider_error lit find_member
throw_compatible_http_error json response request_id =
    let texts : Bytes × Bytes = elim (json.parse response.body) [
      | some (object ms) ↦ error_texts (find_member (lit "error") ms)
      | _ ↦ ([], [])
    ] in
    throw_provider_error the_provider response texts.0 texts.1 request_id

-- The status of the response, and its request id: what every error carries.
module _ (json : JsonText) (status : ℤ) (request_id : Bytes) where
  unfoldable pub response_message : AiRequest → Members → Result Message
  unfolding message_contents message_tool_calls legacy_calls refusal_contents audio_contents
      Message.assistant set_provider_metadata put_member find_member lit
  response_message request native = do
    contents ← message_contents status request_id (find_member (lit "content") native)
    named ← message_tool_calls json status request_id (find_member (lit "tool_calls") native)
    calls ←
        legacy_calls json status request_id request (find_member (lit "function_call") native) named
    sounds ←
        audio_contents status request_id (find_member (lit "audio") native)
          (refusal_contents status request_id (find_member (lit "refusal") native) contents)
    ok (
        set_provider_metadata
          (json_object ((lit "provider", string compatible) ∷ (lit "message", object native) ∷ []))
          (Message.assistant sounds calls))

  -- The response, of the body and its first choice.
  unfoldable pub choice_response : AiRequest → Members → Members → Members → Result AiResponse
  unfolding response_message compatible_finish_reason response_of usage_of string_field put_member
      find_member lit
  choice_response request body choice native = do
    message ← response_message request native
    ok (record (response_of message) {
      finish_reason =
          compatible_finish_reason (string_field (object choice) (lit "finish_reason"))
            (not (is_empty message.tool_calls)) (is_present (find_member (lit "refusal") native));
      provider_model = string_field (object body) (lit "model");
      provider_request_id = request_id;
      usage = usage_of (find_member (lit "usage") body);
      provider_metadata =
          json_object ((lit "provider", string compatible) ∷ (lit "response", object body) ∷ []);
    })

  unfoldable pub body_response : AiRequest → Members → Result AiResponse
  unfolding choice_response find_member lit
  body_response request body = elim (first_choice (find_member (lit "choices") body)) [
    | none ↦ err (
        malformed status request_id
          (lit "OpenAI-compatible response is missing a valid choices array"))
    | some choice ↦ elim (members_or (find_member (lit "message") choice)) [
      | none ↦ err (
          malformed status request_id
            (lit "OpenAI-compatible response choice is missing the message object"))
      | some native ↦ choice_response request body choice native
    ]
  ]

unfoldable pub parse_compatible_response : JsonText → HttpResponse → AiRequest → Result AiResponse
unfolding response_request_id successful_status throw_compatible_http_error parse_response_json
    body_response string_field lit
parse_compatible_response json response request =
    let header_id = response_request_id response (lit "x-request-id" ∷ []) in
    if not (successful_status response.status)
    then throw_compatible_http_error json response header_id
    else (do
      body ← parse_response_json json response the_provider header_id
      body_response json response.status
          (if is_empty header_id then string_field (object body) (lit "id") else header_id) request
          body)
