-- ===== src/OpenAi/Response.antt =====
-- `parse_openai_response` of src/providers/openai.cpp.
use neural_plus.Prelude.{
  ℕ, ℤ, Bytes, lit, same, Bool, not, Option, none, some, List, [], ◌∷◌, is_empty, if◌then◌else◌,
}
use neural_plus.Outcome.{Result, ok, err, ◌>>=◌}
use neural_plus.Json.{
  JsonValue, string, array, object, Elements, Members, elements, find_member, put_member,
  json_object,
}
use neural_plus.Types.Enums.{FinishReason}
use neural_plus.Types.Content.{Content, empty_object}
use neural_plus.Types.Content
use neural_plus.Types.Message.{Message, ToolCall, set_provider_metadata}
use neural_plus.Types.Message
use neural_plus.Types.Records.{TokenUsage, no_usage, AiResponse, response_of}
use neural_plus.Transport.{HttpResponse}
use neural_plus.Provider.Redact.{JsonText}
use neural_plus.Provider.Headers.{response_request_id}
use neural_plus.Provider.Fields.{
  string_field, size_field, successful_status, parse_response_json, throw_provider_error,
}
use neural_plus.OpenAi.Request.{the_provider, openai}
use neural_plus.OpenAi.Output.{malformed, item_outputs}

-- The message and the code of an error response.
abbrev pub error_texts : Option JsonValue → Bytes × Bytes
error_texts (some (object error)) =
    let code = string_field (object error) (lit "code") in
    (
      string_field (object error) (lit "message"),
      if is_empty code then string_field (object error) (lit "type") else code,
    )
error_texts _ = ([], [])

unfoldable pub throw_openai_http_error : JsonText → HttpResponse → Bytes → Result AiResponse
unfolding string_field throw_provider_error lit find_member
throw_openai_http_error json response request_id =
    let texts : Bytes × Bytes = elim (json.parse response.body) [
      | some (object ms) ↦ error_texts (find_member (lit "error") ms)
      | _ ↦ ([], [])
    ] in
    throw_provider_error the_provider response texts.0 texts.1 request_id

abbrev pub incomplete_reason : Option JsonValue → FinishReason
incomplete_reason (some (object details)) =
    if same (string_field (object details) (lit "reason")) (lit "max_output_tokens")
    then FinishReason.length
    else if same (string_field (object details) (lit "reason")) (lit "content_filter")
    then FinishReason.content_filter
    else FinishReason.unknown
incomplete_reason _ = FinishReason.unknown

unfoldable pub openai_finish_reason : Members → (has_tool_calls has_refusal : Bool) → FinishReason
unfolding lit string_field find_member
openai_finish_reason body has_tool_calls has_refusal =
    let status = string_field (object body) (lit "status") in
    if has_tool_calls
    then FinishReason.tool_calls
    else if has_refusal
    then FinishReason.refusal
    else if same status (lit "failed")
    then FinishReason.error
    else if same status (lit "completed")
    then FinishReason.stop
    else if same status (lit "incomplete")
    then incomplete_reason (find_member (lit "incomplete_details") body)
    else FinishReason.unknown

module _ (json : JsonText) (status : ℤ) (request_id : Bytes) where
  -- The message of an error is the text of a response that has no other content.
  unfoldable pub or_error_text : Option JsonValue → List Content → List Content
  unfolding string_field Content.text lit
  or_error_text (some (object error)) [] =
      let message = string_field (object error) (lit "message") in
      if is_empty message then [] else Content.text message ∷ []
  or_error_text error contents = contents

  abbrev pub detail_size : Option JsonValue → Bytes → Option ℕ
  detail_size (some (object details)) key = size_field (object details) key
  detail_size _ key = none

  unfoldable pub usage_of : Option JsonValue → TokenUsage
  unfolding size_field find_member lit
  usage_of (some (object usage)) = record no_usage {
    input_tokens = size_field (object usage) (lit "input_tokens");
    output_tokens = size_field (object usage) (lit "output_tokens");
    total_tokens = size_field (object usage) (lit "total_tokens");
    cached_input_tokens =
        detail_size (find_member (lit "input_tokens_details") usage) (lit "cached_tokens");
    reasoning_tokens =
        detail_size (find_member (lit "output_tokens_details") usage) (lit "reasoning_tokens");
  }
  usage_of _ = no_usage

  abbrev pub array_of : Option JsonValue → Option Elements
  array_of (some (array es)) = some es
  array_of _ = none

  unfoldable pub output_response : Members → Elements → Result AiResponse
  unfolding item_outputs or_error_text usage_of openai_finish_reason response_of
      set_provider_metadata Message.assistant string_field put_member find_member lit
  output_response body native = do
    output ← item_outputs json status request_id (elements native)
    ok
        (record (response_of (
          set_provider_metadata
            (json_object ((lit "provider", string openai) ∷ (lit "output", array native) ∷ []))
            (Message.assistant (or_error_text (find_member (lit "error") body) output.contents)
              output.calls))) {
                finish_reason =
                    openai_finish_reason body (not (is_empty output.calls)) output.refused;
                provider_model = string_field (object body) (lit "model");
                provider_request_id = request_id;
                usage = usage_of (find_member (lit "usage") body);
                provider_metadata =
                    json_object
                      ((lit "provider", string openai) ∷ (lit "response", object body) ∷ []);
              })

  unfoldable pub body_response : Members → Result AiResponse
  unfolding output_response find_member lit
  body_response body = elim (array_of (find_member (lit "output") body)) [
    | none ↦
        err (malformed json status request_id (lit "OpenAI response is missing the output array"))
    | some native ↦ output_response body native
  ]

unfoldable pub parse_openai_response : JsonText → HttpResponse → Result AiResponse
unfolding response_request_id successful_status throw_openai_http_error parse_response_json
    body_response string_field lit
parse_openai_response json response =
    let header_id = response_request_id response (lit "x-request-id" ∷ []) in
    if not (successful_status response.status)
    then throw_openai_http_error json response header_id
    else (do
      body ← parse_response_json json response the_provider header_id
      body_response json response.status
          (if is_empty header_id then string_field (object body) (lit "id") else header_id) body)
