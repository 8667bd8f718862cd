-- ===== src/Gemini/Response.antt =====
-- `parse_gemini_response` of src/providers/gemini.cpp.
use neural_plus.Prelude.{
  ℤ, Bytes, lit, same, Bool, true, false, not, ◌&&◌, Option, none, some, List, [], ◌∷◌, any,
  is_empty, if◌then◌else◌,
}
use neural_plus.Outcome.{Result, ok, err, ◌>>=◌}
use neural_plus.Json.{
  JsonValue, string, array, object, Members, end, elements, find_member, put_member, json_object,
}
use neural_plus.Types.Enums.{FinishReason}
use neural_plus.Types.Message.{Message, set_provider_metadata}
use neural_plus.Types.Message
use neural_plus.Types.Records.{TokenUsage, no_usage, AiRequest, AiResponse, response_of}
use neural_plus.Transport.{HttpResponse}
use neural_plus.Provider.Redact.{JsonText}
use neural_plus.Provider.Headers.{response_request_id}
use neural_plus.Provider.Blocks.{Block, contents_of, calls_of}
use neural_plus.Provider.Fields.{
  string_field, size_field, successful_status, parse_response_json, throw_provider_error,
}
use neural_plus.Gemini.Parts.{the_provider, gemini}
use neural_plus.Gemini.Checks.{malformed}
use neural_plus.Gemini.Contents.{part_blocks}

-- The message and the code of an error response.
abbrev pub error_texts : Option JsonValue → Bytes × Bytes
error_texts (some (object error)) =
    (string_field (object error) (lit "message"), string_field (object error) (lit "status"))
error_texts _ = ([], [])

unfoldable pub throw_gemini_http_error : JsonText → HttpResponse → Bytes → Result AiResponse
unfolding string_field throw_provider_error lit find_member
throw_gemini_http_error json response request_id =
    let texts : Bytes × Bytes = elim (json.parse response.body) [
      | some (object ms) ↦ error_texts (find_member (lit "error") ms)
      | _ ↦ ([], [])
    ] in
    throw_provider_error the_provider response texts.0 texts.1 request_id

abbrev pub filtered_reasons : List Bytes
filtered_reasons =
    lit "SAFETY"
    ∷ lit "RECITATION"
    ∷ lit "LANGUAGE"
    ∷ lit "BLOCKLIST"
    ∷ lit "PROHIBITED_CONTENT"
    ∷ lit "SPII"
    ∷ lit "IMAGE_SAFETY"
    ∷ lit "IMAGE_PROHIBITED_CONTENT"
    ∷ lit "IMAGE_RECITATION"
    ∷ lit "ESCALATION"
    ∷ []

abbrev pub error_reasons : List Bytes
error_reasons =
    lit "MALFORMED_FUNCTION_CALL"
    ∷ lit "UNEXPECTED_TOOL_CALL"
    ∷ lit "TOO_MANY_TOOL_CALLS"
    ∷ lit "MISSING_THOUGHT_SIGNATURE"
    ∷ lit "MALFORMED_RESPONSE"
    ∷ lit "NO_IMAGE"
    ∷ []

unfoldable pub gemini_finish_reason : Bytes → (has_tool_calls prompt_blocked : Bool) → FinishReason
unfolding lit
gemini_finish_reason reason has_tool_calls prompt_blocked =
    if has_tool_calls
    then FinishReason.tool_calls
    else if prompt_blocked
    then FinishReason.content_filter
    else if same reason (lit "STOP")
    then FinishReason.stop
    else if same reason (lit "MAX_TOKENS")
    then FinishReason.length
    else if any (same reason) filtered_reasons
    then FinishReason.content_filter
    else if any (same reason) error_reasons
    then FinishReason.error
    else FinishReason.unknown

-- The first candidate of a response.
pub data Candidate : Type 0 where
  no_candidate invalid_candidate : Candidate
  first_candidate : Members → Candidate

abbrev pub first_of : List JsonValue → Candidate
first_of [] = no_candidate
first_of (object ms ∷ vs) = first_candidate ms
first_of (v ∷ vs) = invalid_candidate

abbrev pub candidate_of : Option JsonValue → Candidate
candidate_of none = no_candidate
candidate_of (some (array es)) = first_of (elements es)
candidate_of (some _) = invalid_candidate

abbrev pub is_blocked : Option JsonValue → Bool
is_blocked (some (object feedback)) =
    not (is_empty (string_field (object feedback) (lit "blockReason")))
is_blocked _ = false

module _ (json : JsonText) (request : AiRequest) (status : ℤ) (request_id : Bytes) where
  -- The candidate, which is empty where the prompt was blocked, and whether there is one.
  unfoldable pub response_candidate : Members → Result (Members × Bool)
  unfolding string_field find_member lit
  response_candidate body = elim (candidate_of (find_member (lit "candidates") body)) [
    | no_candidate ↦
        if is_blocked (find_member (lit "promptFeedback") body)
        then ok (end, false)
        else err
            (malformed status request_id (lit "Gemini response is missing the candidates array"))
    | invalid_candidate ↦
        err (malformed status request_id (lit "Gemini response has an invalid candidates array"))
    | first_candidate candidate ↦ ok (candidate, true)
  ]

  abbrev pub content_or_empty : Option JsonValue → Result Members
  content_or_empty none = ok end
  content_or_empty (some (object content)) = ok content
  content_or_empty (some _) =
      err (malformed status request_id (lit "Gemini response candidate has invalid content"))

  abbrev pub parts_or_none : Option JsonValue → Bool → Bytes → Result (List JsonValue)
  parts_or_none (some (array parts)) has_candidate finish_reason = ok (elements parts)
  parts_or_none (some _) has_candidate finish_reason =
      err (malformed status request_id (lit "Gemini response candidate has invalid content parts"))
  parts_or_none none has_candidate finish_reason =
      if has_candidate && is_empty finish_reason
      then err (
          malformed status request_id
            (lit "Gemini response candidate is missing content parts and finishReason"))
      else ok []

  unfoldable pub usage_of : Option JsonValue → TokenUsage
  unfolding size_field lit
  usage_of (some (object usage)) = record no_usage {
    input_tokens = size_field (object usage) (lit "promptTokenCount");
    output_tokens = size_field (object usage) (lit "candidatesTokenCount");
    total_tokens = size_field (object usage) (lit "totalTokenCount");
    cached_input_tokens = size_field (object usage) (lit "cachedContentTokenCount");
    reasoning_tokens = size_field (object usage) (lit "thoughtsTokenCount");
  }
  usage_of _ = no_usage

  -- The response made of what was read.
  unfoldable pub made_response : Members → Bytes → Members → List Block → AiResponse
  unfolding usage_of gemini_finish_reason response_of set_provider_metadata Message.assistant
      string_field put_member find_member lit
  made_response body finish_reason native blocks =
      record (response_of (
        set_provider_metadata
          (json_object ((lit "provider", string gemini) ∷ (lit "content", object native) ∷ []))
          (Message.assistant (contents_of blocks) (calls_of blocks)))) {
            finish_reason =
                gemini_finish_reason finish_reason (not (is_empty (calls_of blocks)))
                  (is_blocked (find_member (lit "promptFeedback") body));
            provider_model = string_field (object body) (lit "modelVersion");
            provider_request_id = request_id;
            usage = usage_of (find_member (lit "usageMetadata") body);
            provider_metadata =
                json_object ((lit "provider", string gemini) ∷ (lit "response", object body) ∷ []);
          }

  unfoldable pub candidate_response : Members → Members × Bool → Result AiResponse
  unfolding part_blocks made_response string_field find_member lit
  candidate_response body (candidate, has_candidate) =
      let finish_reason = string_field (object candidate) (lit "finishReason") in
      (do
        native ← content_or_empty (find_member (lit "content") candidate)
        parts ← parts_or_none (find_member (lit "parts") native) has_candidate finish_reason
        blocks ← part_blocks json request status request_id 0 parts
        ok (made_response body finish_reason native blocks))

  unfoldable pub body_response : Members → Result AiResponse
  unfolding response_candidate candidate_response
  body_response body = do candidate ← response_candidate body; candidate_response body candidate

unfoldable pub parse_gemini_response : JsonText → HttpResponse → AiRequest → Result AiResponse
unfolding response_request_id successful_status throw_gemini_http_error parse_response_json
    body_response string_field lit
parse_gemini_response json response request =
    let header_id = response_request_id response (lit "x-request-id" ∷ []) in
    if not (successful_status response.status)
    then throw_gemini_http_error json response header_id
    else (do
      body ← parse_response_json json response the_provider header_id
      body_response json request response.status
          (if is_empty header_id then string_field (object body) (lit "responseId") else header_id)
          body)
