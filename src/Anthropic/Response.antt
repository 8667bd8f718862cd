-- ===== src/Anthropic/Response.antt =====
-- `parse_anthropic_response` of src/providers/anthropic.cpp.
pub mod Usage
use neural_plus.Prelude.{
  ℕ, ◌+◌, ◌-◌, ℤ, pos, Bytes, lit, same, Bool, true, false, not, ◌&&◌, ◌||◌, Option, none, some,
  List, [], ◌∷◌, ◌++◌, is_empty, leb, ltb, if◌then◌else◌,
}
use neural_plus.Outcome.{Result, ok, err, Error, provider_error, throw_if, ◌>>=◌, ◌>>◌}
use neural_plus.Json.{
  JsonValue, string, array, object, Elements, Members, elements, find_member, put_member,
  json_object,
}
use neural_plus.Types.Enums.{FinishReason}
use neural_plus.Types.Content.{Content}
use neural_plus.Types.Content
use neural_plus.Types.Message.{Message, ToolCall, set_provider_metadata}
use neural_plus.Types.Message
use neural_plus.Types.Records.{TokenUsage, no_usage, AiResponse, response_of}
use neural_plus.Client.Usage.{size_max}
use neural_plus.Transport.{HttpResponse}
use neural_plus.Provider.Redact.{JsonText}
use neural_plus.Provider.Headers.{response_request_id}
use neural_plus.Provider.Fields.{
  string_field, size_field, successful_status, parse_response_json, throw_provider_error, is_text,
  text_of, is_filled, members_or,
}
use neural_plus.Provider.Blocks.{Block, content_block, call_block, contents_of, calls_of}
use neural_plus.Anthropic.Request.{the_provider, anthropic}

-- The message, the code and the request id of an error response.
abbrev pub error_texts : Option JsonValue → Bytes × Bytes
error_texts (some (object error)) =
    (string_field (object error) (lit "message"), string_field (object error) (lit "type"))
error_texts _ = ([], [])

unfoldable pub throw_anthropic_http_error : JsonText → HttpResponse → Bytes → Result AiResponse
unfolding string_field throw_provider_error lit find_member
throw_anthropic_http_error json response request_id = elim (json.parse response.body) [
  | some (object ms) ↦
      (let id =
          if is_empty request_id then string_field (object ms) (lit "request_id") else request_id in
        let texts = error_texts (find_member (lit "error") ms) in
        throw_provider_error the_provider response texts.0 texts.1 id)
  | _ ↦ throw_provider_error the_provider response [] [] request_id
]

unfoldable pub anthropic_finish_reason : Bytes → Bool → FinishReason
unfolding lit
anthropic_finish_reason reason has_tool_calls =
    if has_tool_calls || same reason (lit "tool_use")
    then FinishReason.tool_calls
    else if same reason (lit "end_turn") || same reason (lit "stop_sequence")
    then FinishReason.stop
    else if same reason (lit "max_tokens") || same reason (lit "model_context_window_exceeded")
    then FinishReason.length
    else if same reason (lit "refusal")
    then FinishReason.refusal
    else FinishReason.unknown

abbrev pub object_of : Option Members → JsonValue
object_of none = JsonValue.null
object_of (some ms) = object ms

abbrev pub is_some_members : Option Members → Bool
is_some_members none = false
is_some_members (some ms) = true

-- `total += *count` where there is a count.
abbrev pub add_input : Error → Option ℕ → ℕ → Result ℕ
add_input overflow none total = ok total
add_input overflow (some count) total =
    if ltb (size_max - total) count then err overflow else ok (total + count)

-- The input with the tokens that a cache was filled with and those that it had.
abbrev pub total_input : Error → (uncached creation read : Option ℕ) → Result (Option ℕ)
total_input overflow none creation read = ok none
total_input overflow (some uncached) creation read = do
  first ← add_input overflow creation uncached
  second ← add_input overflow read first
  ok (some second)

-- The sum of input and output, where both are there and `std::size_t` holds it.
abbrev pub total_tokens : (input output : Option ℕ) → Option ℕ
total_tokens (some input) (some output) =
    if leb output (size_max - input) then some (input + output) else none
total_tokens input output = none

abbrev pub thinking : Option JsonValue → Option ℕ
thinking (some (object details)) = size_field (object details) (lit "thinking_tokens")
thinking _ = none

module _ (json : JsonText) (status : ℤ) (request_id : Bytes) where
  abbrev pub malformed : Bytes → Error
  malformed message =
      provider_error message the_provider status (lit "malformed_response") request_id

  abbrev pub overflow : Error
  overflow =
      provider_error (lit "Anthropic token usage overflow") the_provider status
        (lit "usage_overflow") request_id

  -- A block of type "tool_use". Its arguments are printed as their raw text.
  unfoldable pub tool_use_block : Members → Result Block
  unfolding find_member lit
  tool_use_block block =
      let input = members_or (find_member (lit "input") block) in
      throw_if
        (not (is_filled (find_member (lit "id") block))
          || not (is_filled (find_member (lit "name") block))
          || not (is_some_members input))
        (malformed
          (lit "Anthropic tool_use content requires non-empty string id and name and object input"))
      >> (do
        raw ← json.dump (object_of input)
        ok (
            call_block (record {
              id = text_of (find_member (lit "id") block);
              name = text_of (find_member (lit "name") block);
              arguments = object_of input;
              raw_arguments = raw;
              arguments_valid = true;
              provider_metadata = object block;
            })))

  unfoldable pub typed_block : Bytes → Members → Result Block
  unfolding tool_use_block Content.text Content.extension find_member lit
  typed_block type block =
      if same type (lit "text")
      then (do
        throw_if (not (is_text (find_member (lit "text") block)))
            (malformed (lit "Anthropic text content requires string text"))
        ok (content_block (Content.text (text_of (find_member (lit "text") block)))))
      else if same type (lit "tool_use")
      then tool_use_block block
      else (do content ← Content.extension anthropic (object block); ok (content_block content))

  unfoldable pub block_of : JsonValue → Result Block
  unfolding typed_block find_member lit
  block_of (object block) = elim (find_member (lit "type") block) [
    | none ↦ typed_block [] block
    | some (string type) ↦ typed_block type block
    | some _ ↦ err (malformed (lit "Anthropic response content block type must be a string"))
  ]
  block_of _ = err (malformed (lit "Anthropic response content blocks must be objects"))

  unfoldable pub blocks_of : List JsonValue → Result (List Block)
  unfolding block_of
  blocks_of [] = ok []
  blocks_of (v ∷ vs) = do first ← block_of v; rest ← blocks_of vs; ok (first ∷ rest)

  unfoldable pub usage_of : Option JsonValue → Result TokenUsage
  unfolding size_field find_member lit
  usage_of (some (object usage)) =
      let creation = size_field (object usage) (lit "cache_creation_input_tokens") in
      let read = size_field (object usage) (lit "cache_read_input_tokens") in
      let output = size_field (object usage) (lit "output_tokens") in
      total_input overflow (size_field (object usage) (lit "input_tokens")) creation read
      >>= (λ input. ok (record {
        input_tokens = input;
        output_tokens = output;
        total_tokens = total_tokens input output;
        cached_input_tokens = read;
        cache_creation_input_tokens = creation;
        reasoning_tokens = thinking (find_member (lit "output_tokens_details") usage);
      }))
  usage_of _ = ok no_usage

  abbrev pub elements_of_content : Option JsonValue → Option Elements
  elements_of_content (some (array es)) = some es
  elements_of_content _ = none

  abbrev pub message_of : Elements → List Block → Message
  message_of native blocks =
      set_provider_metadata
        (json_object ((lit "provider", string anthropic) ∷ (lit "content", array native) ∷ []))
        (Message.assistant (contents_of blocks) (calls_of blocks))

  unfoldable pub content_response : Members → Elements → Result AiResponse
  unfolding blocks_of usage_of anthropic_finish_reason response_of set_provider_metadata
      Message.assistant string_field put_member find_member lit
  content_response body native = do
    blocks ← blocks_of (elements native)
    usage ← usage_of (find_member (lit "usage") body)
    ok (record (response_of (message_of native blocks)) {
      finish_reason =
          anthropic_finish_reason (string_field (object body) (lit "stop_reason"))
            (not (is_empty (calls_of blocks)));
      requires_continuation =
          same (string_field (object body) (lit "stop_reason")) (lit "pause_turn");
      provider_model = string_field (object body) (lit "model");
      provider_request_id = request_id;
      usage = usage;
      provider_metadata =
          json_object ((lit "provider", string anthropic) ∷ (lit "response", object body) ∷ []);
    })

  unfoldable pub body_response : Members → Result AiResponse
  unfolding content_response find_member lit
  body_response body = elim (elements_of_content (find_member (lit "content") body)) [
    | none ↦ err (malformed (lit "Anthropic response is missing the content array"))
    | some native ↦ content_response body native
  ]

unfoldable pub parse_anthropic_response : JsonText → HttpResponse → Result AiResponse
unfolding response_request_id successful_status throw_anthropic_http_error parse_response_json
    body_response string_field lit
parse_anthropic_response json response =
    let header_id = response_request_id response (lit "request-id" ∷ []) in
    if not (successful_status response.status)
    then throw_anthropic_http_error json response header_id
    else (do
      body ← parse_response_json json response the_provider header_id
      body_response json response.status
          (if is_empty header_id then string_field (object body) (lit "id") else header_id) body)
