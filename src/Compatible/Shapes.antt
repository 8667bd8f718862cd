-- ===== src/Compatible/Shapes.antt =====
-- Looking at the values of a response of src/providers/openai_compatible.cpp, its finish reason and its
-- token usage.
use neural_plus.Prelude.{
  ℕ, ℤ, Bytes, lit, same, to_string, Bool, true, ◌||◌, Option, none, some, ◌++◌, length,
  if◌then◌else◌,
}
use neural_plus.Outcome.{Error, provider_error}
use neural_plus.Json.{
  JsonValue, array, object, cons, Members, is_string, is_number_integer, find_member,
}
use neural_plus.Types.Enums.{FinishReason}
use neural_plus.Types.Records.{TokenUsage, no_usage, AiRequest}
use neural_plus.Provider.Fields.{size_field}
use neural_plus.Compatible.Parts.{the_provider}

unfoldable pub compatible_finish_reason : Bytes → (has_tool_calls has_refusal : Bool) → FinishReason
unfolding lit
compatible_finish_reason reason has_tool_calls has_refusal =
    if has_tool_calls || same reason (lit "tool_calls") || same reason (lit "function_call")
    then FinishReason.tool_calls
    else if has_refusal
    then FinishReason.refusal
    else if same reason (lit "stop")
    then FinishReason.stop
    else if same reason (lit "length")
    then FinishReason.length
    else if same reason (lit "content_filter")
    then FinishReason.content_filter
    else FinishReason.unknown

-- The error of a response with that status and request id.
abbrev pub malformed : ℤ → Bytes → Bytes → Error
malformed status request_id message =
    provider_error message the_provider status (lit "malformed_response") request_id

abbrev pub is_integer_or_absent : Option JsonValue → Bool
is_integer_or_absent none = true
is_integer_or_absent (some v) = is_number_integer v

abbrev pub is_text_or_absent : Option JsonValue → Bool
is_text_or_absent none = true
is_text_or_absent (some v) = is_string v

abbrev pub first_choice : Option JsonValue → Option Members
first_choice (some (array (cons (object choice) es))) = some choice
first_choice _ = none

abbrev pub detail_size : Option JsonValue → Bytes → Option ℕ
detail_size (some (object details)) key = size_field (object details) key
detail_size _ key = none

unfoldable pub usage_of : Option JsonValue → TokenUsage
unfolding size_field find_member lit
usage_of (some (object usage)) = record no_usage {
  input_tokens = size_field (object usage) (lit "prompt_tokens");
  output_tokens = size_field (object usage) (lit "completion_tokens");
  total_tokens = size_field (object usage) (lit "total_tokens");
  reasoning_tokens =
      detail_size (find_member (lit "completion_tokens_details") usage) (lit "reasoning_tokens");
  cached_input_tokens =
      detail_size (find_member (lit "prompt_tokens_details") usage) (lit "cached_tokens");
}
usage_of _ = no_usage

-- The id of a call that has none of its own.
abbrev pub legacy_id : AiRequest → Bytes
legacy_id request =
    lit "legacy_function_call_"
    ++ (request.run_id ++ (lit "_" ++ to_string (length request.messages)))
