-- ===== src/Compatible/Calls.antt =====
-- The tool calls of a response of src/providers/openai_compatible.cpp.
use neural_plus.Prelude.{
  ℤ, Bytes, lit, same, true, not, ◌||◌, Option, none, some, List, [], ◌∷◌, ◌++◌, is_empty,
  if◌then◌else◌,
}
use neural_plus.Outcome.{Result, ok, err, provider_error, throw_if, ◌>>=◌, ◌>>◌}
use neural_plus.Json.{
  JsonValue, null, boolean, array, object, Members, elements, find_member, put_member, json_object,
}
use neural_plus.Types.Message.{ToolCall}
use neural_plus.Types.Records.{AiRequest}
use neural_plus.Provider.Redact.{JsonText}
use neural_plus.Provider.Fields.{parse_tool_arguments}
use neural_plus.Compatible.Parts.{the_provider}
use neural_plus.Compatible.Shapes.{malformed, legacy_id}
use neural_plus.Provider.Fields.{is_text, text_of, is_filled, members_or}

module _ (json : JsonText) (status : ℤ) (request_id : Bytes) where
  abbrev pub made_call : (id name raw : Bytes) → JsonValue → ToolCall
  made_call id name raw metadata = record {
    id = id;
    name = name;
    arguments = (parse_tool_arguments json raw).0;
    raw_arguments = raw;
    arguments_valid = (parse_tool_arguments json raw).1;
    provider_metadata = metadata;
  }

  -- The `function` of a call of type `type`.
  unfoldable pub function_call : Bytes → Bytes → Members → JsonValue → Result ToolCall
  unfolding find_member lit
  function_call id type function native_call = do
    throw_if (not (same type (lit "function"))) (
        provider_error (lit "OpenAI-compatible tool call type is not supported: " ++ type)
          the_provider status (lit "unsupported_tool_call") request_id)
    throw_if
        (not (is_filled (find_member (lit "name") function))
          || not (is_text (find_member (lit "arguments") function)))
        (malformed status request_id (
          lit
            "OpenAI-compatible function tool call requires a non-empty string name and string arguments"))
    ok (
        made_call id (text_of (find_member (lit "name") function))
          (text_of (find_member (lit "arguments") function)) native_call)

  unfoldable pub native_tool_call : JsonValue → Result ToolCall
  unfolding function_call find_member lit
  native_tool_call (object native) =
      let incomplete = malformed status request_id (
        lit
          "OpenAI-compatible tool call requires a non-empty string id, string type, and function object") in
      throw_if
        (not (is_filled (find_member (lit "id") native))
          || not (is_text (find_member (lit "type") native)))
        incomplete
      >> elim (members_or (find_member (lit "function") native)) [
        | none ↦ err incomplete
        | some function ↦
            function_call (text_of (find_member (lit "id") native))
              (text_of (find_member (lit "type") native)) function (object native)
      ]
  native_tool_call _ =
      err (malformed status request_id (lit "OpenAI-compatible tool_calls entries must be objects"))

  unfoldable pub native_tool_calls : List JsonValue → Result (List ToolCall)
  unfolding native_tool_call
  native_tool_calls [] = ok []
  native_tool_calls (v ∷ vs) = do
    first ← native_tool_call v
    rest ← native_tool_calls vs
    ok (first ∷ rest)

  unfoldable pub message_tool_calls : Option JsonValue → Result (List ToolCall)
  unfolding native_tool_calls
  message_tool_calls none = ok []
  message_tool_calls (some null) = ok []
  message_tool_calls (some (array es)) = native_tool_calls (elements es)
  message_tool_calls (some _) = err (
      malformed status request_id
        (lit "OpenAI-compatible message tool_calls must be an array or null"))

  unfoldable pub legacy_calls :
      AiRequest → Option JsonValue → List ToolCall → Result (List ToolCall)
  unfolding find_member put_member lit
  legacy_calls request none calls = ok calls
  legacy_calls request (some null) calls = ok calls
  legacy_calls request (some (object function)) calls = do
    throw_if
        (not (is_filled (find_member (lit "name") function))
          || not (is_text (find_member (lit "arguments") function)))
        (malformed status request_id (
          lit
            "OpenAI-compatible legacy function_call requires a non-empty string name and string arguments"))
    ok (
        if is_empty calls
        then made_call (legacy_id request) (text_of (find_member (lit "name") function))
            (text_of (find_member (lit "arguments") function))
            (json_object (
              (lit "legacy_function_call", boolean true)
              ∷ (lit "function_call", object function)
              ∷ []))
          ∷ []
        else calls)
  legacy_calls request (some _) calls = err (
      malformed status request_id
        (lit "OpenAI-compatible message function_call must be an object or null"))
