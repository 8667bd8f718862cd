-- ===== src/Tests/Gemini.antt =====
-- Runs of the Gemini client.
use neural_plus.Prelude.{Bytes, lit, ◌≡◌, refl, pos, true, none, [], ◌∷◌, same}
use neural_plus.Outcome.{ok, err, configuration_error}
use neural_plus.Json.{JsonValue, string, object, end, json_object, less, put_member}
use neural_plus.Types.Message.{user_text, assistant_text}
use neural_plus.Types.Content
use neural_plus.Types.Records.{AiRequest, default_generate_options}
use neural_plus.Provider.Redact.{JsonText}
use neural_plus.Provider.Blocks.{call_block}
use neural_plus.Gemini.{gemini_model_path}
use neural_plus.Gemini.Request.{append_gemini_history, turn}
use neural_plus.Gemini.Contents.{part_blocks}

path_with_prefix : gemini_model_path (lit "models/m-1.5") ≡ ok (lit "/models/m-1.5:generateContent")
unfolding gemini_model_path
path_with_prefix = refl

path_with_slash :
    gemini_model_path (lit "a/b")
    ≡ err (configuration_error (lit "Gemini model id must be one URL-safe model path segment"))
unfolding gemini_model_path
path_with_slash = refl

abbrev json : JsonText
json = record { parse = λ text. none; dump = λ value. ok (lit "{}") }

abbrev text_part : Bytes → JsonValue
text_part text = json_object ((lit "text", string text) ∷ [])

-- Two messages of the user are one turn.
turns_of_messages :
    append_gemini_history json []
      (user_text (lit "a") ∷ user_text (lit "b") ∷ assistant_text (lit "c") [] ∷ [])
    ≡ ok (
        turn (lit "user") (text_part (lit "a") ∷ text_part (lit "b") ∷ [])
        ∷ turn (lit "model") (text_part (lit "c") ∷ [])
        ∷ [])
unfolding append_gemini_history turn user_text Content.text assistant_text same less
turns_of_messages = refl

abbrev request : AiRequest
request = record {
  session_id = lit "s";
  run_id = lit "r";
  system_message = none;
  messages = user_text (lit "a") ∷ [];
  tools = [];
  options = default_generate_options;
}

abbrev call : JsonValue
call = json_object ((lit "functionCall", json_object ((lit "name", string (lit "f")) ∷ [])) ∷ [])

-- Calls without an id get one by their place.
calls_numbered :
    part_blocks json request (pos 200) [] 0 (call ∷ call ∷ [])
    ≡ ok (
        call_block (record {
          id = lit "gemini_call_r_1_0";
          name = lit "f";
          arguments = object end;
          raw_arguments = lit "{}";
          arguments_valid = true;
          provider_metadata = call;
        })
        ∷ call_block (record {
          id = lit "gemini_call_r_1_1";
          name = lit "f";
          arguments = object end;
          raw_arguments = lit "{}";
          arguments_valid = true;
          provider_metadata = call;
        })
        ∷ [])
unfolding part_blocks put_member same
calls_numbered = refl
