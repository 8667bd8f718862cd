-- ===== src/Tests/Compatible.antt =====
-- Runs of the client of compatible servers. The JSON library is a table: one text is parsed to the body of
-- a response, any other is discarded, and every value is printed as one text.
use neural_plus.Prelude.{
  ℕ, pos, Bytes, lit, same, ◌≡◌, refl, true, false, none, some, List, [], ◌∷◌, ◌++◌, includes,
  is_empty, if◌then◌else◌, All, ◌⊎◌, to_string,
}
use neural_plus.Outcome.{Result, ok, err, provider_error, ◌>>=◌}
use neural_plus.Exec.{Exec, continue}
use neural_plus.Json.{
  JsonValue, null, boolean, string, array, elements_of, json_object, find, less, update_members,
}
use neural_plus.Types.Enums.{Provider, Role, FinishReason}
use neural_plus.Types.Content
use neural_plus.Types.Message.{user_text}
use neural_plus.Types.Records.{
  ModelDescriptor, default_model, default_generate_options, AiRequest, AiResponse, response_of,
}
use neural_plus.Transport.{HttpRequest, HttpResponse, ascii_lower}
use neural_plus.Provider.Redact.{JsonText, replacement}
use neural_plus.Provider.Redact.Safety.{has_byte}
use neural_plus.Provider.Fields.{successful_status}
use neural_plus.Compatible.{CompatibleClient, exchange, sensitive_values, generate_once}
use neural_plus.Compatible.Guarantees.{generate_once-Hides}
use neural_plus.Compatible.Request.{
  make_compatible_request, system_messages, compatible_system_instruction, history,
}
use neural_plus.Compatible.Request.Fixed.{make_compatible_request-fixed}
use neural_plus.Compatible.Response.{parse_compatible_response}
use neural_plus.Compatible.Response.Named.{NamedCall, parse_compatible_response-WellFormed}

abbrev call_body : JsonValue
call_body = json_object (
    (
      lit "choices",
      array (
          elements_of (
            json_object (
              (
                lit "message",
                json_object (
                    (
                      lit "tool_calls",
                      array (
                          elements_of (
                            json_object (
                              (lit "id", string (lit "c1"))
                              ∷ (lit "type", string (lit "function"))
                              ∷ (
                                lit "function",
                                json_object (
                                    (lit "name", string (lit "f"))
                                    ∷ (lit "arguments", string (lit "{}"))
                                    ∷ []),
                              )
                              ∷ [])
                            ∷ [])),
                    )
                    ∷ []),
              )
              ∷ [])
            ∷ [])),
    )
    ∷ [])

abbrev json : JsonText
json = record {
  parse = λ text. if same text (lit "call") then some call_body else none;
  dump = λ value. ok (lit "{}");
}

abbrev http : HttpResponse
http = record { status = pos 200; headers = []; body = lit "call" }

abbrev model : ModelDescriptor
model = record default_model { provider = Provider.openai_compatible; id = lit "m" }

abbrev request : AiRequest
request = record {
  session_id = lit "s";
  run_id = lit "r";
  system_message = some (lit "Be brief.");
  messages = user_text (lit "hello") ∷ [];
  tools = [];
  options = default_generate_options;
}

abbrev value_or : AiResponse → Result AiResponse → AiResponse
value_or other (ok response) = response
value_or other (err e) = other

abbrev parsed : AiResponse
parsed = value_or (response_of (user_text [])) (parse_compatible_response json http request)

parses : parse_compatible_response json http request ≡ ok parsed
unfolding parse_compatible_response same less
parses = refl

parse_compatible_response-WellFormed_example :
    (successful_status http.status ≡ true)
    × (parsed.message.role ≡ Role.assistant)
    × All NamedCall parsed.message.tool_calls
    × ((is_empty parsed.message.tool_calls ≡ true)
        ⊎ (parsed.finish_reason ≡ FinishReason.tool_calls))
parse_compatible_response-WellFormed_example =
    parse_compatible_response-WellFormed json http request parsed parses

abbrev json_or_null : Result JsonValue → JsonValue
json_or_null (ok value) = value
json_or_null (err e) = null

abbrev made : JsonValue
made = json_or_null (make_compatible_request model request)

makes : make_compatible_request model request ≡ ok made
unfolding make_compatible_request user_text Content.text update_members same less
makes = refl

make_compatible_request-fixed_example :
    (messages : List JsonValue) × (history request.messages ≡ ok messages)
    × (find (lit "model") made ≡ some (string model.id))
    × (find (lit "stream") made ≡ some (boolean false))
    × (find (lit "messages") made
        ≡ some (
            array
              (elements_of (system_messages (compatible_system_instruction request) ++ messages))))
make_compatible_request-fixed_example = make_compatible_request-fixed model request made makes

abbrev key : Bytes
key = lit "sk-1"

abbrev client : CompatibleClient
client = record {
  config = record {
    model = model;
    api_key = none;
    api_key_environment = none;
    base_url = lit "http://localhost/v1";
    extra_headers = [];
  };
  endpoint = lit "http://localhost/v1/chat/completions";
  api_key = some key;
}

-- A server that answers every request with an error that echoes the key.
abbrev transport : HttpRequest → Exec ℕ HttpResponse
transport sent n = (ok (record { status = pos 401; headers = []; body = lit "no sk-1" }), n)

abbrev status_text : Bytes
status_text = lit "provider request failed with HTTP status 401"

fails :
    generate_once json transport client request 0
    ≡ (err (provider_error status_text Provider.openai_compatible (pos 401) [] []), 0)
unfolding generate_once continue user_text Content.text update_members same less exchange
    sensitive_values ascii_lower parse_compatible_response to_string
fails = refl

filled_key : is_empty key ≡ false
unfolding lit
filled_key = refl

no_bracket : has_byte b'[' key ≡ false
unfolding lit
no_bracket = refl

no_end : has_byte b']' key ≡ false
unfolding lit
no_end = refl

no_part : includes key replacement ≡ false
unfolding includes lit
no_part = refl

request_text : (make_compatible_request client.config.model request >>= json.dump) ≡ ok (lit "{}")
unfolding make_compatible_request user_text Content.text update_members same less
request_text = refl

generate_once-Hides_example :
    (includes key status_text ≡ false) × (includes key [] ≡ false) × (includes key [] ≡ false)
generate_once-Hides_example =
    generate_once-Hides json transport client request 0 0 key (lit "{}") status_text
      Provider.openai_compatible (pos 401) [] [] refl filled_key no_bracket no_end no_part
      request_text fails
