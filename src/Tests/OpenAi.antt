-- ===== src/Tests/OpenAi.antt =====
-- Runs of the OpenAI client.
use neural_plus.Prelude.{
  ℕ, pos, Bytes, lit, ◌≡◌, refl, false, none, some, List, [], ◌∷◌, includes, is_empty, same,
}
use neural_plus.Outcome.{Result, ok, err, provider_error}
use neural_plus.Exec.{Exec, continue}
use neural_plus.Json.{
  JsonValue, null, string, boolean, array, elements_of, find, less, update_members,
}
use neural_plus.Types.Enums.{Provider}
use neural_plus.Types.Message.{Message, user_text, assistant_text}
use neural_plus.Types.Content
use neural_plus.Types.Records.{default_model, default_generate_options, AiRequest}
use neural_plus.Transport.{ascii_lower, HttpRequest, HttpResponse}
use neural_plus.Provider.Redact.{JsonText, replacement}
use neural_plus.Provider.Redact.Safety.{has_byte}
use neural_plus.OpenAi.{OpenAiClient, request_body, exchange, sensitive_values, generate_once}
use neural_plus.OpenAi.Guarantees.{openai_error-Hides}
use neural_plus.OpenAi.Request.{make_openai_request, history}
use neural_plus.OpenAi.Request.Fixed.{make_openai_request-fixed}

abbrev messages : List Message
messages = user_text (lit "a") ∷ assistant_text (lit "c") [] ∷ []

abbrev client : OpenAiClient
client = record {
  config = record {
    model = record default_model { provider = Provider.openai; id = lit "m" };
    api_key = none;
    base_url = lit "https://api.openai.com/v1";
    organization = [];
    project = [];
    extra_headers = [];
  };
  endpoint = lit "https://api.openai.com/v1/responses";
  api_key = lit "sk-1";
}

abbrev request : AiRequest
request = record {
  session_id = lit "s";
  run_id = lit "r";
  system_message = none;
  messages = messages;
  tools = [];
  options = default_generate_options;
}

-- No text is JSON, and every value is printed as one text.
abbrev json : JsonText
json = record { parse = λ text. none; dump = λ value. ok (lit "{}") }

abbrev transport : HttpRequest → Exec ℕ HttpResponse
transport sent n = (err (provider_error (lit "no sk-1") Provider.openai (pos 0) (lit "sk-1") []), n)

-- The body of the request, and what it is made of.
abbrev body_or_null : Result JsonValue → JsonValue
body_or_null (ok body) = body
body_or_null (err e) = null

abbrev made : JsonValue
made = body_or_null (make_openai_request client.config.model request)

makes : make_openai_request client.config.model request ≡ ok made
unfolding make_openai_request user_text Content.text assistant_text same update_members less
makes = refl

make_openai_request-fixed_example :
    (input : List JsonValue) × (history messages ≡ ok input)
    × (find (lit "model") made ≡ some (string (lit "m")))
    × (find (lit "stream") made ≡ some (boolean false))
    × (find (lit "background") made ≡ some (boolean false))
    × (find (lit "input") made ≡ some (array (elements_of input)))
make_openai_request-fixed_example = make_openai_request-fixed client.config.model request made makes

body_made : request_body json transport client request ≡ ok (lit "{}")
unfolding request_body user_text Content.text assistant_text same update_members less
body_made = refl

abbrev message : Bytes
message = lit "no [REDACTED]"

fails :
    generate_once json transport client request 0
    ≡ (err (provider_error message Provider.openai (pos 0) replacement []), 0)
unfolding generate_once continue user_text Content.text assistant_text same update_members less
    exchange sensitive_values ascii_lower
fails = refl

filled_key : is_empty client.api_key ≡ false
unfolding lit
filled_key = refl

no_bracket : has_byte b'[' client.api_key ≡ false
unfolding lit
no_bracket = refl

no_end : has_byte b']' client.api_key ≡ false
unfolding lit
no_end = refl

no_part : includes client.api_key replacement ≡ false
unfolding includes lit
no_part = refl

openai_error-Hides_example :
    (includes client.api_key message ≡ false)
    × (includes client.api_key replacement ≡ false)
    × (includes client.api_key [] ≡ false)
openai_error-Hides_example =
    openai_error-Hides json transport client request 0 0 (lit "{}") message Provider.openai (pos 0)
      replacement [] filled_key no_bracket no_end no_part body_made fails
