-- ===== src/Gemini.antt =====
-- The client of Google's Gemini API (src/providers/gemini.cpp). The transport is a parameter: what
-- `HttpTransport::send` does.
pub mod Parts
pub mod Request
pub mod Checks
pub mod Contents
pub mod Response
use neural_plus.Prelude.{
  ℕ, Bytes, lit, Bool, not, ◌&&◌, ◌||◌, ◌==◌, Option, none, some, List, [], ◌∷◌, ◌++◌, is_empty,
  all, drop, length, starts_with, false, if◌then◌else◌,
}
use neural_plus.Outcome.{Result, ok, err, configuration_error}
use neural_plus.Outcome
use neural_plus.Exec.{Exec, lift, continue, ◌>>=◌, ◌>>◌}
use neural_plus.Tool.{ascii_alphanumeric}
use neural_plus.Types.Enums.{Provider}
use neural_plus.Types.Records.{ModelDescriptor, AiRequest, AiResponse}
use neural_plus.Transport.{HttpMethod, HttpHeader, HttpRequest, HttpResponse, default_request}
use neural_plus.Provider.Redact.{
  SensitiveValues, JsonText, collect_sensitive_values, redact_sensitive_response, redacting,
}
use neural_plus.Provider.Headers.{apply_extra_headers, join_url}
use neural_plus.Provider.Credentials.{
  Environment, make_model_descriptor, validate_provider, resolve_required_credential,
}
use neural_plus.Gemini.Request.{make_gemini_request}
use neural_plus.Gemini.Response.{parse_gemini_response}

pub record GeminiConfig : Type 0 where
  pub model : ModelDescriptor
  pub api_key : Option Bytes
  pub base_url : Bytes
  pub extra_headers : List HttpHeader

unfoldable pub gemini_config : Bytes → Result GeminiConfig
unfolding make_model_descriptor lit
gemini_config model_id = Outcome.◌>>=◌ (make_model_descriptor Provider.gemini model_id) (λ model.
    ok (record {
      model = model;
      api_key = none;
      base_url = lit "https://generativelanguage.googleapis.com/v1beta";
      extra_headers = [];
    }))

-- `GeminiClient::Impl`.
pub record GeminiClient : Type 0 where
  pub config : GeminiConfig
  pub endpoint : Bytes
  pub api_key : Bytes

abbrev pub is_segment_character : ℕ → Bool
is_segment_character c = ascii_alphanumeric c || c == b'-' || c == b'_' || c == b'.'

-- The path of a model, whose id may already start with "models/".
unfoldable pub gemini_model_path : Bytes → Result Bytes
unfolding starts_with ascii_alphanumeric lit
gemini_model_path model_id =
    let prefix = lit "models/" in
    let name = if starts_with prefix model_id then drop (length prefix) model_id else model_id in
    if not (is_empty name) && all is_segment_character name
    then ok (lit "/models/" ++ (name ++ lit ":generateContent"))
    else err (configuration_error (lit "Gemini model id must be one URL-safe model path segment"))

unfoldable pub gemini_client : Environment → GeminiConfig → Result GeminiClient
unfolding gemini_model_path join_url resolve_required_credential validate_provider lit
gemini_client getenv config = Outcome.◌>>=◌ (gemini_model_path config.model.id) λ path.
    Outcome.◌>>=◌ (join_url config.base_url path) λ endpoint.
      Outcome.◌>>=◌
        (resolve_required_credential getenv config.api_key
          (lit "GEMINI_API_KEY" ∷ lit "GOOGLE_API_KEY" ∷ []) (lit "Gemini"))
        λ api_key. Outcome.◌>>◌ (validate_provider config.model Provider.gemini) (
          ok (record {
            config = record config { api_key = none };
            endpoint = endpoint;
            api_key = api_key;
          }))

abbrev pub plain : Bytes → Bytes → HttpHeader
plain name value = record { name = name; value = value; sensitive = false }

unfoldable pub request_headers : GeminiClient → List HttpHeader
unfolding apply_extra_headers lit
request_headers client =
    apply_extra_headers
      (plain (lit "x-goog-api-key") client.api_key
        ∷ plain (lit "Content-Type") (lit "application/json")
        ∷ [])
      client.config.extra_headers

unfoldable pub sensitive_values : GeminiClient → SensitiveValues
unfolding request_headers collect_sensitive_values
sensitive_values client = collect_sensitive_values (request_headers client) (client.api_key ∷ [])

unfoldable pub http_request : GeminiClient → Bytes → HttpRequest
unfolding request_headers
http_request client body = record default_request {
  method = HttpMethod.post;
  url = client.endpoint;
  headers = request_headers client;
  body = body;
}

module _ {S : Type 0} (json : JsonText) (transport : HttpRequest → Exec S HttpResponse) where
  -- The `try` block.
  unfoldable pub exchange : GeminiClient → AiRequest → HttpRequest → Exec S AiResponse
  unfolding redact_sensitive_response
  exchange client request http = do
    response ← transport http
    redacted ← lift (redact_sensitive_response json response (sensitive_values client))
    lift (parse_gemini_response json redacted request)

  -- The body of a request as a text.
  unfoldable pub request_body : GeminiClient → AiRequest → Result Bytes
  unfolding make_gemini_request
  request_body client request =
      Outcome.◌>>=◌ (make_gemini_request json client.config.model request) json.dump

  -- `GeminiClient::generate_once`.
  unfoldable pub generate_once : GeminiClient → AiRequest → Exec S AiResponse
  unfolding request_body http_request redacting
  generate_once client request s =
      continue (request_body client request, s)
        (λ body s'.
          redacting (sensitive_values client)
            (exchange client request (http_request client body) s'))
