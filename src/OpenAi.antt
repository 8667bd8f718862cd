-- ===== src/OpenAi.antt =====
-- The client of OpenAI's Responses API (src/providers/openai.cpp). The transport is a parameter: what
-- `HttpTransport::send` does.
pub mod Request
pub mod Output
pub mod Response
pub mod Guarantees
use neural_plus.Prelude.{
  Bytes, lit, Option, none, some, List, [], ◌∷◌, ◌++◌, is_empty, false, if◌then◌else◌,
}
use neural_plus.Outcome.{Result, ok}
use neural_plus.Outcome
use neural_plus.Exec.{Exec, lift, continue, ◌>>=◌, ◌>>◌}
use neural_plus.Types.Enums.{Provider}
use neural_plus.Types.Records.{ModelDescriptor, AiRequest, AiResponse}
use neural_plus.Transport.{HttpMethod, HttpHeader, HttpRequest, HttpResponse, default_request}
use neural_plus.Provider.Redact.{
  SensitiveValues, JsonText, collect_sensitive_values, redact_sensitive_response, redacting,
}
use neural_plus.Provider.Headers.{set_header, apply_extra_headers, join_url}
use neural_plus.Provider.Credentials.{
  Environment, make_model_descriptor, validate_provider, resolve_required_credential,
}
use neural_plus.OpenAi.Request.{make_openai_request}
use neural_plus.OpenAi.Response.{parse_openai_response}

pub record OpenAiConfig : Type 0 where
  pub model : ModelDescriptor
  pub api_key : Option Bytes
  pub base_url : Bytes
  pub organization : Bytes
  pub project : Bytes
  pub extra_headers : List HttpHeader

unfoldable pub openai_config : Bytes → Result OpenAiConfig
unfolding make_model_descriptor lit
openai_config model_id = Outcome.◌>>=◌ (make_model_descriptor Provider.openai model_id) (λ model.
    ok (record {
      model = model;
      api_key = none;
      base_url = lit "https://api.openai.com/v1";
      organization = [];
      project = [];
      extra_headers = [];
    }))

-- `OpenAIClient::Impl`.
pub record OpenAiClient : Type 0 where
  pub config : OpenAiConfig
  pub endpoint : Bytes
  pub api_key : Bytes

unfoldable pub openai_client : Environment → OpenAiConfig → Result OpenAiClient
unfolding join_url resolve_required_credential validate_provider lit
openai_client getenv config =
    Outcome.◌>>=◌ (join_url config.base_url (lit "/responses")) λ endpoint.
      Outcome.◌>>=◌
        (resolve_required_credential getenv config.api_key (lit "OPENAI_API_KEY" ∷ [])
          (lit "OpenAI"))
        λ api_key. Outcome.◌>>◌ (validate_provider config.model Provider.openai) (
          ok (record {
            config = record config { api_key = none };
            endpoint = endpoint;
            api_key = api_key;
          }))

abbrev pub plain : Bytes → Bytes → HttpHeader
plain name value = record { name = name; value = value; sensitive = false }

-- `set_header` unless the value is empty.
unfoldable pub set_unless_empty : List HttpHeader → Bytes → Bytes → List HttpHeader
unfolding set_header
set_unless_empty headers name value =
    if is_empty value then headers else set_header headers name value false

unfoldable pub request_headers : OpenAiClient → List HttpHeader
unfolding set_unless_empty apply_extra_headers lit
request_headers client =
    apply_extra_headers
      (set_unless_empty
        (set_unless_empty
          (plain (lit "Authorization") (lit "Bearer " ++ client.api_key)
            ∷ plain (lit "Content-Type") (lit "application/json")
            ∷ [])
          (lit "OpenAI-Organization") client.config.organization)
        (lit "OpenAI-Project") client.config.project)
      client.config.extra_headers

unfoldable pub sensitive_values : OpenAiClient → SensitiveValues
unfolding request_headers collect_sensitive_values
sensitive_values client = collect_sensitive_values (request_headers client) (client.api_key ∷ [])

unfoldable pub http_request : OpenAiClient → Bytes → HttpRequest
unfolding request_headers
http_request client body = record default_request {
  method = HttpMethod.post;
  url = client.endpoint;
  headers = request_headers client;
  body = body;
}

module _ {S : Type 0} (json : JsonText) (transport : HttpRequest → Exec S HttpResponse) where
  -- The `try` block.
  unfoldable pub exchange : OpenAiClient → HttpRequest → Exec S AiResponse
  unfolding redact_sensitive_response
  exchange client http = do
    response ← transport http
    redacted ← lift (redact_sensitive_response json response (sensitive_values client))
    lift (parse_openai_response json redacted)

  -- The body of a request as a text.
  unfoldable pub request_body : OpenAiClient → AiRequest → Result Bytes
  unfolding make_openai_request
  request_body client request =
      Outcome.◌>>=◌ (make_openai_request client.config.model request) json.dump

  -- `OpenAIClient::generate_once`.
  unfoldable pub generate_once : OpenAiClient → AiRequest → Exec S AiResponse
  unfolding request_body http_request redacting
  generate_once client request s =
      continue (request_body client request, s)
        (λ body s'.
          redacting (sensitive_values client) (exchange client (http_request client body) s'))
