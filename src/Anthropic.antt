-- ===== src/Anthropic.antt =====
-- The client of Anthropic's Messages API (src/providers/anthropic.cpp). The transport is a parameter: what
-- `HttpTransport::send` does.
pub mod Request
pub mod Response
pub mod Guarantees
use neural_plus.Prelude.{
  ℕ, Bytes, lit, Bool, true, false, Option, none, some, List, [], ◌∷◌, is_empty, ◌==◌,
  if◌then◌else◌,
}
use neural_plus.Outcome.{Result, ok, err, configuration_error, throw_if}
use neural_plus.Outcome
use neural_plus.Exec.{Exec, lift, continue, ◌>>=◌, ◌>>◌}
use neural_plus.Types.Enums.{Provider}
use neural_plus.Types.Records.{ModelDescriptor, AiRequest, AiResponse}
use neural_plus.Transport.{HttpMethod, HttpHeader, HttpRequest, HttpResponse, default_request}
use neural_plus.Provider.Redact.{
  SensitiveValues, JsonText, collect_sensitive_values, redact_sensitive_response, redacting,
}
use neural_plus.Provider.Headers.{apply_extra_headers, join_url}
use neural_plus.Provider.Credentials.{
  Environment, make_model_descriptor, validate_provider, resolve_required_credential,
}
use neural_plus.Anthropic.Request.{make_anthropic_request}
use neural_plus.Anthropic.Response.{parse_anthropic_response}

pub record AnthropicConfig : Type 0 where
  pub model : ModelDescriptor
  pub api_key : Option Bytes
  pub base_url : Bytes
  pub api_version : Bytes
  pub default_max_output_tokens : ℕ
  pub extra_headers : List HttpHeader

unfoldable pub anthropic_config : Bytes → Result AnthropicConfig
unfolding make_model_descriptor lit
anthropic_config model_id =
    Outcome.◌>>=◌ (make_model_descriptor Provider.anthropic model_id) (λ model. ok (record {
      model = model;
      api_key = none;
      base_url = lit "https://api.anthropic.com";
      api_version = lit "2023-06-01";
      default_max_output_tokens = 1024;
      extra_headers = [];
    }))

-- `AnthropicClient::Impl`.
pub record AnthropicClient : Type 0 where
  pub config : AnthropicConfig
  pub endpoint : Bytes
  pub api_key : Bytes

unfoldable pub anthropic_client : Environment → AnthropicConfig → Result AnthropicClient
unfolding join_url resolve_required_credential validate_provider lit
anthropic_client getenv config =
    Outcome.◌>>=◌ (join_url config.base_url (lit "/v1/messages")) λ endpoint.
      Outcome.◌>>=◌
        (resolve_required_credential getenv config.api_key (lit "ANTHROPIC_API_KEY" ∷ [])
          (lit "Anthropic"))
        λ api_key. Outcome.◌>>◌ (validate_provider config.model Provider.anthropic) (
          Outcome.◌>>◌
            (throw_if (is_empty config.api_version)
              (configuration_error (lit "Anthropic API version cannot be empty")))
            (Outcome.◌>>◌
              (throw_if (config.default_max_output_tokens == 0) (
                configuration_error
                  (lit "Anthropic default_max_output_tokens must be greater than zero")))
              (ok (record {
                config = record config { api_key = none };
                endpoint = endpoint;
                api_key = api_key;
              }))))

abbrev pub plain : Bytes → Bytes → HttpHeader
plain name value = record { name = name; value = value; sensitive = false }

unfoldable pub request_headers : AnthropicClient → List HttpHeader
unfolding apply_extra_headers lit
request_headers client =
    apply_extra_headers
      (plain (lit "x-api-key") client.api_key
        ∷ plain (lit "anthropic-version") client.config.api_version
        ∷ plain (lit "Content-Type") (lit "application/json")
        ∷ [])
      client.config.extra_headers

unfoldable pub sensitive_values : AnthropicClient → SensitiveValues
unfolding request_headers collect_sensitive_values
sensitive_values client = collect_sensitive_values (request_headers client) (client.api_key ∷ [])

unfoldable pub http_request : AnthropicClient → Bytes → HttpRequest
unfolding request_headers
http_request client body = record default_request {
  method = HttpMethod.post;
  url = client.endpoint;
  headers = request_headers client;
  body = body;
}

module _ {S : Type 0} (json : JsonText) (transport : HttpRequest → Exec S HttpResponse) where
  -- The `try` block.
  unfoldable pub exchange : AnthropicClient → HttpRequest → Exec S AiResponse
  unfolding redact_sensitive_response
  exchange client http = do
    response ← transport http
    redacted ← lift (redact_sensitive_response json response (sensitive_values client))
    lift (parse_anthropic_response json redacted)

  -- The body of a request as a text.
  unfoldable pub request_body : AnthropicClient → AiRequest → Result Bytes
  unfolding make_anthropic_request
  request_body client request =
      Outcome.◌>>=◌
        (make_anthropic_request client.config.model client.config.default_max_output_tokens request)
        json.dump

  -- `AnthropicClient::generate_once`.
  unfoldable pub generate_once : AnthropicClient → AiRequest → Exec S AiResponse
  unfolding request_body http_request redacting
  generate_once client request s =
      continue (request_body client request, s)
        (λ body s'.
          redacting (sensitive_values client) (exchange client (http_request client body) s'))
