-- ===== src/Compatible.antt =====
-- The client of servers that follow OpenAI's Chat Completions (src/providers/openai_compatible.cpp).
-- The transport is a parameter: what `HttpTransport::send` does.
pub mod Parts
pub mod Request
pub mod Shapes
pub mod Contents
pub mod Calls
pub mod Response
pub mod Guarantees
use neural_plus.Prelude.{
  ℕ, ℤ, pos, Bytes, lit, Bool, true, false, not, Option, none, some, List, [], ◌∷◌, ◌++◌, is_empty,
  if◌then◌else◌, ends_with,
}
use neural_plus.Outcome.{Result, ok, err, Error, configuration_error, throw_if}
use neural_plus.Outcome
use neural_plus.Exec.{Exec, lift, continue, ◌>>=◌, ◌>>◌}
use neural_plus.Types.Enums.{Provider}
use neural_plus.Types.Records.{ModelDescriptor, AiRequest, AiResponse}
use neural_plus.Transport.{HttpMethod, HttpHeader, HttpRequest, HttpResponse, default_request}
use neural_plus.Provider.Redact.{
  redacting, SensitiveValues, JsonText, collect_sensitive_values, redact_sensitive_response,
  redacted_provider_error,
}
use neural_plus.Provider.Headers.{set_header, apply_extra_headers, without_slashes, join_url}
use neural_plus.Provider.Credentials.{
  Environment, make_model_descriptor, validate_provider, resolve_optional_credential,
}
use neural_plus.Compatible.Request.{make_compatible_request}
use neural_plus.Compatible.Response.{parse_compatible_response}

pub record OpenAiCompatibleConfig : Type 0 where
  pub model : ModelDescriptor
  pub api_key : Option Bytes
  pub api_key_environment : Option Bytes
  pub base_url : Bytes
  pub extra_headers : List HttpHeader

unfoldable pub compatible_config : Bytes → Bytes → Result OpenAiCompatibleConfig
unfolding make_model_descriptor
compatible_config model_id base_url =
    Outcome.◌>>=◌ (make_model_descriptor Provider.openai_compatible model_id) (λ model. ok (record {
      model = model;
      api_key = none;
      api_key_environment = none;
      base_url = base_url;
      extra_headers = [];
    }))

unfoldable pub compatible_endpoint : Bytes → Result Bytes
unfolding without_slashes join_url ends_with lit
compatible_endpoint base_url =
    let suffix = lit "/chat/completions" in
    let normalized = without_slashes base_url in
    if is_empty normalized
    then err (configuration_error (lit "provider base URL cannot be empty"))
    else if ends_with suffix normalized
    then ok normalized
    else join_url normalized suffix

-- `OpenAICompatibleClient::Impl`.
pub record CompatibleClient : Type 0 where
  pub config : OpenAiCompatibleConfig
  pub endpoint : Bytes
  pub api_key : Option Bytes

unfoldable pub compatible_client : Environment → OpenAiCompatibleConfig → Result CompatibleClient
unfolding compatible_endpoint resolve_optional_credential validate_provider
compatible_client getenv config = Outcome.◌>>=◌ (compatible_endpoint config.base_url) λ endpoint.
    Outcome.◌>>=◌ (resolve_optional_credential getenv config.api_key config.api_key_environment)
      λ api_key. Outcome.◌>>◌ (validate_provider config.model Provider.openai_compatible) (
        ok (record {
          config = record config { api_key = none };
          endpoint = endpoint;
          api_key = api_key;
        }))

abbrev pub content_type_header : HttpHeader
content_type_header = record {
  name = lit "Content-Type";
  value = lit "application/json";
  sensitive = false;
}

-- The headers of every request.
unfoldable pub request_headers : CompatibleClient → List HttpHeader
unfolding set_header apply_extra_headers lit
request_headers client =
    let plain = content_type_header ∷ [] in
    let authorized : List HttpHeader = elim client.api_key [
      | none ↦ plain
      | some api_key ↦ set_header plain (lit "Authorization") (lit "Bearer " ++ api_key) false
    ] in
    apply_extra_headers authorized client.config.extra_headers

abbrev pub configured_secret : Option Bytes → Bytes
configured_secret none = []
configured_secret (some api_key) = api_key

unfoldable pub sensitive_values : CompatibleClient → SensitiveValues
unfolding request_headers collect_sensitive_values
sensitive_values client =
    collect_sensitive_values (request_headers client) (configured_secret client.api_key ∷ [])

unfoldable pub http_request : CompatibleClient → Bytes → HttpRequest
unfolding request_headers
http_request client body = record default_request {
  method = HttpMethod.post;
  url = client.endpoint;
  headers = request_headers client;
  body = body;
}

module _ {S : Type 0} (json : JsonText) (transport : HttpRequest → Exec S HttpResponse) where
  -- The block itself.
  unfoldable pub exchange : CompatibleClient → HttpRequest → AiRequest → Exec S AiResponse
  unfolding redact_sensitive_response
  exchange client http request = do
    response ← transport http
    redacted ← lift (redact_sensitive_response json response (sensitive_values client))
    lift (parse_compatible_response json redacted request)

  -- `OpenAICompatibleClient::generate_once`.
  unfoldable pub generate_once : CompatibleClient → AiRequest → Exec S AiResponse
  unfolding make_compatible_request http_request redacting
  generate_once client request s =
      continue
        (lift (Outcome.◌>>=◌ (make_compatible_request client.config.model request) json.dump) s)
        (λ body s'.
          redacting (sensitive_values client)
            (exchange client (http_request client body) request s'))
