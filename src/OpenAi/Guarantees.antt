-- ===== src/OpenAi/Guarantees.antt =====
-- What leaves the client when a provider answers with an error.
use neural_plus.Prelude.{ℤ, Bytes, ◌≡◌, refl, subst, false, [], ◌∷◌, is_empty, includes}
use mathlib.Core.List.{Memᴰ}
use neural_plus.Outcome.{ok, err, provider_error}
use neural_plus.Exec.{Exec, continue}
use neural_plus.Types.Enums.{Provider}
use neural_plus.Types.Records.{AiRequest}
use neural_plus.Transport.{HttpRequest, HttpResponse}
use neural_plus.Provider.Redact.{JsonText, replacement, redacting}
use neural_plus.Provider.Redact.Safety.{has_byte, redact_sensitive_values-includes}
use neural_plus.Provider.Redact.Hides.{HidesResult, redacting-Hides}
use neural_plus.Provider.Redact.Collect.{collect_sensitive_values-configured}
use neural_plus.OpenAi.{
  OpenAiClient, request_headers, sensitive_values, http_request, request_body, exchange,
  generate_once,
}

bearer_key_is_secret :
    (client : OpenAiClient)
    → is_empty client.api_key ≡ false
    → Memᴰ client.api_key (sensitive_values client)
unfolding sensitive_values
bearer_key_is_secret client n =
    collect_sensitive_values-configured (request_headers client) (client.api_key ∷ [])
      client.api_key n (Memᴰ.head refl)

module _ {S : Type 0} (json : JsonText) (transport : HttpRequest → Exec S HttpResponse) where
  -- Once its request was made, an error of OpenAI, whatever the server or the transport put into it,
  -- does not contain the API key in its message, its code or its request id. The key has no bracket and
  -- is no part of the marker `[REDACTED]`.
  pub openai_error-Hides :
      (client : OpenAiClient) (request : AiRequest) (s s' : S) (body message : Bytes)
      (provider : Provider) (status : ℤ) (code request_id : Bytes)
      → is_empty client.api_key ≡ false
      → has_byte b'[' client.api_key ≡ false
      → has_byte b']' client.api_key ≡ false
      → includes client.api_key replacement ≡ false
      → request_body json transport client request ≡ ok body
      → generate_once json transport client request s
        ≡ (err (provider_error message provider status code request_id), s')
      → (includes client.api_key message ≡ false)
        × (includes client.api_key code ≡ false)
        × (includes client.api_key request_id ≡ false)
  unfolding generate_once continue
  openai_error-Hides client request s s' body message provider status code request_id n left right
        part made h =
      let secrets = sensitive_values client in
      let exchanged = exchange json transport client (http_request client body) s in
      let clean = λ (input : Bytes).
        redact_sensitive_values-includes input secrets client.api_key
          (bearer_key_is_secret client n) left right part in
      let q : redacting secrets exchanged
          ≡ (err (provider_error message provider status code request_id), s') =
        rw (made, generate_once) at h in
      subst (HidesResult client.api_key) q (redacting-Hides secrets exchanged client.api_key clean)
