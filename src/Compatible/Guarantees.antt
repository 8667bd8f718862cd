-- ===== src/Compatible/Guarantees.antt =====
-- What leaves the client when a provider answers with an error.
use neural_plus.Prelude.{ℤ, Bytes, ◌≡◌, sym, ap, subst, false, some, [], ◌∷◌, is_empty, includes}
use mathlib.Core.List.{Memᴰ}
use neural_plus.Outcome.{ok, err, provider_error, ◌>>=◌}
use neural_plus.Exec.{Exec, continue}
use neural_plus.Types.Enums.{Provider}
use neural_plus.Types.Records.{AiRequest}
use neural_plus.Transport.{HttpRequest, HttpResponse}
use neural_plus.Provider.Redact.{JsonText, replacement}
use neural_plus.Provider.Redact.Safety.{has_byte, redact_sensitive_values-includes}
use neural_plus.Provider.Redact.Hides.{HidesResult, redacting-Hides}
use neural_plus.Provider.Redact.Collect.{collect_sensitive_values-configured}
use neural_plus.Compatible.Request.{make_compatible_request}
use neural_plus.Provider.Redact.{redacting}
use neural_plus.Compatible.{
  CompatibleClient, request_headers, configured_secret, sensitive_values, http_request, exchange,
  generate_once,
}

api_key_is_sensitive :
    (client : CompatibleClient) (key : Bytes)
    → client.api_key ≡ some key
    → is_empty key ≡ false
    → Memᴰ key (sensitive_values client)
unfolding sensitive_values
api_key_is_sensitive client key h n =
    collect_sensitive_values-configured (request_headers client)
      (configured_secret client.api_key ∷ []) key n (Memᴰ.head (sym (ap configured_secret h)))

module _ {S : Type 0} (json : JsonText) (transport : HttpRequest → Exec S HttpResponse) where
  -- Once its request was made, an error of the provider, whatever the server or the transport put into
  -- it, does not contain the API key in its message, its code or its request id. The key has no bracket
  -- and is no part of the marker `[REDACTED]`.
  pub generate_once-Hides :
      (client : CompatibleClient) (request : AiRequest) (s s' : S) (key body : Bytes)
      (message : Bytes) (provider : Provider) (status : ℤ) (code request_id : Bytes)
      → client.api_key ≡ some key
      → is_empty key ≡ false
      → has_byte b'[' key ≡ false
      → has_byte b']' key ≡ false
      → includes key replacement ≡ false
      → (make_compatible_request client.config.model request >>= json.dump) ≡ ok body
      → generate_once json transport client request s
        ≡ (err (provider_error message provider status code request_id), s')
      → (includes key message ≡ false)
        × (includes key code ≡ false)
        × (includes key request_id ≡ false)
  unfolding generate_once continue
  generate_once-Hides client request s s' key body message provider status code request_id k n left
        right part made h =
      let clean = λ (input : Bytes).
        redact_sensitive_values-includes input (sensitive_values client) key
          (api_key_is_sensitive client key k n) left right part in
      let result =
        redacting (sensitive_values client)
          (exchange json transport client (http_request client body) request s) in
      let q : result ≡ (err (provider_error message provider status code request_id), s') =
        rw (made, generate_once) at h in
      subst (HidesResult key) q (
        redacting-Hides (sensitive_values client)
          (exchange json transport client (http_request client body) request s) key clean)
