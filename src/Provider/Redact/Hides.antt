-- ===== src/Provider/Redact/Hides.antt =====
-- The errors that leave the block that redacts them.
use neural_plus.Prelude.{Bytes, ◌≡◌, false, includes}
use neural_plus.Outcome.{
  Result, ok, err, Error, provider_error, configuration_error, session_in_use_error,
  max_rounds_error, transport_error, base_error, invalid_argument, logic_error, application_error,
  bad_any_cast, json_exception, foreign,
}
use neural_plus.Types.Records.{AiResponse}
use neural_plus.Provider.Redact.{
  SensitiveValues, c_string, redact_sensitive_values, redacted_provider_error, redacting,
}

-- The texts of a provider's error that do not contain a secret.
abbrev pub Hides : Bytes → Error → Type 0
Hides secret (provider_error message provider status code request_id) =
    (includes secret message ≡ false)
    × (includes secret code ≡ false)
    × (includes secret request_id ≡ false)
Hides secret e = Unit

redacted_provider_error-Hides :
    (e : Error) (secrets : SensitiveValues) (secret : Bytes)
    → ((input : Bytes) → includes secret (redact_sensitive_values input secrets) ≡ false)
    → Hides secret (redacted_provider_error e secrets)
unfolding redacted_provider_error
redacted_provider_error-Hides (provider_error m p st c r) secrets secret h =
    (h (c_string m), h c, h r)
redacted_provider_error-Hides (configuration_error m) secrets secret h = tt
redacted_provider_error-Hides (session_in_use_error m) secrets secret h = tt
redacted_provider_error-Hides (max_rounds_error m) secrets secret h = tt
redacted_provider_error-Hides (transport_error m) secrets secret h = tt
redacted_provider_error-Hides (base_error m) secrets secret h = tt
redacted_provider_error-Hides (invalid_argument m) secrets secret h = tt
redacted_provider_error-Hides (logic_error m) secrets secret h = tt
redacted_provider_error-Hides (application_error m) secrets secret h = tt
redacted_provider_error-Hides bad_any_cast secrets secret h = tt
redacted_provider_error-Hides json_exception secrets secret h = tt
redacted_provider_error-Hides foreign secrets secret h = tt

abbrev pub HidesResult : {S : Type 0} → Bytes → Result AiResponse × S → Type 0
HidesResult secret (ok response, s) = Unit
HidesResult secret (err e, s) = Hides secret e

pub redacting-Hides :
    {S : Type 0} (secrets : SensitiveValues) (p : Result AiResponse × S) (secret : Bytes)
    → ((input : Bytes) → includes secret (redact_sensitive_values input secrets) ≡ false)
    → HidesResult secret (redacting secrets p)
unfolding redacting
redacting-Hides secrets (ok a, s) secret h = tt
redacting-Hides secrets (err e, s) secret h = redacted_provider_error-Hides e secrets secret h
