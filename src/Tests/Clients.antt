-- ===== src/Tests/Clients.antt =====
-- Runs of the Anthropic client and of the file tracer.
use neural_plus.Prelude.{
  ℕ, ◌+◌, ◌≤◌, pos, Bytes, lit, ◌≡◌, refl, false, none, List, [], ◌∷◌, includes, is_empty, length,
  same, ◌⊎◌,
}
use neural_plus.Outcome.{Result, ok, err, provider_error}
use neural_plus.Exec.{Exec, continue}
use neural_plus.Json.{JsonValue, less, update_members}
use neural_plus.Types.Enums.{Provider}
use neural_plus.Types.Message.{Message, user_text, assistant_text}
use neural_plus.Types.Content
use neural_plus.Types.Records.{default_model, default_generate_options, AiRequest}
use neural_plus.Transport.{ascii_lower, HttpRequest, HttpResponse}
use neural_plus.Provider.Redact.{JsonText, replacement}
use neural_plus.Provider.Redact.Safety.{has_byte}
use neural_plus.Anthropic.{AnthropicClient, request_body, exchange, sensitive_values, generate_once}
use neural_plus.Anthropic.Guarantees.{anthropic_error-Hides}
use neural_plus.Anthropic.Request.{append_anthropic_history}
use neural_plus.Anthropic.Request.Turns.{Alternates, history-Alternating}
use neural_plus.Tracing.Sinks.{FileTracer, Stream, default_file_options}
use neural_plus.Tracing.Sinks.Limit.{append_lines, Works, filled, append_lines-size}

-- Two messages of the user, and an answer.
abbrev messages : List Message
messages = user_text (lit "a") ∷ user_text (lit "b") ∷ assistant_text (lit "c") [] ∷ []

abbrev turns_or_none : Result (List JsonValue) → List JsonValue
turns_or_none (ok turns) = turns
turns_or_none (err e) = []

abbrev turns : List JsonValue
turns = turns_or_none (append_anthropic_history [] messages)

makes_turns : append_anthropic_history [] messages ≡ ok turns
unfolding append_anthropic_history user_text Content.text assistant_text same
makes_turns = refl

history-Alternating_example : (turns ≡ []) ⊎ ((role : Bytes) × Alternates role turns)
history-Alternating_example = history-Alternating messages turns makes_turns

-- A stream that writes all, into a list.
abbrev stream : Stream (List Bytes)
stream = record { fwrite = λ line file. (length line, line ∷ file); fflush = λ file. (false, file) }

abbrev tracer : FileTracer (List Bytes)
tracer = record {
  options = record default_file_options { max_bytes = 3 };
  file = [];
  bytes_written = 0;
}

abbrev total : List Bytes → ℕ
total [] = 0
total (line ∷ lines) = total lines + length line

works : Works stream total
works = record {
  writes = λ text file. refl;
  grows = λ text file. refl;
  flushes = λ file. refl;
  keeps = λ file. refl;
}

abbrev two_lines : List Bytes
two_lines = lit "ab" ∷ lit "cd" ∷ []

append_lines-size_example :
    (total (append_lines stream two_lines tracer).file
      ≡ filled tracer.options.max_bytes 0 two_lines)
    × ((append_lines stream two_lines tracer).bytes_written
        ≡ total (append_lines stream two_lines tracer).file)
    × ((tracer.options.max_bytes ≡ 0)
        ⊎ ((total (append_lines stream two_lines tracer).file ≤ tracer.options.max_bytes)
            ⊎ (total (append_lines stream two_lines tracer).file ≡ 0)))
append_lines-size_example = append_lines-size stream total works two_lines tracer refl

abbrev client : AnthropicClient
client = record {
  config = record {
    model = record default_model { provider = Provider.anthropic; id = lit "m" };
    api_key = none;
    base_url = lit "https://api.anthropic.com";
    api_version = lit "2023-06-01";
    default_max_output_tokens = 1024;
    extra_headers = [];
  };
  endpoint = lit "https://api.anthropic.com/v1/messages";
  api_key = lit "sk-1";
}

abbrev request : AiRequest
request = record {
  session_id = lit "s";
  run_id = lit "r";
  system_message = none;
  messages = messages;
  tools = [];
  options = default_generate_options;
}

-- No text is JSON, and every value is printed as one text.
abbrev json : JsonText
json = record { parse = λ text. none; dump = λ value. ok (lit "{}") }

abbrev transport : HttpRequest → Exec ℕ HttpResponse
transport sent n =
    (err (provider_error (lit "no sk-1") Provider.anthropic (pos 0) (lit "sk-1") []), n)

body_made : request_body json transport client request ≡ ok (lit "{}")
unfolding request_body user_text Content.text assistant_text same update_members less
body_made = refl

abbrev message : Bytes
message = lit "no [REDACTED]"

fails :
    generate_once json transport client request 0
    ≡ (err (provider_error message Provider.anthropic (pos 0) replacement []), 0)
unfolding generate_once continue user_text Content.text assistant_text same update_members less
    exchange sensitive_values ascii_lower
fails = refl

filled_key : is_empty client.api_key ≡ false
unfolding lit
filled_key = refl

no_bracket : has_byte b'[' client.api_key ≡ false
unfolding lit
no_bracket = refl

no_end : has_byte b']' client.api_key ≡ false
unfolding lit
no_end = refl

no_part : includes client.api_key replacement ≡ false
unfolding includes lit
no_part = refl

anthropic_error-Hides_example :
    (includes client.api_key message ≡ false)
    × (includes client.api_key replacement ≡ false)
    × (includes client.api_key [] ≡ false)
anthropic_error-Hides_example =
    anthropic_error-Hides json transport client request 0 0 (lit "{}") message Provider.anthropic
      (pos 0) replacement [] filled_key no_bracket no_end no_part body_made fails
