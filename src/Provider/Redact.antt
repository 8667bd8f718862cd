-- ===== src/Provider/Redact.antt =====
-- Credentials out of what a provider answers (src/provider_common.cpp). The order in which `std::sort`
-- leaves secrets of one length is not documented: here they keep the order in which they came.
pub mod Sorting
pub mod Relation
pub mod Safety
pub mod Tree
pub mod Collect
pub mod Hides
use neural_plus.Prelude.{
  ℕ, zero, suc, ◌-◌, Bytes, lit, same, Bool, true, false, not, ◌&&◌, ◌||◌, Option, none, some, List,
  [], ◌∷◌, ◌++◌, map, is_empty, any, drop, length, ltb, ◌==◌, if◌then◌else◌, starts_with, ends_with,
  includes, drop_while, take_until,
}
use neural_plus.Outcome.{Result, ok, err, Error, provider_error, ◌>>=◌, ◌>>◌}
use neural_plus.Json.{
  JsonValue, null, boolean, integer, unsigned, float, string, array, object, Elements, nil, cons,
  Members, end, member, put_member,
}
use neural_plus.Transport.{HttpHeader, HttpResponse, ascii_lower}

abbrev pub SensitiveValues : Type 0
SensitiveValues = List Bytes

unfoldable pub sensitive_header_name : Bytes → Bool
unfolding lit ends_with includes
sensitive_header_name name =
    let normalized_name = map ascii_lower name in
    includes (lit "authorization") normalized_name
    || includes (lit "api-key") normalized_name
    || includes (lit "apikey") normalized_name
    || includes (lit "secret") normalized_name
    || includes (lit "credential") normalized_name
    || ends_with (lit "-token") normalized_name
    || same normalized_name (lit "cookie")

unfoldable pub authorization_header_name : Bytes → Bool
unfolding lit includes
authorization_header_name name = includes (lit "authorization") (map ascii_lower name)

unfoldable pub append_unique_secret : SensitiveValues → Bytes → SensitiveValues
append_unique_secret values value =
    if is_empty value
    then values
    else if any (λ v. same v value) values
    then values
    else values ++ value ∷ []

-- Before the first text that is shorter.
unfoldable pub insert_longer : Bytes → SensitiveValues → SensitiveValues
insert_longer value [] = value ∷ []
insert_longer value (v ∷ values) =
    let later = v ∷ insert_longer value values in
    if ltb (length value) (length v) then later else value ∷ v ∷ values

unfoldable pub longest_first : SensitiveValues → SensitiveValues
unfolding insert_longer
longest_first [] = []
longest_first (v ∷ values) = insert_longer v (longest_first values)

abbrev pub replacement : Bytes
replacement = lit "[REDACTED]"

-- The first of the values that stands at the beginning of the input.
unfoldable pub find_secret : SensitiveValues → Bytes → Option Bytes
unfolding starts_with
find_secret [] input = none
find_secret (secret ∷ secrets) input =
    if not (is_empty secret) && starts_with secret input
    then some secret
    else find_secret secrets input

-- The loop over the input from `index` on. Every round goes on by at least one byte, so as many rounds
-- as there are bytes are enough.
unfoldable pub redact_loop : (rounds : ℕ) → SensitiveValues → Bytes → Bytes
unfolding find_secret
redact_loop rounds secrets [] = []
redact_loop zero secrets (b ∷ rest) = []
redact_loop (suc rounds) secrets (b ∷ rest) = elim (find_secret secrets (b ∷ rest)) [
  | none ↦ b ∷ redact_loop rounds secrets rest
  | some secret ↦ replacement ++ redact_loop rounds secrets (drop (length secret) (b ∷ rest))
]

unfoldable pub redact_sensitive_values : Bytes → SensitiveValues → Bytes
unfolding longest_first redact_loop
redact_sensitive_values input sensitive_values =
    redact_loop (length input) (longest_first sensitive_values) input

-- Strings and member names; an object is built again, member by member.
unfoldable mutual
  unfolding redact_sensitive_values put_member

  pub redact_json_strings : JsonValue → SensitiveValues → JsonValue
  redact_json_strings (string s) secrets = string (redact_sensitive_values s secrets)
  redact_json_strings (array es) secrets = array (redact_elements es secrets)
  redact_json_strings (object ms) secrets = object (redact_members ms secrets end)
  redact_json_strings null secrets = null
  redact_json_strings (boolean b) secrets = boolean b
  redact_json_strings (integer i) secrets = integer i
  redact_json_strings (unsigned n) secrets = unsigned n
  redact_json_strings (float x) secrets = float x

  pub redact_elements : Elements → SensitiveValues → Elements
  redact_elements nil secrets = nil
  redact_elements (cons v es) secrets =
      cons (redact_json_strings v secrets) (redact_elements es secrets)

  -- The members that are left, and the object so far.
  pub redact_members : Members → SensitiveValues → Members → Members
  redact_members end secrets redacted = redacted
  redact_members (member k v ms) secrets redacted =
      redact_members ms secrets
        (put_member (redact_sensitive_values k secrets) (redact_json_strings v secrets) redacted)

abbrev pub is_blank : ℕ → Bool
is_blank c = c == 32 || c == 9

-- The token after the first blanks of a header value; empty where there is none.
abbrev pub token_of : Bytes → Bytes
token_of value = drop_while is_blank (drop_while (λ c. not (is_blank c)) value)

unfoldable pub collect_header : SensitiveValues → HttpHeader → SensitiveValues
unfolding append_unique_secret sensitive_header_name authorization_header_name drop_while
collect_header values header =
    if not header.sensitive && not (sensitive_header_name header.name)
    then values
    else (let collected = append_unique_secret values header.value in
        if authorization_header_name header.name
        then append_unique_secret collected (token_of header.value)
        else collected)

abbrev pub append_unique_secrets : SensitiveValues → List Bytes → SensitiveValues
append_unique_secrets values [] = values
append_unique_secrets values (s ∷ ss) = append_unique_secrets (append_unique_secret values s) ss

abbrev pub collect_headers : SensitiveValues → List HttpHeader → SensitiveValues
collect_headers values [] = values
collect_headers values (h ∷ hs) = collect_headers (collect_header values h) hs

unfoldable pub collect_sensitive_values : List HttpHeader → List Bytes → SensitiveValues
unfolding collect_header append_unique_secret
collect_sensitive_values headers configured_secrets =
    collect_headers (append_unique_secrets [] configured_secrets) headers

-- What the JSON library does with texts: `parse` has no value for a text that it discards, and `dump`
-- throws where a string is no UTF-8.
pub record JsonText : Type 0 where
  pub parse : Bytes → Option JsonValue
  pub dump : JsonValue → Result Bytes

unfoldable pub redact_header : SensitiveValues → HttpHeader → HttpHeader
unfolding redact_sensitive_values
redact_header secrets header = record header {
  value = redact_sensitive_values header.value secrets;
}

unfoldable pub redact_sensitive_response :
    JsonText → HttpResponse → SensitiveValues → Result HttpResponse
unfolding redact_header redact_sensitive_values redact_json_strings
redact_sensitive_response json response secrets =
    if is_empty secrets then ok response else elim (json.parse response.body) [
      | none ↦ ok (record response {
        headers = map (redact_header secrets) response.headers;
        body = redact_sensitive_values response.body secrets;
      })
      | some body ↦ (do
        text ← json.dump (redact_json_strings body secrets)
        ok (record response {
          headers = map (redact_header secrets) response.headers;
          body = text;
        }))
    ]

-- `error.what()` as a text: a C string ends at its first NUL.
abbrev pub c_string : Bytes → Bytes
c_string message = take_until (λ c. c == 0) message

-- What `throw_redacted_provider_error` makes of an error that the clients catch; they let any other
-- error pass.
unfoldable pub redacted_provider_error : Error → SensitiveValues → Error
unfolding redact_sensitive_values take_until
redacted_provider_error (provider_error message provider status code request_id) secrets =
    provider_error (redact_sensitive_values (c_string message) secrets) provider status
      (redact_sensitive_values code secrets) (redact_sensitive_values request_id secrets)
redacted_provider_error e secrets = e

-- The `try` block that redacts the errors of a provider; `secrets` are the sensitive values.
unfoldable pub redacting : {S A : Type 0} → SensitiveValues → Result A × S → Result A × S
unfolding redacted_provider_error
redacting secrets (ok a, s) = (ok a, s)
redacting secrets (err e, s) = (err (redacted_provider_error e secrets), s)
