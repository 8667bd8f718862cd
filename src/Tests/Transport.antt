-- ===== src/Tests/Transport.antt =====
-- The transport, run against a small libcurl.
use neural_plus.Prelude.{
  ℕ, pos, Bytes, lit, same, ◌≡◌, ◌≢◌, ◌⊎◌, List, refl, true, false, none, some, [], ◌∷◌, ◌++◌,
  length, any, map, All, ◌==◌, arith,
}
use neural_plus.Outcome.{ok}
use neural_plus.Exec.{continue}
use neural_plus.Transport.{
  ascii_lower, HttpMethod, HttpHeader, HttpRequest, HttpResponse, default_request, ascii_iequals,
}
use neural_plus.Transport.Check.{
  milliseconds_as_long, valid_header_name, trim_ascii, http_prefix, ends_authority,
  is_loopback_http_url, valid_header_value,
}
use neural_plus.Transport.Check.Loopback.{
  LocalAuthority, StartsIn, is_loopback_http_url-LocalAuthority,
}
use neural_plus.Transport.Receive.{Delivery}
use neural_plus.Transport.Send.{
  default_transport_options, Curl, Call, header_line, body_part, Transfer, send, set_options,
  append_headers, perform, prepare,
}
use neural_plus.Transport.Send.Guarantees.{Bounded, send-Bounded}
use neural_plus.Transport.Send.Totals.{HeadersOf, outcome, perform-outcome}
use neural_plus.Transport.Send.Settings.{
  settings, unset, configured, line_of, OneLine, send-configured, send-lines,
}

abbrev delivery : Bytes → Delivery
delivery text = record { buffer = text; item_size = 1; item_count = length text }

abbrev transfer : Transfer
transfer = record {
  parts = header_line (delivery (lit "X-Id: 7")) ∷ body_part (delivery (lit "{}")) ∷ [];
  failure = none;
  refusal = [];
  status = some (pos 200);
}

-- It takes everything, and counts the transfers.
abbrev curl : Curl ℕ
curl = record {
  initialized = true;
  easy_init = λ n. (true, n);
  easy_setopt = λ option handle n. (true, n);
  slist_append = λ lines line n. (true, n);
  easy_perform = λ handle n. (transfer, 1);
}

abbrev request : HttpRequest
request = record default_request {
  url = lit "http://localhost:1/v1";
  headers = record { name = lit "Accept"; value = lit "*/*"; sensitive = false } ∷ [];
  body = lit "{}";
}

abbrev response : HttpResponse
response = record {
  status = pos 200;
  headers = record { name = lit "X-Id"; value = lit "7"; sensitive = false } ∷ [];
  body = lit "{}";
}

sent : send curl default_transport_options request 0 ≡ (ok response, 1)
unfolding send lit continue prepare set_options milliseconds_as_long is_loopback_http_url
    ascii_iequals ascii_lower append_headers valid_header_name valid_header_value perform trim_ascii
sent = refl

send-Bounded_example : Bounded default_transport_options response
send-Bounded_example = send-Bounded curl default_transport_options request 0 1 response sent

send-configured_example :
    (c : Call ℕ) × ((perform curl default_transport_options c).0 ≡ ok response)
    × (settings c.handle unset ≡ configured default_transport_options request)
    × ((request.method ≢ HttpMethod.get) ⊎ (request.body ≡ []))
send-configured_example = send-configured curl default_transport_options request 0 1 response sent

send-lines_example :
    (c : Call ℕ) × ((perform curl default_transport_options c).0 ≡ ok response)
    × ((settings c.handle unset).lines ≡ map line_of request.headers)
    × All OneLine (settings c.handle unset).lines
send-lines_example = send-lines curl default_transport_options request 0 1 response sent

abbrev call : Call ℕ
call = record { handle = []; world = 0 }

perform-outcome_example :
    (headers : List HttpHeader) × HeadersOf transfer.parts headers
    × ((perform curl default_transport_options call).0
        ≡ outcome default_transport_options transfer headers)
unfolding lit
perform-outcome_example =
    perform-outcome curl default_transport_options call
      ((refl, refl, omega arith), ((refl, refl, omega arith), tt))

-- What follows the bracket is not looked at.
bracket_then_host : is_loopback_http_url (lit "http://[::1]example.com/v1") ≡ true
unfolding is_loopback_http_url lit ascii_iequals ascii_lower same
bracket_then_host = refl

is_local : is_loopback_http_url request.url ≡ true
unfolding is_loopback_http_url lit ascii_iequals ascii_lower
is_local = refl

is_loopback_http_url-LocalAuthority_example :
    (scheme authority rest : Bytes) × (request.url ≡ scheme ++ (authority ++ rest))
    × (ascii_iequals scheme http_prefix ≡ true)
    × (any (λ c. c == b'@') authority ≡ false)
    × LocalAuthority authority
    × StartsIn ends_authority rest
is_loopback_http_url-LocalAuthority_example =
    is_loopback_http_url-LocalAuthority request.url is_local
