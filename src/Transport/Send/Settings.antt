-- ===== src/Transport/Send/Settings.antt =====
-- What libcurl is told: the options of a handle as settings, of which the last one of a kind counts.
use neural_plus.Prelude.{
  ℕ, ◌≤◌, Bytes, lit, ◌≡◌, ◌≢◌, refl, sym, ap, subst, ◌∙◌, Bool, true, false, and_true, not, ◌&&◌,
  inl, inr, ◌⊎◌, Option, none, some, List, [], ◌∷◌, ◌++◌, map, is_empty, length, all, arith, All,
  if◌then◌else◌,
}
use neural_plus.Outcome.{ok}
use neural_plus.Transport.{HttpMethod, HttpHeader, HttpRequest, HttpResponse}
use neural_plus.Transport.Check.{is_value_character, valid_header_value, is_loopback_http_url}
use neural_plus.Transport.Send.{
  HttpTransportOptions, CurlOption, Curl, Call, perform, send, first_options, later_options,
  body_options, header_options, option_unless_empty, method_option, method_name, serialize_header,
  connect_timeout_ms, is_get, url, protocols, redir_protocols, user_agent, proxy, no_proxy,
  custom_request, post_fields, no_signal, follow_location, timeout_ms, ssl_verify_peer,
  ssl_verify_host, http_get, http_post, post_field_size, write_function, write_data,
  header_function, header_data, http_header,
}
use neural_plus.Transport.Send.Prepared.{milliseconds, planned, send-planned, serialize_header-All}

-- One field for each thing that an option sets. The three options of the method set one field.
pub record Settings : Type 0 where
  pub address : Option Bytes
  pub without_signals : Option ℕ
  pub redirects : Option ℕ
  pub allowed_protocols : Option Bytes
  pub allowed_redirects : Option Bytes
  pub connect_milliseconds : Option ℕ
  pub total_milliseconds : Option ℕ
  pub verify_peer : Option ℕ
  pub verify_host : Option ℕ
  pub body_callback : Bool
  pub body_context : Bool
  pub header_callback : Bool
  pub header_context : Bool
  pub agent : Option Bytes
  pub through_proxy : Option Bytes
  pub past_proxy : Option Bytes
  pub method : Option Bytes
  pub body : Option Bytes
  pub body_size : Option ℕ
  pub lines : List Bytes

abbrev pub unset : Settings
unset = record {
  address = none;
  without_signals = none;
  redirects = none;
  allowed_protocols = none;
  allowed_redirects = none;
  connect_milliseconds = none;
  total_milliseconds = none;
  verify_peer = none;
  verify_host = none;
  body_callback = false;
  body_context = false;
  header_callback = false;
  header_context = false;
  agent = none;
  through_proxy = none;
  past_proxy = none;
  method = none;
  body = none;
  body_size = none;
  lines = [];
}

abbrev pub with_option : CurlOption → Settings → Settings
with_option (url text) s = record s { address = some text }
with_option (no_signal n) s = record s { without_signals = some n }
with_option (follow_location n) s = record s { redirects = some n }
with_option (protocols text) s = record s { allowed_protocols = some text }
with_option (redir_protocols text) s = record s { allowed_redirects = some text }
with_option (connect_timeout_ms n) s = record s { connect_milliseconds = some n }
with_option (timeout_ms n) s = record s { total_milliseconds = some n }
with_option (ssl_verify_peer n) s = record s { verify_peer = some n }
with_option (ssl_verify_host n) s = record s { verify_host = some n }
with_option write_function s = record s { body_callback = true }
with_option write_data s = record s { body_context = true }
with_option header_function s = record s { header_callback = true }
with_option header_data s = record s { header_context = true }
with_option (user_agent text) s = record s { agent = some text }
with_option (proxy text) s = record s { through_proxy = some text }
with_option (no_proxy text) s = record s { past_proxy = some text }
with_option (http_get n) s = record s { method = some (lit "GET") }
with_option (http_post n) s = record s { method = some (lit "POST") }
with_option (custom_request text) s = record s { method = some text }
with_option (post_fields text) s = record s { body = some text }
with_option (post_field_size n) s = record s { body_size = some n }
with_option (http_header texts) s = record s { lines = texts }

abbrev pub settings : List CurlOption → Settings → Settings
settings [] s = s
settings (o ∷ os) s = settings os (with_option o s)

-- A text that is set where it is not empty.
abbrev pub text_or : Option Bytes → Bytes → Option Bytes
text_or other [] = other
text_or other (b ∷ text) = some (b ∷ text)

abbrev pub method_text : HttpMethod → Bytes
method_text HttpMethod.get = lit "GET"
method_text HttpMethod.post = lit "POST"
method_text HttpMethod.put = lit "PUT"
method_text HttpMethod.patch = lit "PATCH"
method_text HttpMethod.delete_ = lit "DELETE"

-- A value of a request that has a body.
abbrev pub unless_get : {A : Type 0} → Option A → HttpMethod → A → Option A
unless_get other HttpMethod.get x = other
unless_get other HttpMethod.post x = some x
unless_get other HttpMethod.put x = some x
unless_get other HttpMethod.patch x = some x
unless_get other HttpMethod.delete_ x = some x

abbrev pub line_of : HttpHeader → Bytes
line_of h = h.name ++ (lit ": " ++ h.value)

-- How a request must be made: redirects are not followed, no protocol but HTTP is used, certificates and
-- host names are verified unless the options say not to, and the proxy is passed by for the local machine.
abbrev pub configured : HttpTransportOptions → HttpRequest → Settings
configured options request = record {
  address = some request.url;
  without_signals = some 1;
  redirects = some 0;
  allowed_protocols = some (lit "http,https");
  allowed_redirects = some (lit "http,https");
  connect_milliseconds = some (milliseconds options.connect_timeout);
  total_milliseconds = some (milliseconds request.timeout);
  verify_peer = some (if options.verify_tls then 1 else 0);
  verify_host = some (if options.verify_tls then 2 else 0);
  body_callback = true;
  body_context = true;
  header_callback = true;
  header_context = true;
  agent = text_or none options.user_agent;
  through_proxy = text_or none options.proxy;
  past_proxy = if is_loopback_http_url request.url then some (lit "*") else none;
  method = some (method_text request.method);
  body = unless_get none request.method request.body;
  body_size = unless_get none request.method (length request.body);
  lines = map line_of request.headers;
}

settings-append :
    (os ps : List CurlOption) (s : Settings) → settings (os ++ ps) s ≡ settings ps (settings os s)
settings-append [] ps s = refl
settings-append (o ∷ os) ps s = settings-append os ps (with_option o s)

agent_lem :
    (text : Bytes) (ps : List CurlOption) (s : Settings)
    → settings (option_unless_empty text user_agent ++ ps) s
      ≡ settings ps (record s { agent = text_or s.agent text })
agent_lem [] ps s = refl
agent_lem (b ∷ text) ps s = refl

proxy_lem :
    (text : Bytes) (ps : List CurlOption) (s : Settings)
    → settings (option_unless_empty text proxy ++ ps) s
      ≡ settings ps (record s { through_proxy = text_or s.through_proxy text })
proxy_lem [] ps s = refl
proxy_lem (b ∷ text) ps s = refl

no_proxy_lem :
    (local : Bool) (ps : List CurlOption) (s : Settings)
    → settings ((if local then no_proxy (lit "*") ∷ [] else []) ++ ps) s
      ≡ settings ps (record s { past_proxy = if local then some (lit "*") else s.past_proxy })
no_proxy_lem true ps s = refl
no_proxy_lem false ps s = refl

method_lem :
    (m : HttpMethod) (s : Settings)
    → with_option (method_option m) s ≡ record s { method = some (method_text m) }
unfolding method_name
method_lem HttpMethod.get s = refl
method_lem HttpMethod.post s = refl
method_lem HttpMethod.put s = refl
method_lem HttpMethod.patch s = refl
method_lem HttpMethod.delete_ s = refl

body_lem :
    (m : HttpMethod) (text : Bytes) (s : Settings)
    → settings (if is_get m then [] else post_fields text ∷ post_field_size (length text) ∷ []) s
      ≡ record s {
        body = unless_get s.body m text;
        body_size = unless_get s.body_size m (length text);
      }
body_lem HttpMethod.get text s = refl
body_lem HttpMethod.post text s = refl
body_lem HttpMethod.put text s = refl
body_lem HttpMethod.patch text s = refl
body_lem HttpMethod.delete_ text s = refl

header_lem :
    (texts : List Bytes) (s : Settings)
    → s.lines ≡ []
    → settings (header_options texts) s ≡ record s { lines = texts }
header_lem [] s h = ap (λ (ls : List Bytes). record s { lines = ls }) h
header_lem (l ∷ ls) s h = refl

serialize_header_lem : (hs : List HttpHeader) → map serialize_header hs ≡ map line_of hs
unfolding serialize_header
serialize_header_lem hs = refl

later_lem :
    (options : HttpTransportOptions) (request : HttpRequest) (timeout : ℕ) (s : Settings)
    → settings (later_options options request timeout) s ≡ record s {
      total_milliseconds = some timeout;
      verify_peer = some (if options.verify_tls then 1 else 0);
      verify_host = some (if options.verify_tls then 2 else 0);
      body_callback = true;
      body_context = true;
      header_callback = true;
      header_context = true;
      agent = text_or s.agent options.user_agent;
      through_proxy = text_or s.through_proxy options.proxy;
      past_proxy = if is_loopback_http_url request.url then some (lit "*") else s.past_proxy;
      method = some (method_text request.method);
    }
later_lem options request timeout s =
    agent_lem options.user_agent _ _
    ∙ proxy_lem options.proxy _ _
    ∙ no_proxy_lem (is_loopback_http_url request.url) _ _
    ∙ method_lem request.method _

planned-configured :
    (options : HttpTransportOptions) (request : HttpRequest)
    → settings (planned options request) unset ≡ configured options request
planned-configured options request =
    let texts = map serialize_header request.headers in
    let start =
      first_options request ++ connect_timeout_ms (milliseconds options.connect_timeout) ∷ [] in
    let later = later_options options request (milliseconds request.timeout) in
    settings-append ((start ++ later) ++ body_options request) (header_options texts) unset
    ∙ ap (settings (header_options texts)) (
        settings-append (start ++ later) (body_options request) unset
        ∙ ap (settings (body_options request)) (
            settings-append start later unset
            ∙ later_lem options request (milliseconds request.timeout) (settings start unset))
        ∙ body_lem request.method request.body _)
    ∙ header_lem texts _ refl
    ∙ ap (λ (ls : List Bytes). record (configured options request) { lines = ls })
        (serialize_header_lem request.headers)

-- No byte of a line is a control character other than a tab.
abbrev pub OneLine : Bytes → Type 0
OneLine line = All (λ b. (b ≡ 9) ⊎ ((32 ≤ b) × (b ≢ 127))) line

valid-OneLine : (line : Bytes) → all is_value_character line ≡ true → OneLine line
valid-OneLine [] h = tt
valid-OneLine (b ∷ line) h =
    let (e, rest) = and_true (is_value_character b) (all is_value_character line) h in
    (printable b e, valid-OneLine line rest)
  where
    printable : (b : ℕ) → is_value_character b ≡ true → (b ≡ 9) ⊎ ((32 ≤ b) × (b ≢ 127))
    printable b e = ground arith

all-OneLine :
    (lines : List Bytes) → All (λ line. valid_header_value line ≡ true) lines → All OneLine lines
unfolding valid_header_value
all-OneLine [] h = tt
all-OneLine (l ∷ ls) (v, vs) = (valid-OneLine l v, all-OneLine ls vs)

get_or_not : (m : HttpMethod) → (is_get m ≡ true) ⊎ (m ≢ HttpMethod.get)
get_or_not m = ground arith

bodyless :
    (m : HttpMethod) (text : Bytes)
    → (is_get m && not (is_empty text)) ≡ false
    → (m ≢ HttpMethod.get) ⊎ (text ≡ [])
bodyless m [] h = inr refl
bodyless m (b ∷ text) h = elim (get_or_not m) [ inl e ↦ let g = rw e at h in cc | inr n ↦ inl n ]

module _ {S : Type 0} (curl : Curl S) where
  -- A response comes from a transfer for which libcurl was told just what `configured` says of the options
  -- and the request: the address, the method and the body of the request, the headers as lines "name: value"
  -- in their order, both timeouts, the callbacks, the user agent and the proxy where they are not
  -- empty, no redirects, no protocols but HTTP and HTTPS, the verification of certificates and host names
  -- unless it is switched off, and for an address of the local machine no proxy. A GET has no body.
  pub send-configured :
      (options : HttpTransportOptions) (request : HttpRequest) (s s' : S) (response : HttpResponse)
      → send curl options request s ≡ (ok response, s')
      → (c : Call S) × ((perform curl options c).0 ≡ ok response)
        × (settings c.handle unset ≡ configured options request)
        × ((request.method ≢ HttpMethod.get) ⊎ (request.body ≡ []))
  send-configured options request s s' response h =
      let (c, p, q, v, g) = send-planned curl options request s s' response h in
      (
        c,
        p,
        ap (λ (os : List CurlOption). settings os unset) q ∙ planned-configured options request,
        bodyless request.method request.body g,
      )

  -- A response comes from a transfer whose header lines, as libcurl was handed them, are the headers of the
  -- request as "name: value", in their order, and hold no control character other than a tab, so that no
  -- name or value can end its line and begin another.
  pub send-lines :
      (options : HttpTransportOptions) (request : HttpRequest) (s s' : S) (response : HttpResponse)
      → send curl options request s ≡ (ok response, s')
      → (c : Call S) × ((perform curl options c).0 ≡ ok response)
        × ((settings c.handle unset).lines ≡ map line_of request.headers)
        × All OneLine (settings c.handle unset).lines
  send-lines options request s s' response h =
      let (c, p, q, v, g) = send-planned curl options request s s' response h in
      let told : settings c.handle unset ≡ configured options request =
        ap (λ (os : List CurlOption). settings os unset) q ∙ planned-configured options request in
      let good : All OneLine (map line_of request.headers) =
        subst (All OneLine) (serialize_header_lem request.headers)
          (all-OneLine _ (serialize_header-All request.headers v)) in
      (
        c,
        p,
        ap (λ (t : Settings). t.lines) told,
        subst (λ (t : Settings). All OneLine t.lines) (sym told) good,
      )
