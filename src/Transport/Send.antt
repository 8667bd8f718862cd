-- ===== src/Transport/Send.antt =====
-- `CurlHttpTransport` and `MockHttpTransport` of src/transport.cpp. libcurl is the parameter `Curl`: its
-- handle is the list of the options that were set, and a transfer is the parts of the response that
-- it hands to the callbacks, in their order, with how it ends. libcurl documents that it stops with
-- an error at the first part whose callback returns another number than it was passed.
pub mod Guarantees
pub mod Totals
pub mod Prepared
pub mod Settings
use neural_plus.Prelude.{
  ℕ, ◌+◌, ◌-◌, ◌*◌, ◌%◌, ◌^◌, ℤ, pos, negsuc, Bytes, lit, Bool, true, false, not, ◌&&◌, ◌||◌,
  Option, none, some, List, [], ◌∷◌, ◌++◌, is_empty, length, leb, ltb, ◌==◌, if◌then◌else◌,
}
use neural_plus.Outcome.{Result, ok, err, configuration_error, transport_error, throw_if}
use neural_plus.Outcome
use neural_plus.Exec.{Exec, pure, throw, lift, continue, modify, ◌>>=◌, ◌>>◌}
use neural_plus.Transport.{HttpMethod, HttpHeader, HttpRequest, HttpResponse}
use neural_plus.Transport.Check.{
  valid_header_name, valid_header_value, milliseconds_as_long, is_loopback_http_url, long_max,
}
use neural_plus.Transport.Receive.{
  Delivery, BodyWriteContext, HeaderWriteContext, write_body, write_header,
}

pub record HttpTransportOptions : Type 0 where
  pub connect_timeout : ℤ
  pub verify_tls : Bool
  pub proxy : Bytes
  pub user_agent : Bytes
  pub max_response_body_bytes : ℕ
  pub max_response_header_bytes : ℕ

abbrev pub default_transport_options : HttpTransportOptions
default_transport_options = record {
  connect_timeout = pos 10000;
  verify_tls = true;
  proxy = [];
  user_agent = lit "NeuralPlus";
  max_response_body_bytes = 16 * 1024 * 1024;
  max_response_header_bytes = 256 * 1024;
}

unfoldable pub method_name : HttpMethod → Bytes
unfolding lit
method_name HttpMethod.get = lit "GET"
method_name HttpMethod.post = lit "POST"
method_name HttpMethod.put = lit "PUT"
method_name HttpMethod.patch = lit "PATCH"
method_name HttpMethod.delete_ = lit "DELETE"

-- The options of `curl_easy_setopt` that the code sets. The two spellings of the protocol options, for
-- old and new versions of libcurl, are one.
pub data CurlOption : Type 0 where
  url protocols redir_protocols user_agent proxy no_proxy custom_request post_fields :
      Bytes → CurlOption
  no_signal follow_location connect_timeout_ms timeout_ms ssl_verify_peer ssl_verify_host http_get
        http_post post_field_size :
      ℕ → CurlOption
  write_function write_data header_function header_data : CurlOption
  http_header : List Bytes → CurlOption

pub data Part : Type 0 where
  header_line body_part : Delivery → Part

-- `failure` is the text of an error of libcurl's own, `refusal` that of the error after a callback
-- refused a part, and `status` the response code where it can be read.
pub record Transfer : Type 0 where
  pub parts : List Part
  pub failure : Option Bytes
  pub refusal : Bytes
  pub status : Option ℤ

pub record Curl (S : Type 0) : Type 0 where
  pub initialized : Bool
  pub easy_init : S → Bool × S
  pub easy_setopt : CurlOption → List CurlOption → S → Bool × S
  pub slist_append : List Bytes → Bytes → S → Bool × S
  pub easy_perform : List CurlOption → S → Transfer × S

-- A request under way: the handle's options, and the rest of the world.
pub record Call (S : Type 0) : Type 0 where
  pub handle : List CurlOption
  pub world : S

-- The constructor of `CurlHttpTransport::Impl`.
unfoldable pub check_transport_options : Bool → HttpTransportOptions → Result HttpTransportOptions
check_transport_options initialized options =
    Outcome.◌>>◌
      (throw_if (elim options.connect_timeout [ pos n ↦ n == 0 | negsuc n ↦ true ])
        (configuration_error (lit "connect timeout must be greater than zero")))
      (Outcome.◌>>◌
        (throw_if (options.max_response_body_bytes == 0 || options.max_response_header_bytes == 0)
          (configuration_error (lit "HTTP response size limits must be greater than zero")))
        (Outcome.◌>>◌
          (throw_if (not initialized)
            (transport_error (lit "libcurl global initialization failed")))
          (ok options)))

-- The contexts of both callbacks.
pub record Contexts : Type 0 where
  pub body : BodyWriteContext
  pub header : HeaderWriteContext

-- The number of bytes that a callback was passed, in `std::size_t`.
abbrev pub passed : Delivery → ℕ
passed d = d.item_size * d.item_count % 2 ^ 64

-- libcurl and the callbacks: whether all parts were taken, and the contexts.
unfoldable pub receive : List Part → Contexts → Bool × Contexts
unfolding write_body write_header
receive [] c = (true, c)
receive (body_part d ∷ parts) c =
    let (n, context) = write_body d c.body in
    let c' : Contexts = record c { body = context } in
    let rest = receive parts c' in if n == passed d then rest else (false, c')
receive (header_line d ∷ parts) c =
    let (n, context) = write_header d c.header in
    let c' : Contexts = record c { header = context } in
    let rest = receive parts c' in if n == passed d then rest else (false, c')

unfoldable pub fresh_contexts : HttpTransportOptions → Contexts
fresh_contexts options = record {
  body = record { body = []; limit = options.max_response_body_bytes; limit_exceeded = false };
  header = record {
    headers = [];
    limit = options.max_response_header_bytes;
    received = 0;
    limit_exceeded = false;
  };
}

-- What `send` makes of the end of a transfer.
unfoldable pub finish : Transfer → Bool × Contexts → Result HttpResponse
finish t (taken, c) =
    if taken && not (elim t.failure [ none ↦ false | some text ↦ true ])
    then elim t.status [
      | none ↦ err (transport_error (lit "libcurl could not read the HTTP response status"))
      | some status ↦
          ok (record { status = status; headers = c.header.headers; body = c.body.body })
    ]
    else if c.body.limit_exceeded || c.header.limit_exceeded
    then err (transport_error (lit "HTTP response exceeded the configured size limit"))
    else err (
        transport_error (
          lit "HTTP request failed: "
          ++ (if taken then elim t.failure [ none ↦ [] | some text ↦ text ] else t.refusal)))

abbrev pub is_get : HttpMethod → Bool
is_get HttpMethod.get = true
is_get _ = false

abbrev pub first_options : HttpRequest → List CurlOption
first_options request =
    url request.url
    ∷ no_signal 1
    ∷ follow_location 0
    ∷ protocols (lit "http,https")
    ∷ redir_protocols (lit "http,https")
    ∷ []

abbrev pub method_option : HttpMethod → CurlOption
method_option HttpMethod.get = http_get 1
method_option HttpMethod.post = http_post 1
method_option m = custom_request (method_name m)

abbrev pub option_unless_empty : Bytes → (Bytes → CurlOption) → List CurlOption
option_unless_empty text option = if is_empty text then [] else option text ∷ []

-- From the request timeout to the method.
abbrev pub later_options : HttpTransportOptions → HttpRequest → ℕ → List CurlOption
later_options options request timeout =
    timeout_ms timeout
    ∷ ssl_verify_peer (if options.verify_tls then 1 else 0)
    ∷ ssl_verify_host (if options.verify_tls then 2 else 0)
    ∷ write_function
    ∷ write_data
    ∷ header_function
    ∷ header_data
    ∷ (option_unless_empty options.user_agent user_agent
        ++ (option_unless_empty options.proxy proxy
            ++ ((if is_loopback_http_url request.url then no_proxy (lit "*") ∷ [] else [])
                ++ method_option request.method ∷ [])))

abbrev pub body_options : HttpRequest → List CurlOption
body_options request =
    if is_get request.method
    then []
    else post_fields request.body ∷ post_field_size (length request.body) ∷ []

abbrev pub header_options : List Bytes → List CurlOption
header_options lines = if is_empty lines then [] else http_header lines ∷ []

unfoldable pub serialize_header : HttpHeader → Bytes
serialize_header header = header.name ++ (lit ": " ++ header.value)

module _ {S : Type 0} (curl : Curl S) where
  unfoldable pub set_options : List CurlOption → Exec (Call S) (Unit {0})
  set_options [] c = (ok tt, c)
  set_options (o ∷ os) c =
      let (accepted, w) = curl.easy_setopt o c.handle c.world in
      let rest = set_options os (record { handle = c.handle ++ o ∷ []; world = w }) in
      if accepted then rest else (
        err (transport_error (lit "libcurl request configuration failed")),
        record c { world = w },
      )

  -- The loop over the headers, with the lines so far.
  unfoldable pub append_headers : List HttpHeader → List Bytes → Exec (Call S) (List Bytes)
  append_headers [] lines c = (ok lines, c)
  append_headers (h ∷ hs) lines c =
      if not (valid_header_name h.name) || not (valid_header_value h.value)
      then (err (configuration_error (lit "HTTP header contains invalid characters")), c)
      else (let (appended, w) = curl.slist_append lines (serialize_header h) c.world in
          let rest =
            append_headers hs (lines ++ serialize_header h ∷ []) (record c { world = w }) in
          if appended then rest else (
            err (transport_error (lit "libcurl could not allocate request headers")),
            record c { world = w },
          ))

  -- `send` up to `curl_easy_perform`.
  unfoldable pub prepare : HttpTransportOptions → HttpRequest → Exec (Call S) (Unit {0})
  prepare options request = do
    set_options (first_options request)
    connect ← lift (milliseconds_as_long options.connect_timeout (lit "connect timeout"))
    set_options (connect_timeout_ms connect ∷ [])
    timeout ← lift (milliseconds_as_long request.timeout (lit "request timeout"))
    set_options (later_options options request timeout)
    lift (
        throw_if (is_get request.method && not (is_empty request.body))
          (configuration_error (lit "HTTP GET requests must not contain a body")))
    lift (
        throw_if (not (is_get request.method) && ltb long_max (length request.body))
          (configuration_error (lit "HTTP request body is too large")))
    set_options (body_options request)
    lines ← append_headers request.headers []
    set_options (header_options lines)

  unfoldable pub perform : HttpTransportOptions → Exec (Call S) HttpResponse
  unfolding receive fresh_contexts finish
  perform options c =
      let (t, w) = curl.easy_perform c.handle c.world in
      (finish t (receive t.parts (fresh_contexts options)), record c { world = w })

  unfoldable pub send : HttpTransportOptions → HttpRequest → Exec S HttpResponse
  send options request s =
      if is_empty request.url
      then (err (configuration_error (lit "HTTP request URL must not be empty")), s)
      else (let (allocated, w) = curl.easy_init s in
          let (r, c) =
            continue (prepare options request (record { handle = []; world = w }))
              (λ done. perform options) in
          if allocated
          then (r, c.world)
          else (err (transport_error (lit "libcurl could not allocate a request handle")), w))

-- `MockHttpTransport`: the requests that it recorded, and the handler.
pub record MockHttpTransport (S : Type 0) : Type 0 where
  pub handler : HttpRequest → Exec S HttpResponse
  pub requests : List HttpRequest

module _ {S : Type 0} where
  unfoldable pub mock_transport :
      Option (HttpRequest → Exec S HttpResponse) → Result (MockHttpTransport S)
  mock_transport none =
      err (configuration_error (lit "mock HTTP transport handler must not be empty"))
  mock_transport (some handler) = ok (record { handler = handler; requests = [] })

  -- The request is recorded before the handler runs, also where the handler throws.
  unfoldable pub mock_send :
      MockHttpTransport S → HttpRequest → S → (Result HttpResponse × S) × MockHttpTransport S
  mock_send mock request s =
      (mock.handler request s, record mock { requests = mock.requests ++ request ∷ [] })

  unfoldable pub clear_requests : MockHttpTransport S → MockHttpTransport S
  clear_requests mock = record mock { requests = [] }
