-- ===== src/Transport/Send/Totals.antt =====
-- The outcome of a transfer, from the whole of what was delivered: no callback is in its description.
use neural_plus.Prelude.{
  ℕ, ◌+◌, ◌≤◌, ◌<◌, Bytes, lit, ◌≡◌, refl, ap, ◌∙◌, Bool, true, false, Bool-cases, and_true, ◌&&◌,
  ◌||◌, inl, inr, ◌⊎◌, none, some, Option-cases, List, [], ◌∷◌, ◌++◌, append-nil, append_assoc,
  length, length-append, leb, ◌==◌, arith, if◌then◌else◌, All,
}
use neural_plus.Outcome.{Result, ok, err, transport_error}
use neural_plus.Transport.{HttpHeader, HttpResponse}
use neural_plus.Transport.Receive.{Delivery, parse_header}
use neural_plus.Transport.Receive.Lines.{HeaderOf, parse_header-HeaderOf}
use neural_plus.Transport.Receive.Whole.{
  Documented, write_body-fits, write_body-over, write_header-fits, write_header-over,
}
use neural_plus.Transport.Send.{
  HttpTransportOptions, Part, header_line, body_part, Transfer, Curl, Call, Contexts, passed,
  receive, fresh_contexts, finish, perform,
}

-- The body and the headers of a whole response.
abbrev pub whole_body : List Part → Bytes
whole_body [] = []
whole_body (body_part d ∷ parts) = d.buffer ++ whole_body parts
whole_body (header_line d ∷ parts) = whole_body parts

abbrev whole_headers : List Part → List HttpHeader
whole_headers [] = []
whole_headers (body_part d ∷ parts) = whole_headers parts
whole_headers (header_line d ∷ parts) = parse_header d.buffer ++ whole_headers parts

-- The bytes of all header lines, with those that hold no header.
abbrev pub header_total : List Part → ℕ
header_total [] = 0
header_total (body_part d ∷ parts) = header_total parts
header_total (header_line d ∷ parts) = length d.buffer + header_total parts

abbrev pub fits : HttpTransportOptions → List Part → Bool
fits options parts =
    leb (length (whole_body parts)) options.max_response_body_bytes
    && leb (header_total parts) options.max_response_header_bytes

abbrev pub DocumentedPart : Part → Type 0
DocumentedPart (body_part d) = Documented d
DocumentedPart (header_line d) = Documented d

-- What is left to be decided of a transfer that was stored.
abbrev pub stored_result : Transfer → List HttpHeader → Bytes → Result HttpResponse
stored_result t headers body = elim t.failure [
  | some text ↦ err (transport_error (lit "HTTP request failed: " ++ text))
  | none ↦ elim t.status [
    | none ↦ err (transport_error (lit "libcurl could not read the HTTP response status"))
    | some status ↦ ok (record { status = status; headers = headers; body = body })
  ]
]

-- The headers of the header lines, in their order.
pub data HeadersOf : List Part → List HttpHeader → Type 0 where
  nothing : HeadersOf [] []
  body_first :
      (d : Delivery) (parts : List Part) (headers : List HttpHeader)
      → HeadersOf parts headers
      → HeadersOf (body_part d ∷ parts) headers
  line_first :
      (d : Delivery) (parts : List Part) (said headers : List HttpHeader)
      → HeaderOf d.buffer said
      → HeadersOf parts headers
      → HeadersOf (header_line d ∷ parts) (said ++ headers)

whole_headers-HeadersOf : (parts : List Part) → HeadersOf parts (whole_headers parts)
whole_headers-HeadersOf [] = nothing
whole_headers-HeadersOf (body_part d ∷ parts) =
    body_first d parts (whole_headers parts) (whole_headers-HeadersOf parts)
whole_headers-HeadersOf (header_line d ∷ parts) =
    line_first d parts (parse_header d.buffer) (whole_headers parts)
      (parse_header-HeaderOf d.buffer) (whole_headers-HeadersOf parts)

-- The result of a transfer by the totals of its parts, and by its headers.
abbrev pub outcome : HttpTransportOptions → Transfer → List HttpHeader → Result HttpResponse
outcome options t headers =
    if fits options t.parts
    then stored_result t headers (whole_body t.parts)
    else err (transport_error (lit "HTTP response exceeded the configured size limit"))

-- The contexts after parts that fit.
abbrev filled : Contexts → List Part → Contexts
filled c parts = record {
  body = record c.body { body = c.body.body ++ whole_body parts };
  header = record c.header {
    received = c.header.received + header_total parts;
    headers = c.header.headers ++ whole_headers parts;
  };
}

Room : Contexts → List Part → Type 0
Room c parts =
    (length c.body.body + length (whole_body parts) ≤ c.body.limit)
    × (c.header.received + header_total parts ≤ c.header.limit)

passed-Documented : (d : Delivery) → Documented d → (length d.buffer == passed d) ≡ true
passed-Documented d (i, c, m) =
    let p : passed d ≡ length d.buffer = rw (i, c) (omega (arith, m)) in ground arith

passed-over : (d : Delivery) → Documented d → 0 < length d.buffer → (0 == passed d) ≡ false
passed-over d (i, c, m) k =
    let p : passed d ≡ length d.buffer = rw (i, c) (omega (arith, m)) in ground arith

receive-Room :
    (parts : List Part) (c : Contexts)
    → All DocumentedPart parts
    → Room c parts
    → receive parts c ≡ (true, filled c parts)
unfolding receive Room
receive-Room [] c h r =
    let z : c.header.received + 0 ≡ c.header.received = omega arith in
    rw (append-nil c.body.body, append-nil c.header.headers, z) refl
receive-Room (body_part d ∷ parts) c (i, h) (b, k) =
    let c' : Contexts = record c { body = record c.body { body = c.body.body ++ d.buffer } } in
    let a = length-append c.body.body d.buffer in
    let w = length-append d.buffer (whole_body parts) in
    let step = write_body-fits d c.body i (omega arith) in
    let rest = receive-Room parts c' h (omega arith, k) in
    rw (step, passed-Documented d i)
      (rest ∙ rw (append_assoc c.body.body d.buffer (whole_body parts)) refl)
receive-Room (header_line d ∷ parts) c (i, h) (b, k) =
    let c' : Contexts = record c {
      header = record c.header {
        received = c.header.received + length d.buffer;
        headers = c.header.headers ++ parse_header d.buffer;
      };
    } in
    let step = write_header-fits d c.header i (omega arith) in
    let rest = receive-Room parts c' h (b, omega arith) in
    let z : c.header.received + (length d.buffer + header_total parts)
        ≡ c.header.received + length d.buffer + header_total parts =
      omega arith in
    rw (step, passed-Documented d i)
      (rest
        ∙ rw (append_assoc c.header.headers (parse_header d.buffer) (whole_headers parts), z) refl)

Stored : Contexts → Type 0
Stored c = (length c.body.body ≤ c.body.limit) × (c.header.received ≤ c.header.limit)

NoRoom : Contexts → List Part → Type 0
NoRoom c parts =
    (c.body.limit < length c.body.body + length (whole_body parts))
    ⊎ (c.header.limit < c.header.received + header_total parts)

-- Stopped for the size.
Exceeded : Bool × Contexts → Type 0
Exceeded (taken, c) = (taken ≡ false) × ((c.body.limit_exceeded || c.header.limit_exceeded) ≡ true)

or_true : (b : Bool) → (b || true) ≡ true
or_true true = refl
or_true false = refl

receive-NoRoom :
    (parts : List Part) (c : Contexts)
    → All DocumentedPart parts
    → Stored c
    → NoRoom c parts
    → Exceeded (receive parts c)
unfolding receive Stored NoRoom Exceeded
receive-NoRoom [] c h (b, k) (inl r) = absurd (omega arith)
receive-NoRoom [] c h (b, k) (inr r) = absurd (omega arith)
receive-NoRoom (body_part d ∷ parts) c (i, h) (b, k) r =
    elim (Bool-cases (leb (length c.body.body + length d.buffer) c.body.limit)) [
      | inl e ↦
          let c' : Contexts = record c {
            body = record c.body { body = c.body.body ++ d.buffer };
          } in
          let a = length-append c.body.body d.buffer in
          let w = length-append d.buffer (whole_body parts) in
          let room : length c.body.body + length d.buffer ≤ c.body.limit = ground arith in
          let step = write_body-fits d c.body i room in
          let r' : NoRoom c' parts = elim r [ inl l ↦ inl (omega arith) | inr l ↦ inr l ] in
          rw (step, passed-Documented d i) (receive-NoRoom parts c' h (omega arith, k) r')
      | inr e ↦
          let over : c.body.limit < length c.body.body + length d.buffer = ground arith in
          let step = write_body-over d c.body i over b in
          rw (step, passed-over d i (omega arith)) (refl, refl)
    ]
receive-NoRoom (header_line d ∷ parts) c (i, h) (b, k) r =
    elim (Bool-cases (leb (c.header.received + length d.buffer) c.header.limit)) [
      | inl e ↦
          let c' : Contexts = record c {
            header = record c.header {
              received = c.header.received + length d.buffer;
              headers = c.header.headers ++ parse_header d.buffer;
            };
          } in
          let room : c.header.received + length d.buffer ≤ c.header.limit = ground arith in
          let step = write_header-fits d c.header i room in
          let r' : NoRoom c' parts = elim r [ inl l ↦ inl l | inr l ↦ inr (omega arith) ] in
          rw (step, passed-Documented d i) (receive-NoRoom parts c' h (b, room) r')
      | inr e ↦
          let over : c.header.limit < c.header.received + length d.buffer = ground arith in
          let step = write_header-over d c.header i over k in
          rw (step, passed-over d i (omega arith)) (refl, or_true c.body.limit_exceeded)
    ]

finish-eq-stored_result :
    (t : Transfer) (c : Contexts)
    → (c.body.limit_exceeded || c.header.limit_exceeded) ≡ false
    → finish t (true, c) ≡ stored_result t c.header.headers c.body.body
unfolding finish
finish-eq-stored_result t c h = elim (Option-cases t.failure) [
  | inl e ↦ rw e refl
  | inr (text, e) ↦ rw (e, h) refl
]

finish-Exceeded :
    (t : Transfer) (p : Bool × Contexts)
    → Exceeded p
    → finish t p ≡ err (transport_error (lit "HTTP response exceeded the configured size limit"))
unfolding finish Exceeded
finish-Exceeded t (taken, c) (e, f) = rw (e, f) refl

fits-NoRoom :
    (options : HttpTransportOptions) (parts : List Part)
    → fits options parts ≡ false
    → NoRoom (fresh_contexts options) parts
unfolding NoRoom fresh_contexts
fits-NoRoom options parts h =
    elim (Bool-cases (leb (length (whole_body parts)) options.max_response_body_bytes)) [
      | inl e ↦ inr (ground arith)
      | inr e ↦ inl (ground arith)
    ]

fits-Room :
    (options : HttpTransportOptions) (parts : List Part)
    → fits options parts ≡ true
    → Room (fresh_contexts options) parts
unfolding Room fresh_contexts
fits-Room options parts h =
    let (b, k) =
      and_true (leb (length (whole_body parts)) options.max_response_body_bytes)
        (leb (header_total parts) options.max_response_header_bytes) h in
    (ground arith, ground arith)

Stored-fresh_contexts : (options : HttpTransportOptions) → Stored (fresh_contexts options)
unfolding Stored fresh_contexts
Stored-fresh_contexts options = (omega arith, omega arith)

finish-outcome :
    (options : HttpTransportOptions) (t : Transfer)
    → All DocumentedPart t.parts
    → finish t (receive t.parts (fresh_contexts options))
      ≡ outcome options t (whole_headers t.parts)
unfolding fresh_contexts
finish-outcome options t h =
    let fresh = fresh_contexts options in
    elim (Bool-cases (fits options t.parts)) [
      | inl e ↦
          ap (finish t) (receive-Room t.parts fresh h (fits-Room options t.parts e))
          ∙ finish-eq-stored_result t (filled fresh t.parts) refl
          ∙ rw e refl
      | inr e ↦
          finish-Exceeded t (receive t.parts fresh) (
            receive-NoRoom t.parts fresh h (Stored-fresh_contexts options)
              (fits-NoRoom options t.parts e))
          ∙ rw e refl
    ]

module _ {S : Type 0} (curl : Curl S) where
  -- Where libcurl calls the callbacks as it documents, one header line a call and the body in parts of any
  -- size, the result of a transfer is `outcome`. A response that does not fit in the limits, by the
  -- bytes of all header lines and of the whole body, is an error; a response that is returned has
  -- the whole body, however it was cut, and the headers of all lines in their order. The headers are
  -- described by `HeadersOf`: a line without a colon has none, and in another the first colon
  -- ends the name, and name and value are without the blanks around them.
  pub perform-outcome :
      (options : HttpTransportOptions) (c : Call S)
      → All DocumentedPart (curl.easy_perform c.handle c.world).0.parts
      → (headers : List HttpHeader) × HeadersOf (curl.easy_perform c.handle c.world).0.parts headers
        × ((perform curl options c).0
            ≡ outcome options (curl.easy_perform c.handle c.world).0 headers)
  unfolding perform
  perform-outcome options c h =
      let t = (curl.easy_perform c.handle c.world).0 in
      (whole_headers t.parts, whole_headers-HeadersOf t.parts, finish-outcome options t h)
