-- ===== src/Transport/Send/Guarantees.antt =====
-- What a transfer makes of the parts that libcurl hands over.
use neural_plus.Prelude.{
  ◌≤◌, ◌≡◌, refl, ap, subst, Bool, Bool-cases, inl, inr, List, [], ◌∷◌, is_empty, length, ◌==◌,
  arith,
}
use neural_plus.Outcome.{Result, ok, err}
use neural_plus.Exec.{continue}
use neural_plus.Transport.{HttpRequest, HttpResponse}
use neural_plus.Transport.Receive.{write_body, write_header}
use neural_plus.Transport.Receive.Limits.{
  header_bytes, BodyWithin, HeadersWithin, write_body-BodyWithin, write_header-HeadersWithin,
}
use neural_plus.Transport.Send.{
  HttpTransportOptions, Part, header_line, body_part, Transfer, Curl, Call, Contexts, passed,
  receive, fresh_contexts, finish, prepare, perform, send,
}

abbrev Within : HttpTransportOptions → Contexts → Type 0
Within options c =
    BodyWithin options.max_response_body_bytes c.body
    × HeadersWithin options.max_response_header_bytes c.header

receive-Within :
    (options : HttpTransportOptions) (parts : List Part) (c : Contexts)
    → Within options c
    → Within options (receive parts c).1
unfolding receive
receive-Within options [] c h = h
receive-Within options (body_part d ∷ parts) c (b, h) =
    let c' : Contexts = record c { body = (write_body d c.body).1 } in
    let b' = write_body-BodyWithin options.max_response_body_bytes d c.body b in
    elim (Bool-cases ((write_body d c.body).0 == passed d)) [
      | inl e ↦ rw e (receive-Within options parts c' (b', h))
      | inr e ↦ rw e (b', h)
    ]
receive-Within options (header_line d ∷ parts) c (b, h) =
    let c' : Contexts = record c { header = (write_header d c.header).1 } in
    let h' = write_header-HeadersWithin options.max_response_header_bytes d c.header h in
    elim (Bool-cases ((write_header d c.header).0 == passed d)) [
      | inl e ↦ rw e (receive-Within options parts c' (b, h'))
      | inr e ↦ rw e (b, h')
    ]

fresh-Within : (options : HttpTransportOptions) → Within options (fresh_contexts options)
unfolding fresh_contexts
fresh-Within options = ((refl, omega arith), (refl, omega arith, omega arith))

abbrev pub Bounded : HttpTransportOptions → HttpResponse → Type 0
Bounded options response =
    (length response.body ≤ options.max_response_body_bytes)
    × (header_bytes response.headers ≤ options.max_response_header_bytes)

-- What a property of all returned responses asks of a result.
abbrev Returned : (HttpResponse → Type 0) → Result HttpResponse → Type 0
Returned P (ok response) = P response
Returned P (err e) = Unit

finish-Bounded :
    (options : HttpTransportOptions) (t : Transfer) (taken : Bool) (c : Contexts)
    → Within options c
    → Returned (Bounded options) (finish t (taken, c))
unfolding finish
finish-Bounded options t taken c h = ground arith

module _ {S : Type 0} (curl : Curl S) where
  -- A response comes from a request that was prepared and performed.
  pub send-inversion :
      (options : HttpTransportOptions) (request : HttpRequest) (s s' : S) (response : HttpResponse)
      → send curl options request s ≡ (ok response, s')
      → (c : Call S) × (prepare curl options request
            (record { handle = []; world = (curl.easy_init s).1 })
          ≡ (ok tt, c))
        × ((perform curl options c).0 ≡ ok response)
  unfolding send continue
  send-inversion options request s s' response h = elim (Bool-cases (is_empty request.url)) [
    | inl e ↦ let g = rw e at h in cc
    | inr e ↦ elim (Bool-cases ((curl.easy_init s).0)) [
      | inr f ↦ let g = rw (e, f) at h in cc
      | inl f ↦
          go (prepare curl options request (record { handle = []; world = (curl.easy_init s).1 }))
            refl (ap (λ p. p.0) (rw (e, f) at h))
    ]
  ]
    where
      go :
          (p : Result (Unit {0}) × Call S)
          → prepare curl options request (record { handle = []; world = (curl.easy_init s).1 }) ≡ p
          → (continue p (λ done. perform curl options)).0 ≡ ok response
          → (c : Call S) × (prepare curl options request
                (record { handle = []; world = (curl.easy_init s).1 })
              ≡ (ok tt, c))
            × ((perform curl options c).0 ≡ ok response)
      go (ok tt, c) q g = (c, q, g)
      go (err e, c) q g = cc

  -- A response that `send` returns has a body of at most `max_response_body_bytes` bytes and headers
  -- of at most `max_response_header_bytes` bytes, whatever libcurl hands over.
  pub send-Bounded :
      (options : HttpTransportOptions) (request : HttpRequest) (s s' : S) (response : HttpResponse)
      → send curl options request s ≡ (ok response, s')
      → Bounded options response
  unfolding perform
  send-Bounded options request s s' response h =
      let (c, q, g) = send-inversion options request s s' response h in
      let t = (curl.easy_perform c.handle c.world).0 in
      let fresh = fresh_contexts options in
      let within = receive-Within options t.parts fresh (fresh-Within options) in
      subst (Returned (Bounded options)) g
        (finish-Bounded options t (receive t.parts fresh).0 (receive t.parts fresh).1 within)
