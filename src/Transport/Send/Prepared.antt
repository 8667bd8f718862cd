-- ===== src/Transport/Send/Prepared.antt =====
-- What a request has set before it is performed.
use neural_plus.Prelude.{
  ℕ, ℤ, pos, negsuc, Bytes, lit, ◌≡◌, refl, sym, ap, ◌∙◌, subst, Bool, true, false, Bool-cases,
  and_true, not, ◌&&◌, inl, inr, List, [], ◌∷◌, ◌++◌, map, append-nil, append_assoc, is_empty, all,
  ltb, arith, All, length,
}
use neural_plus.Outcome.{ok, configuration_error, throw_if, throw_if-ok}
use neural_plus.Exec.{Exec, continue}
use neural_plus.Exec.Post.{Post, Post-bind, Post-bind-lift, Post-weaken}
use neural_plus.Transport.{HttpHeader, HttpRequest, HttpResponse}
use neural_plus.Transport.Check.{
  valid_header_name, valid_header_value, is_token_character, is_value_character,
  milliseconds_as_long, long_max,
}
use neural_plus.Transport.Send.Guarantees.{send-inversion}
use neural_plus.Transport.Send.{
  HttpTransportOptions, CurlOption, Curl, Call, set_options, append_headers, serialize_header,
  prepare, perform, send, first_options, later_options, body_options, header_options,
  connect_timeout_ms, is_get,
}

-- The milliseconds of a duration that was accepted.
abbrev pub milliseconds : ℤ → ℕ
milliseconds (pos n) = n
milliseconds (negsuc n) = 0

abbrev plan :
    HttpTransportOptions → HttpRequest → (connect timeout : ℕ) → List Bytes → List CurlOption
plan options request connect timeout lines =
    (((first_options request ++ connect_timeout_ms connect ∷ [])
        ++ later_options options request timeout)
      ++ body_options request)
    ++ header_options lines

-- All options of a request, in the order in which they are set.
abbrev pub planned : HttpTransportOptions → HttpRequest → List CurlOption
planned options request =
    plan options request (milliseconds options.connect_timeout) (milliseconds request.timeout)
      (map serialize_header request.headers)

abbrev pub ValidHeader : HttpHeader → Type 0
ValidHeader h = (valid_header_name h.name ≡ true) × (valid_header_value h.value ≡ true)

milliseconds_as_long-ok :
    (d : ℤ) (name : Bytes) (n : ℕ) → milliseconds_as_long d name ≡ ok n → n ≡ milliseconds d
unfolding milliseconds_as_long
milliseconds_as_long-ok (negsuc m) name n h = cc
milliseconds_as_long-ok (pos m) name n h = ground arith

module _ {S : Type 0} (curl : Curl S) where
  set_options-Post :
      (os : List CurlOption) (c : Call S)
      → Post (λ _ c'. c'.handle ≡ c.handle ++ os) (λ _. Unit) (set_options curl os c)
  unfolding set_options
  set_options-Post [] c = sym (append-nil c.handle)
  set_options-Post (o ∷ os) c =
      let (accepted, w) = curl.easy_setopt o c.handle c.world in
      let c' : Call S = record { handle = c.handle ++ o ∷ []; world = w } in
      elim (Bool-cases accepted) [
        | inl e ↦ rw e (
            subst (λ h. Post (λ _ c''. c''.handle ≡ h) (λ _. Unit) (set_options curl os c'))
              (append_assoc c.handle (o ∷ []) os) (set_options-Post os c'))
        | inr e ↦ rw e tt
      ]

  abbrev Appended : List HttpHeader → List Bytes → List CurlOption → List Bytes → Call S → Type 0
  Appended hs lines handle all_lines c' =
      (c'.handle ≡ handle) × (all_lines ≡ lines ++ map serialize_header hs) × All ValidHeader hs

  append_headers-Post :
      (hs : List HttpHeader) (lines : List Bytes) (c : Call S)
      → Post (Appended hs lines c.handle) (λ _. Unit) (append_headers curl hs lines c)
  unfolding append_headers
  append_headers-Post [] lines c = (refl, sym (append-nil lines), tt)
  append_headers-Post (h ∷ hs) lines c =
      let w = (curl.slist_append lines (serialize_header h) c.world).1 in
      let longer = lines ++ serialize_header h ∷ [] in
      let c' : Call S = record c { world = w } in
      elim (Bool-cases (valid_header_name h.name)) [
        | inr e ↦ rw e tt
        | inl e ↦ elim (Bool-cases (valid_header_value h.value)) [
          | inr f ↦ rw (e, f) tt
          | inl f ↦ elim (Bool-cases ((curl.slist_append lines (serialize_header h) c.world).0)) [
            | inr g ↦ rw (e, f, g) tt
            | inl g ↦
                rw (e, f, g)
                  (Post-weaken (Appended hs longer c.handle) (Appended (h ∷ hs) lines c.handle)
                    (λ _. Unit) (λ _. Unit) (append_headers curl hs longer c')
                    (append_headers-Post hs longer c')
                    (λ all_lines v (k, l, a). (
                      k,
                      l ∙ append_assoc lines (serialize_header h ∷ []) (map serialize_header hs),
                      ((e, f), a),
                    ))
                    (λ v u. u))
          ]
        ]
      ]

  -- The rule for `set_options os` before other code.
  after_set_options :
      (Q : Unit {0} → Call S → Type 0) (os before : List CurlOption) (c : Call S)
      (f : Unit {0} → Exec (Call S) (Unit {0}))
      → c.handle ≡ before
      → ((c' : Call S) → c'.handle ≡ before ++ os → Post Q (λ _. Unit) (f tt c'))
      → Post Q (λ _. Unit) (continue (set_options curl os c) f)
  after_set_options Q os before c f p k =
      Post-bind (λ _ c'. c'.handle ≡ c.handle ++ os) Q (λ _. Unit) (set_options curl os c) f
        (set_options-Post os c) (λ _ c' q. k c' (rw p at q))

  -- What a prepared request has.
  abbrev Ready : HttpTransportOptions → HttpRequest → Call S → Type 0
  Ready options request c =
      (c.handle ≡ planned options request)
      × All ValidHeader request.headers
      × ((is_get request.method && not (is_empty request.body)) ≡ false)

  prepare-Ready :
      (options : HttpTransportOptions) (request : HttpRequest) (w : S)
      → Post
          (λ _ c. Ready options request c)
          (λ _. Unit)
          (prepare curl options request (record { handle = []; world = w }))
  unfolding prepare
  prepare-Ready options request w =
      let Q = λ (u : Unit {0}) (c : Call S). Ready options request c in
      let R = λ (c : Call S). Unit {0} in
      let first = first_options request in
      let second = λ (n : ℕ). first ++ connect_timeout_ms n ∷ [] in
      let third = λ (n m : ℕ). second n ++ later_options options request m in
      let long = not (is_get request.method) && ltb long_max (length request.body) in
      after_set_options Q first [] (record { handle = []; world = w }) _ refl
        λ c₁ p₁.
          Post-bind-lift Q R (milliseconds_as_long options.connect_timeout (lit "connect timeout"))
            c₁ _ tt
            λ n e. after_set_options Q (connect_timeout_ms n ∷ []) first c₁ _ p₁ λ c₂ p₂.
              Post-bind-lift Q R (milliseconds_as_long request.timeout (lit "request timeout")) c₂ _
                tt
                λ m e'.
                  after_set_options Q (later_options options request m) (second n) c₂ _ p₂ λ c₃ p₃.
                    Post-bind-lift Q R
                      (throw_if (is_get request.method && not (is_empty request.body))
                        (configuration_error (lit "HTTP GET requests must not contain a body")))
                      c₃ _ tt
                      λ _ g.
                        Post-bind-lift Q R
                          (throw_if long
                            (configuration_error (lit "HTTP request body is too large")))
                          c₃ _ tt
                          λ _ b.
                            after_set_options Q (body_options request) (third n m) c₃ _ p₃ λ c₄ p₄.
                              Post-bind (Appended request.headers [] c₄.handle) Q R
                                (append_headers curl request.headers [] c₄)
                                (λ lines. set_options curl (header_options lines))
                                (append_headers-Post request.headers [] c₄)
                                λ lines c₅ (k, l, v).
                                  Post-weaken (λ _ c. c.handle ≡ c₅.handle ++ header_options lines)
                                    Q R R _ (set_options-Post (header_options lines) c₅)
                                    (λ _ c q. (
                                      q ∙ ap (λ h. h ++ header_options lines) (k ∙ p₄) ∙ (λ i.
                                          plan options request
                                            (milliseconds_as_long-ok options.connect_timeout _ n e
                                              i)
                                            (milliseconds_as_long-ok request.timeout _ m e' i)
                                            (l i)),
                                      v,
                                      throw_if-ok _ _ g,
                                    ))
                                    (λ _ x. x)

  -- A response comes from a request whose options are `planned`, in this order, whose headers are all
  -- valid, and which has no body where its method is GET.
  pub send-planned :
      (options : HttpTransportOptions) (request : HttpRequest) (s s' : S) (response : HttpResponse)
      → send curl options request s ≡ (ok response, s')
      → (c : Call S) × ((perform curl options c).0 ≡ ok response)
        × (c.handle ≡ planned options request)
        × All ValidHeader request.headers
        × ((is_get request.method && not (is_empty request.body)) ≡ false)
  send-planned options request s s' response h =
      let (c, q, g) = send-inversion curl options request s s' response h in
      let ready =
        subst (Post (λ _ c. Ready options request c) (λ _. Unit)) q
          (prepare-Ready options request (curl.easy_init s).1) in
      (c, g, ready.0, ready.1, ready.2)

all-append : (p : ℕ → Bool) (s t : Bytes) → all p (s ++ t) ≡ (all p s && all p t)
all-append p [] t = refl
all-append p (b ∷ s) t = elim (Bool-cases (p b)) [
  | inl e ↦ rw e (all-append p s t)
  | inr e ↦ rw e refl
]

token_is_value : (c : ℕ) → is_token_character c ≡ true → is_value_character c ≡ true
token_is_value c h = ground arith

all-token : (name : Bytes) → all is_token_character name ≡ true → all is_value_character name ≡ true
all-token [] h = refl
all-token (c ∷ name) h =
    let (t, rest) = and_true (is_token_character c) (all is_token_character name) h in
    rw (token_is_value c t, all-token name rest) refl

serialize_header-valid :
    (h : HttpHeader) → ValidHeader h → valid_header_value (serialize_header h) ≡ true
unfolding serialize_header valid_header_value valid_header_name lit
serialize_header-valid h (n, v) =
    let name : all is_value_character h.name ≡ true = elim (Bool-cases (is_empty h.name)) [
      | inl e ↦ let g = rw e at n in cc
      | inr e ↦ all-token h.name (rw e at n)
    ] in
    rw (all-append is_value_character h.name (lit ": " ++ h.value), name, v) refl

pub serialize_header-All :
    (hs : List HttpHeader)
    → All ValidHeader hs
    → All (λ line. valid_header_value line ≡ true) (map serialize_header hs)
serialize_header-All [] h = tt
serialize_header-All (h ∷ hs) (v, vs) = (serialize_header-valid h v, serialize_header-All hs vs)
