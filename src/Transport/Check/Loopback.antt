-- ===== src/Transport/Check/Loopback.antt =====
-- The addresses for which the proxy is switched off are of the local machine.
use neural_plus.Prelude.{
  ℕ, Bytes, lit, same, same→eq, ◌≡◌, refl, sym, ap, ◌∙◌, subst, Bool, true, false, Bool-cases, not,
  ◌||◌, inl, inr, ◌⊎◌, Option, none, some, [], ◌∷◌, ◌++◌, take, drop, take-append-drop, any,
  is_empty, length, ltb, ◌==◌, arith, split_at, take_until,
}
use neural_plus.Transport.{ascii_iequals}
use neural_plus.Transport.Check.{
  http_prefix, ends_authority, host_of, is_loopback_host, is_loopback_authority,
  is_loopback_http_url,
}

-- Nothing, or a text that begins with a byte of `p`.
abbrev pub StartsIn : (ℕ → Bool) → Bytes → Type 0
StartsIn p [] = Unit
StartsIn p (b ∷ text) = p b ≡ true

abbrev pub LocalHost : Bytes → Type 0
LocalHost host =
    (ascii_iequals host (lit "localhost") ≡ true) ⊎ ((host ≡ lit "127.0.0.1") ⊎ (host ≡ lit "::1"))

-- A local host, in brackets with any text after them, or before a port.
pub data LocalAuthority : Bytes → Type 0 where
  in_brackets :
      (host after : Bytes) → LocalHost host → LocalAuthority (b'[' ∷ (host ++ b']' ∷ after))
  plain :
      (host port : Bytes)
      → LocalHost host
      → StartsIn (λ b. b == b':') port
      → LocalAuthority (host ++ port)

take_until-rest :
    (p : ℕ → Bool) (text : Bytes)
    → (rest : Bytes) × (text ≡ take_until p text ++ rest) × StartsIn p rest
unfolding take_until
take_until-rest p [] = ([], refl, tt)
take_until-rest p (b ∷ text) = elim (Bool-cases (p b)) [
  | inl e ↦ rw (e, take_until) (b ∷ text, refl, e)
  | inr e ↦
      let (rest, q, r) = take_until-rest p text in rw (e, take_until) (rest, ap (λ t. b ∷ t) q, r)
]

-- What a split says of the text.
abbrev Splits : ℕ → Bytes → Option (Bytes × Bytes) → Type 0
Splits c text none = Unit
Splits c text (some (before, after)) = text ≡ before ++ c ∷ after

split_at-Splits : (c : ℕ) (text : Bytes) → Splits c text (split_at c text)
unfolding split_at
split_at-Splits c [] = tt
split_at-Splits c (b ∷ text) = elim (Bool-cases (b == c)) [
  | inl e ↦ let q : b ≡ c = ground arith in rw (e, split_at) (ap (λ x. x ∷ text) q)
  | inr e ↦ rw (e, split_at) (later (split_at c text) (split_at-Splits c text))
]
  where
    later :
        (o : Option (Bytes × Bytes))
        → Splits c text o
        → Splits c (b ∷ text) (elim o [ none ↦ none | some (x, y) ↦ some (b ∷ x, y) ])
    later none h = tt
    later (some (x, y)) h = ap (λ t. b ∷ t) h

is_loopback_host-LocalHost : (host : Bytes) → is_loopback_host (some host) ≡ true → LocalHost host
unfolding is_loopback_host
is_loopback_host-LocalHost host h = elim (Bool-cases (ascii_iequals host (lit "localhost"))) [
  | inl e ↦ inl e
  | inr e ↦ elim (Bool-cases (same host (lit "127.0.0.1"))) [
    | inl f ↦ inr (inl (same→eq host (lit "127.0.0.1") f))
    | inr f ↦ inr (inr (same→eq host (lit "::1") (rw (e, f) at h)))
  ]
]

-- The host between brackets; `is_loopback_host none` is false.
bracketed-LocalAuthority :
    (rest : Bytes) (o : Option (Bytes × Bytes))
    → Splits b']' rest o
    → is_loopback_host (elim o [ none ↦ none | some (host, after) ↦ some host ]) ≡ true
    → LocalAuthority (b'[' ∷ rest)
unfolding is_loopback_host
bracketed-LocalAuthority rest none s h = cc
bracketed-LocalAuthority rest (some (host, after)) s h =
    rw s (in_brackets host after (is_loopback_host-LocalHost host h))

host_of-LocalAuthority :
    (authority : Bytes) → is_loopback_host (host_of authority) ≡ true → LocalAuthority authority
unfolding host_of
host_of-LocalAuthority [] h = plain [] [] (is_loopback_host-LocalHost [] h) tt
host_of-LocalAuthority (c ∷ rest) h = elim (Bool-cases (c == b'[')) [
  | inl e ↦
      let q : c ≡ b'[' = ground arith in
      rw q (
        bracketed-LocalAuthority rest (split_at b']' rest) (split_at-Splits b']' rest)
          (rw (e, host_of) at h))
  | inr e ↦
      let (port, q, s) = take_until-rest (λ b. b == b':') (c ∷ rest) in
      let host = take_until (λ b. b == b':') (c ∷ rest) in
      subst LocalAuthority (sym q)
        (plain host port (is_loopback_host-LocalHost host (rw (e, host_of) at h)) s)
]

or_false : (a b : Bool) → (a || b) ≡ false → b ≡ false
or_false true b h = cc
or_false false b h = h

and_not : (a b : Bool) → (a || not b) ≡ false → b ≡ true
and_not true b h = cc
and_not false true h = refl
and_not false false h = cc

is_loopback_authority-LocalAuthority :
    (authority : Bytes)
    → is_loopback_authority authority ≡ true
    → (any (λ c. c == b'@') authority ≡ false) × LocalAuthority authority
unfolding is_loopback_authority
is_loopback_authority-LocalAuthority authority h =
    elim (Bool-cases (is_empty authority || any (λ c. c == b'@') authority)) [
      | inl e ↦ let g = rw e at h in cc
      | inr e ↦ (or_false _ _ e, host_of-LocalAuthority authority (rw e at h))
    ]

-- A URL for which the proxy is switched off is the scheme `http://` in any case, an authority without
-- `@`, and then nothing, or a text that begins with `/`, `?` or `#`. The authority is a host, which is
-- `localhost` in any case, `127.0.0.1` or `::1`, and either stands before nothing or a text that begins
-- with `:`, or stands in brackets. After the brackets the authority may go on with any text, another
-- host's name included, as in `http://[::1]example.com/v1`.
pub is_loopback_http_url-LocalAuthority :
    (url : Bytes)
    → is_loopback_http_url url ≡ true
    → (scheme authority rest : Bytes) × (url ≡ scheme ++ (authority ++ rest))
      × (ascii_iequals scheme http_prefix ≡ true)
      × (any (λ c. c == b'@') authority ≡ false)
      × LocalAuthority authority
      × StartsIn ends_authority rest
unfolding is_loopback_http_url
is_loopback_http_url-LocalAuthority url h =
    elim (Bool-cases (ltb (length url) 7 || not (ascii_iequals (take 7 url) http_prefix))) [
      | inl e ↦ let g = rw e at h in cc
      | inr e ↦
          let (rest, q, s) = take_until-rest ends_authority (drop 7 url) in
          let (a, l) =
            is_loopback_authority-LocalAuthority (take_until ends_authority (drop 7 url))
              (rw e at h) in
          (
            take 7 url,
            take_until ends_authority (drop 7 url),
            rest,
            sym (take-append-drop 7 url) ∙ ap (λ t. take 7 url ++ t) q,
            and_not _ _ e,
            a,
            l,
            s,
          )
    ]
