-- ===== src/Provider/Redact/Collect.antt =====
-- Which values are collected as secrets.
use neural_plus.Prelude.{
  Bytes, lit, same, same→eq, same_self, ◌⊎◌, ◌++◌, map, reverse, arith, starts_with, includes,
  ends_with, ◌≡◌, refl, sym, subst, Bool, true, false, Bool-cases, not, ◌&&◌, ◌||◌, inl, inr, List,
  [], ◌∷◌, any, is_empty,
}
use mathlib.Core.List.{Memᴰ, reverse-append}
use mathlib.Core.List.Memᴰ
use neural_plus.Transport.{HttpHeader, ascii_lower}
use neural_plus.Provider.Redact.{
  SensitiveValues, append_unique_secret, sensitive_header_name, authorization_header_name, token_of,
  collect_header, append_unique_secrets, collect_headers, collect_sensitive_values,
}

any-same :
    (value : Bytes) (values : List Bytes)
    → any (λ v. same v value) values ≡ true
    → Memᴰ value values
any-same value [] h = cc
any-same value (v ∷ values) h = elim (Bool-cases (same v value)) [
  | inl e ↦ Memᴰ.head (sym (same→eq v value e))
  | inr e ↦ Memᴰ.tail (any-same value values (rw e at h))
]

append_unique_secret-keeps :
    (values : SensitiveValues) (value x : Bytes)
    → Memᴰ x values
    → Memᴰ x (append_unique_secret values value)
unfolding append_unique_secret
append_unique_secret-keeps values value x m = elim (Bool-cases (is_empty value)) [
  | inl e ↦ rw e m
  | inr e ↦ elim (Bool-cases (any (λ v. same v value) values)) [
    | inl f ↦ rw (e, f) m
    | inr f ↦ rw (e, f) (Memᴰ.append_left (value ∷ []) m)
  ]
]

append_unique_secret-adds :
    (values : SensitiveValues) (value : Bytes)
    → is_empty value ≡ false
    → Memᴰ value (append_unique_secret values value)
unfolding append_unique_secret
append_unique_secret-adds values value e = elim (Bool-cases (any (λ v. same v value) values)) [
  | inl f ↦ rw (e, f) (any-same value values f)
  | inr f ↦ rw (e, f) (Memᴰ.append_right values (Memᴰ.head refl))
]

append_unique_secrets-keeps :
    (secrets : List Bytes) (values : SensitiveValues) (x : Bytes)
    → Memᴰ x values
    → Memᴰ x (append_unique_secrets values secrets)
append_unique_secrets-keeps [] values x m = m
append_unique_secrets-keeps (s ∷ ss) values x m =
    append_unique_secrets-keeps ss (append_unique_secret values s) x
      (append_unique_secret-keeps values s x m)

append_unique_secrets-adds :
    (secrets : List Bytes) (values : SensitiveValues) (x : Bytes)
    → is_empty x ≡ false
    → Memᴰ x secrets
    → Memᴰ x (append_unique_secrets values secrets)
append_unique_secrets-adds [] values x e m = absurd (Memᴰ.not-nil m)
append_unique_secrets-adds (s ∷ ss) values x e (Memᴰ.head q) =
    append_unique_secrets-keeps ss (append_unique_secret values s) x
      (subst (λ t. Memᴰ x (append_unique_secret values t)) q (append_unique_secret-adds values x e))
append_unique_secrets-adds (s ∷ ss) values x e (Memᴰ.tail m) =
    append_unique_secrets-adds ss (append_unique_secret values s) x e m

abbrev is_secret : HttpHeader → Bool
is_secret header = header.sensitive || sensitive_header_name header.name

collect_header-keeps :
    (values : SensitiveValues) (h : HttpHeader) (x : Bytes)
    → Memᴰ x values
    → Memᴰ x (collect_header values h)
unfolding collect_header
collect_header-keeps values h x m =
    elim (Bool-cases (not h.sensitive && not (sensitive_header_name h.name))) [
      | inl e ↦ rw e m
      | inr e ↦
          let k = append_unique_secret-keeps values h.value x m in
          elim (Bool-cases (authorization_header_name h.name)) [
            | inl f ↦
                rw (e, f)
                  (append_unique_secret-keeps (append_unique_secret values h.value)
                    (token_of h.value) x k)
            | inr f ↦ rw (e, f) k
          ]
    ]

not_both : (a b : Bool) → (a || b) ≡ true → (not a && not b) ≡ false
not_both true b h = refl
not_both false true h = refl
not_both false false h = cc

collect_header-adds :
    (values : SensitiveValues) (h : HttpHeader)
    → is_secret h ≡ true
    → is_empty h.value ≡ false
    → Memᴰ h.value (collect_header values h)
unfolding collect_header
collect_header-adds values h s n =
    let e = not_both h.sensitive (sensitive_header_name h.name) s in
    let k = append_unique_secret-adds values h.value n in
    elim (Bool-cases (authorization_header_name h.name)) [
      | inl f ↦
          rw (e, f)
            (append_unique_secret-keeps (append_unique_secret values h.value) (token_of h.value)
              h.value k)
      | inr f ↦ rw (e, f) k
    ]

collect_headers-keeps :
    (hs : List HttpHeader) (values : SensitiveValues) (x : Bytes)
    → Memᴰ x values
    → Memᴰ x (collect_headers values hs)
collect_headers-keeps [] values x m = m
collect_headers-keeps (h ∷ hs) values x m =
    collect_headers-keeps hs (collect_header values h) x (collect_header-keeps values h x m)

collect_headers-adds :
    (hs : List HttpHeader) (values : SensitiveValues) (h : HttpHeader)
    → Memᴰ h hs
    → is_secret h ≡ true
    → is_empty h.value ≡ false
    → Memᴰ h.value (collect_headers values hs)
collect_headers-adds [] values h m s n = absurd (Memᴰ.not-nil m)
collect_headers-adds (g ∷ hs) values h (Memᴰ.head q) s n =
    collect_headers-keeps hs (collect_header values g) h.value
      (subst (λ t. Memᴰ h.value (collect_header values t)) q (collect_header-adds values h s n))
collect_headers-adds (g ∷ hs) values h (Memᴰ.tail m) s n =
    collect_headers-adds hs (collect_header values g) h m s n

pub collect_sensitive_values-configured :
    (headers : List HttpHeader) (secrets : List Bytes) (x : Bytes)
    → is_empty x ≡ false
    → Memᴰ x secrets
    → Memᴰ x (collect_sensitive_values headers secrets)
unfolding collect_sensitive_values
collect_sensitive_values-configured headers secrets x e m =
    collect_headers-keeps headers (append_unique_secrets [] secrets) x
      (append_unique_secrets-adds secrets [] x e m)

-- The name of a credential, in small letters: it has one of the markers in it, or ends in "-token", or is
-- "cookie".
abbrev pub markers : List Bytes
markers = lit "authorization" ∷ lit "api-key" ∷ lit "apikey" ∷ lit "secret" ∷ lit "credential" ∷ []

pub data CredentialName (name : Bytes) : Type 0 where
  has_marker :
      (before marker after : Bytes)
      → Memᴰ marker markers
      → map ascii_lower name ≡ before ++ (marker ++ after)
      → CredentialName name
  ends_in_token :
      (before : Bytes) → map ascii_lower name ≡ before ++ lit "-token" → CredentialName name
  is_cookie : map ascii_lower name ≡ lit "cookie" → CredentialName name

starts_with-append : (part after : Bytes) → starts_with part (part ++ after) ≡ true
unfolding starts_with
starts_with-append [] after = refl
starts_with-append (b ∷ part) after = ground (arith, starts_with-append part after)

includes-append : (before part after : Bytes) → includes part (before ++ (part ++ after)) ≡ true
unfolding includes starts_with
includes-append [] [] [] = refl
includes-append [] [] (a ∷ after) = refl
includes-append [] (b ∷ part) after = ground (arith, starts_with-append (b ∷ part) after)
includes-append (b ∷ before) part after = ground (arith, includes-append before part after)

ends_with-append : (before end : Bytes) → ends_with end (before ++ end) ≡ true
unfolding ends_with
ends_with-append before end =
    rw (reverse-append before end) (starts_with-append (reverse end) (reverse before))

sensitive_header_name-CredentialName :
    (name : Bytes) → CredentialName name → sensitive_header_name name ≡ true
unfolding sensitive_header_name
sensitive_header_name-CredentialName name (has_marker before marker after m e) =
    let found : includes marker (map ascii_lower name) ≡ true =
      rw e (includes-append before marker after) in
    by_marker marker m found
  where
    by_marker :
        (marker : Bytes)
        → Memᴰ marker markers
        → includes marker (map ascii_lower name) ≡ true
        → sensitive_header_name name ≡ true
    by_marker marker (Memᴰ.head q) h =
        let g : includes (lit "authorization") (map ascii_lower name) ≡ true = rw q at h in
        ground arith
    by_marker marker (Memᴰ.tail (Memᴰ.head q)) h =
        let g : includes (lit "api-key") (map ascii_lower name) ≡ true = rw q at h in ground arith
    by_marker marker (Memᴰ.tail (Memᴰ.tail (Memᴰ.head q))) h =
        let g : includes (lit "apikey") (map ascii_lower name) ≡ true = rw q at h in ground arith
    by_marker marker (Memᴰ.tail (Memᴰ.tail (Memᴰ.tail (Memᴰ.head q)))) h =
        let g : includes (lit "secret") (map ascii_lower name) ≡ true = rw q at h in ground arith
    by_marker marker (Memᴰ.tail (Memᴰ.tail (Memᴰ.tail (Memᴰ.tail (Memᴰ.head q))))) h =
        let g : includes (lit "credential") (map ascii_lower name) ≡ true = rw q at h in
        ground arith
    by_marker marker (Memᴰ.tail (Memᴰ.tail (Memᴰ.tail (Memᴰ.tail (Memᴰ.tail m))))) h =
        absurd (Memᴰ.not-nil m)
sensitive_header_name-CredentialName name (ends_in_token before e) =
    let g : ends_with (lit "-token") (map ascii_lower name) ≡ true =
      rw e (ends_with-append before (lit "-token")) in
    ground arith
sensitive_header_name-CredentialName name (is_cookie e) =
    let g : same (map ascii_lower name) (lit "cookie") ≡ true = rw e (same_self (lit "cookie")) in
    ground arith

-- Of the headers of a request, the value of each one that is marked as sensitive or has the name of a
-- credential is collected as a secret, unless it is empty. In whatever case its letters are, a name of a
-- credential is one that has "authorization", "api-key", "apikey", "secret" or "credential" in
-- it, one that ends in "-token", or "cookie".
pub collect_sensitive_values-header :
    (headers : List HttpHeader) (secrets : List Bytes) (h : HttpHeader)
    → Memᴰ h headers
    → (h.sensitive ≡ true) ⊎ CredentialName h.name
    → is_empty h.value ≡ false
    → Memᴰ h.value (collect_sensitive_values headers secrets)
unfolding collect_sensitive_values
collect_sensitive_values-header headers secrets h m s n =
    let secret : is_secret h ≡ true = elim s [
      | inl marked ↦ ground arith
      | inr named ↦ let e = sensitive_header_name-CredentialName h.name named in ground arith
    ] in
    collect_headers-adds headers (append_unique_secrets [] secrets) h m secret n
