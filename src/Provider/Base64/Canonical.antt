-- ===== src/Provider/Base64/Canonical.antt =====
-- What decodes at all is the encoding of what it decodes to.
use neural_plus.Prelude.{
  ℕ, ◌+◌, ◌*◌, ◌/◌, ◌%◌, ◌≤◌, ◌<◌, Bytes, ◌≡◌, ◌≢◌, refl, sym, ap, subst, ◌∙◌, Bool, true, false,
  Bool-cases, not, ◌&&◌, ◌||◌, inl, inr, Option, none, some, List, [], ◌∷◌, ◌++◌, is_empty, length,
  ltb, ◌==◌, arith, and_true, lit,
}
use neural_plus.Provider.Base64.{
  alphabet, character_at, base64_encode, compact, decode_character, decode_padded, group_bytes,
  decode_group, join_groups, decode_groups, base64_decode,
}
use neural_plus.Provider.Base64.RoundTrip.{below, below-lt}

abbrev inverse_at : Option ℕ → ℕ → Bool
inverse_at none c = true
inverse_at (some i) c = (alphabet i == c) && ltb i 64

abbrev inverse : ℕ → Bool
inverse c = inverse_at (decode_character c) c

all_inverse : below 128 inverse ≡ true
unfolding alphabet character_at decode_character lit
all_inverse = refl

decode-big : (c : ℕ) → 128 ≤ c → decode_character c ≡ none
unfolding decode_character
decode-big c h = ground arith

decode-symbol : (c i : ℕ) → decode_character c ≡ some i → (alphabet i ≡ c) × (i < 64)
decode-symbol c i h = elim (Bool-cases (ltb c 128)) [
  | inl e ↦
      let g : inverse_at (some i) c ≡ true =
        subst (λ o. inverse_at o c ≡ true) h (below-lt 128 inverse all_inverse c (ground arith)) in
      let (p, q) = and_true (alphabet i == c) (ltb i 64) g in (ground (arith, p), ground (arith, q))
  | inr e ↦ let g = decode-big c (ground arith) in absurd (some_none (sym h ∙ g))
]
  where
    some_none : some i ≡ none → ⊥
    some_none e = cc

-- The three forms of a group.
data Decoded (a b c d : Option ℕ) (third fourth last : Bool) (bytes : List ℕ) : Type 0 where
  three :
      (f s t q : ℕ)
      → a ≡ some f
      → b ≡ some s
      → c ≡ some t
      → d ≡ some q
      → third ≡ false
      → fourth ≡ false
      → bytes ≡ (f * 4 + s / 16) % 256 ∷ (s % 16 * 16 + t / 4) % 256 ∷ (t % 4 * 64 + q) % 256 ∷ []
      → Decoded a b c d third fourth last bytes
  two :
      (f s t : ℕ)
      → a ≡ some f
      → b ≡ some s
      → c ≡ some t
      → third ≡ false
      → fourth ≡ true
      → last ≡ true
      → t % 4 ≡ 0
      → bytes ≡ (f * 4 + s / 16) % 256 ∷ (s % 16 * 16 + t / 4) % 256 ∷ []
      → Decoded a b c d third fourth last bytes
  one :
      (f s : ℕ)
      → a ≡ some f
      → b ≡ some s
      → third ≡ true
      → fourth ≡ true
      → last ≡ true
      → s % 16 ≡ 0
      → bytes ≡ (f * 4 + s / 16) % 256 ∷ []
      → Decoded a b c d third fourth last bytes

group-Decoded :
    (a b c d : Option ℕ) (third fourth last : Bool) (bytes : List ℕ)
    → group_bytes a b c d third fourth last ≡ some bytes
    → Decoded a b c d third fourth last bytes
unfolding group_bytes
group-Decoded none b c d third fourth last bytes h = cc
group-Decoded (some f) none c d third fourth last bytes h = cc
group-Decoded (some f) (some s) none d third fourth last bytes h = cc
group-Decoded (some f) (some s) (some t) none third fourth last bytes h = cc
group-Decoded (some f) (some s) (some t) (some q) false false last bytes h =
    three f s t q refl refl refl refl refl refl (ground arith)
group-Decoded (some f) (some s) (some t) (some q) false true true bytes h =
    two f s t refl refl refl refl refl refl (ground arith) (ground arith)
group-Decoded (some f) (some s) (some t) (some q) false true false bytes h = cc
group-Decoded (some f) (some s) (some t) (some q) true true true bytes h =
    one f s refl refl refl refl refl (ground arith) (ground arith)
group-Decoded (some f) (some s) (some t) (some q) true true false bytes h = cc
group-Decoded (some f) (some s) (some t) (some q) true false last bytes h = cc

equal_is : (c k : ℕ) → (c == k) ≡ true → c ≡ k
equal_is c k h = ground arith

padded-decoded :
    (c i : ℕ) → (c == b'=') ≡ false → decode_padded c ≡ some i → decode_character c ≡ some i
padded-decoded c i e h = rw e at h

quad_eq :
    {a a' b b' c c' d d' : ℕ} {es es' : Bytes}
    → a ≡ a'
    → b ≡ b'
    → c ≡ c'
    → d ≡ d'
    → es ≡ es'
    → a ∷ b ∷ c ∷ d ∷ es ≡ a' ∷ b' ∷ c' ∷ d' ∷ es'
quad_eq p q r s t = cc

encode_three :
    (f s t q : ℕ) (more : List ℕ)
    → f < 64
    → s < 64
    → t < 64
    → q < 64
    → base64_encode
        ((f * 4 + s / 16) % 256 ∷ (s % 16 * 16 + t / 4) % 256 ∷ (t % 4 * 64 + q) % 256 ∷ more)
      ≡ alphabet f ∷ alphabet s ∷ alphabet t ∷ alphabet q ∷ base64_encode more
unfolding base64_encode
encode_three f s t q more lf ls lt lq =
    quad_eq (ap alphabet (omega arith)) (ap alphabet (omega arith)) (ap alphabet (omega arith))
      (ap alphabet (omega arith)) refl

encode_two :
    (f s t : ℕ)
    → f < 64
    → s < 64
    → t < 64
    → t % 4 ≡ 0
    → base64_encode ((f * 4 + s / 16) % 256 ∷ (s % 16 * 16 + t / 4) % 256 ∷ [])
      ≡ alphabet f ∷ alphabet s ∷ alphabet t ∷ b'=' ∷ []
unfolding base64_encode
encode_two f s t lf ls lt even =
    quad_eq (ap alphabet (omega arith)) (ap alphabet (omega arith)) (ap alphabet (omega arith)) refl
      refl

encode_one :
    (f s : ℕ)
    → f < 64
    → s < 64
    → s % 16 ≡ 0
    → base64_encode ((f * 4 + s / 16) % 256 ∷ []) ≡ alphabet f ∷ alphabet s ∷ b'=' ∷ b'=' ∷ []
unfolding base64_encode
encode_one f s lf ls even =
    quad_eq (ap alphabet (omega arith)) (ap alphabet (omega arith)) refl refl refl

encode-nil : (bytes : List ℕ) → base64_encode bytes ≡ [] → bytes ≡ []
unfolding base64_encode
encode-nil [] h = refl
encode-nil (a ∷ []) h = cc
encode-nil (a ∷ b ∷ []) h = cc
encode-nil (a ∷ b ∷ c ∷ bytes) h = cc

none_left :
    (rest : Bytes) (more : List ℕ)
    → is_empty rest ≡ true
    → base64_encode more ≡ rest
    → (more ≡ []) × (rest ≡ [])
none_left [] more l e = (encode-nil more e, refl)
none_left (r ∷ rest) more l e = cc

group_encodes :
    (a b c d : ℕ) (rest : Bytes) (bytes more : List ℕ)
    → decode_group a b c d (is_empty rest) ≡ some bytes
    → base64_encode more ≡ rest
    → base64_encode (bytes ++ more) ≡ a ∷ b ∷ c ∷ d ∷ rest
unfolding decode_group
group_encodes a b c d rest bytes more h e = go (group-Decoded _ _ _ _ _ _ _ bytes h)
  where
    go :
        Decoded
          (decode_character a)
          (decode_character b)
          (decode_padded c)
          (decode_padded d)
          (c == b'=')
          (d == b'=')
          (is_empty rest)
          bytes
        → base64_encode (bytes ++ more) ≡ a ∷ b ∷ c ∷ d ∷ rest
    go (three f s t q ef es et eq nt nf g) =
        let (pf, lf) = decode-symbol a f ef in
        let (ps, ls) = decode-symbol b s es in
        let (pt, lt) = decode-symbol c t (padded-decoded c t nt et) in
        let (pq, lq) = decode-symbol d q (padded-decoded d q nf eq) in
        rw g (encode_three f s t q more lf ls lt lq ∙ quad_eq pf ps pt pq e)
    go (two f s t ef es et nt yf l z g) =
        let (pf, lf) = decode-symbol a f ef in
        let (ps, ls) = decode-symbol b s es in
        let (pt, lt) = decode-symbol c t (padded-decoded c t nt et) in
        let (m, r) = none_left rest more l e in
        rw (g, m)
          (encode_two f s t lf ls lt z ∙ quad_eq pf ps pt (sym (equal_is d b'=' yf)) (sym r))
    go (one f s ef es yt yf l z g) =
        let (pf, lf) = decode-symbol a f ef in
        let (ps, ls) = decode-symbol b s es in
        let (m, r) = none_left rest more l e in
        rw (g, m)
          (encode_one f s lf ls z
            ∙ quad_eq pf ps (sym (equal_is c b'=' yt)) (sym (equal_is d b'=' yf)) (sym r))

join-some :
    (o p : Option (List ℕ)) (bytes : List ℕ)
    → join_groups o p ≡ some bytes
    → (x y : List ℕ) × (o ≡ some x) × (p ≡ some y) × (bytes ≡ x ++ y)
join-some none p bytes h = cc
join-some (some x) none bytes h = cc
join-some (some x) (some y) bytes h = (x, y, refl, refl, ground arith)

groups_encode :
    (text : Bytes) (bytes : List ℕ) → decode_groups text ≡ some bytes → base64_encode bytes ≡ text
unfolding decode_groups
groups_encode [] bytes h = let e : bytes ≡ [] = cc in rw e (unfold base64_encode in refl)
groups_encode (a ∷ []) bytes h = cc
groups_encode (a ∷ b ∷ []) bytes h = cc
groups_encode (a ∷ b ∷ c ∷ []) bytes h = cc
groups_encode (a ∷ b ∷ c ∷ d ∷ rest) bytes h =
    let (x, y, p, q, e) =
      join-some (decode_group a b c d (is_empty rest)) (decode_groups rest) bytes h in
    rw e (group_encodes a b c d rest x y p (groups_encode rest y q))

-- A text that decodes is, without its ASCII blanks, the encoding of the bytes that it decodes to, and
-- has a character besides blanks.
pub decoded_is_canonical :
    (text : Bytes) (bytes : List ℕ)
    → base64_decode text ≡ some bytes
    → (base64_encode bytes ≡ compact text) × (compact text ≢ [])
unfolding base64_decode
decoded_is_canonical text bytes h =
    elim (Bool-cases (is_empty (compact text) || not (length (compact text) % 4 == 0))) [
      | inl e ↦ absurd (no_text (rw (e, base64_decode) at h))
      | inr e ↦ (groups_encode (compact text) bytes (rw (e, base64_decode) at h), λ z. ground arith)
    ]
  where
    no_text : none ≡ some bytes → ⊥
    no_text g = cc
