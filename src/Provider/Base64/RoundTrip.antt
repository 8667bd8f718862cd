-- ===== src/Provider/Base64/RoundTrip.antt =====
-- Decoding gives back what was encoded.
use neural_plus.Prelude.{
  ℕ, zero, suc, ◌+◌, ◌*◌, ◌/◌, ◌%◌, ◌<◌, Bytes, ◌≡◌, ◌≢◌, refl, ap, ◌∙◌, Bool, true, false,
  Bool-cases, not, ◌&&◌, inl, inr, Option, none, some, List, [], ◌∷◌, is_empty, length, All, ◌==◌,
  arith, and_true, lit,
}
use neural_plus.Provider.Base64.{
  alphabet, character_at, base64_encode, ascii_whitespace, compact, decode_character, decode_padded,
  group_bytes, decode_group, join_groups, decode_groups, base64_decode,
}

abbrev pub below : ℕ → (ℕ → Bool) → Bool
below zero p = true
below (suc n) p = p n && below n p

pub below-lt : (n : ℕ) (p : ℕ → Bool) → below n p ≡ true → (i : ℕ) → i < n → p i ≡ true
below-lt zero p h i l = absurd (omega (arith, l))
below-lt (suc n) p h i l =
    let (here, later) = and_true (p n) (below n p) h in
    elim (Bool-cases (i == n)) [
      | inl e ↦ ground arith
      | inr e ↦ below-lt n p later i (ground arith)
    ]

abbrev equals : Option ℕ → ℕ → Bool
equals none i = false
equals (some j) i = j == i

-- What one symbol is: no blank, no padding, and the character of its index.
abbrev good : ℕ → Bool
good i =
    equals (decode_character (alphabet i)) i
    && not (alphabet i == b'=')
    && not (ascii_whitespace (alphabet i))

all_good : below 64 good ≡ true
unfolding alphabet character_at decode_character ascii_whitespace lit
all_good = refl

equals-eq : (o : Option ℕ) (i : ℕ) → equals o i ≡ true → o ≡ some i
equals-eq none i h = cc
equals-eq (some j) i h = ground arith

record IsSymbol (i : ℕ) : Type 0 where
  decoded : decode_character (alphabet i) ≡ some i
  unpadded : (alphabet i == b'=') ≡ false
  visible : ascii_whitespace (alphabet i) ≡ false

alphabet-IsSymbol : (i : ℕ) → i < 64 → IsSymbol i
alphabet-IsSymbol i l =
    let (q, s) = and_true _ _ (below-lt 64 good all_good i l) in
    let (p, r) = and_true _ _ q in
    record { decoded = equals-eq _ i p; unpadded = ground (arith, r); visible = ground (arith, s) }

padded-symbol : (i : ℕ) → i < 64 → decode_padded (alphabet i) ≡ some i
padded-symbol i l = let h = alphabet-IsSymbol i l in rw (h.unpadded, decode_padded) h.decoded

full_group :
    (f s t q : ℕ) (last : Bool)
    → f < 64
    → s < 64
    → t < 64
    → q < 64
    → decode_group (alphabet f) (alphabet s) (alphabet t) (alphabet q) last
      ≡ some ((f * 4 + s / 16) % 256 ∷ (s % 16 * 16 + t / 4) % 256 ∷ (t % 4 * 64 + q) % 256 ∷ [])
unfolding decode_group group_bytes
full_group f s t q last lf ls lt lq =
    rw ((alphabet-IsSymbol f lf).decoded, decode_group)
      (rw ((alphabet-IsSymbol s ls).decoded, decode_group)
        (rw (padded-symbol t lt, decode_group)
          (rw (padded-symbol q lq, decode_group)
            (rw ((alphabet-IsSymbol t lt).unpadded, decode_group)
              (rw ((alphabet-IsSymbol q lq).unpadded, decode_group) refl)))))

two_bytes :
    (f s t : ℕ)
    → f < 64
    → s < 64
    → t < 64
    → t % 4 ≡ 0
    → decode_group (alphabet f) (alphabet s) (alphabet t) b'=' true
      ≡ some ((f * 4 + s / 16) % 256 ∷ (s % 16 * 16 + t / 4) % 256 ∷ [])
unfolding decode_group group_bytes
two_bytes f s t lf ls lt even =
    rw ((alphabet-IsSymbol f lf).decoded, decode_group)
      (rw ((alphabet-IsSymbol s ls).decoded, decode_group)
        (rw (padded-symbol t lt, decode_group)
          (rw ((alphabet-IsSymbol t lt).unpadded, decode_group) (rw (even, decode_group) refl))))

one_byte :
    (f s : ℕ)
    → f < 64
    → s < 64
    → s % 16 ≡ 0
    → decode_group (alphabet f) (alphabet s) b'=' b'=' true ≡ some ((f * 4 + s / 16) % 256 ∷ [])
unfolding decode_group group_bytes
one_byte f s lf ls even =
    rw ((alphabet-IsSymbol f lf).decoded, decode_group)
      (rw ((alphabet-IsSymbol s ls).decoded, decode_group) (rw (even, decode_group) refl))

pub bytes_eq :
    {a a' b b' : ℕ} {cs cs' : List ℕ}
    → a ≡ a'
    → b ≡ b'
    → cs ≡ cs'
    → some (a ∷ b ∷ cs) ≡ some (a' ∷ b' ∷ cs')
bytes_eq p q r = cc

abbrev pub IsByte : ℕ → Type 0
IsByte b = b < 256

groups_round_trip :
    (bytes : List ℕ) → All IsByte bytes → decode_groups (base64_encode bytes) ≡ some bytes
unfolding decode_groups base64_encode
groups_round_trip [] h = refl
groups_round_trip (a ∷ []) (la, h) =
    let v = a * 65536 in
    rw
      (
        one_byte (v / 262144 % 64) (v / 4096 % 64) (omega arith) (omega arith) (omega arith),
        join_groups,
      )
      (ap (λ x. some (x ∷ [])) (omega (arith, la)))
groups_round_trip (a ∷ b ∷ []) (la, (lb, h)) =
    let v = a * 65536 + b * 256 in
    rw
      (
        two_bytes (v / 262144 % 64) (v / 4096 % 64) (v / 64 % 64) (omega arith) (omega arith)
            (omega arith) (omega arith),
        join_groups,
      )
      (bytes_eq (omega (arith, la, lb)) (omega (arith, la, lb)) refl)
groups_round_trip (a ∷ b ∷ c ∷ bytes) (la, (lb, (lc, h))) =
    let v = a * 65536 + b * 256 + c in
    rw (groups_round_trip bytes h, join_groups)
      (rw
        (
          full_group (v / 262144 % 64) (v / 4096 % 64) (v / 64 % 64) (v % 64)
              (is_empty (base64_encode bytes)) (omega arith) (omega arith) (omega arith)
              (omega arith),
          join_groups,
        )
        (bytes_eq (omega (arith, la, lb, lc)) (omega (arith, la, lb, lc))
          (ap (λ x. x ∷ bytes) (omega (arith, la, lb, lc)))))

visible-symbol : (i : ℕ) (cs : Bytes) → i < 64 → compact (alphabet i ∷ cs) ≡ alphabet i ∷ compact cs
unfolding compact
visible-symbol i cs l = rw ((alphabet-IsSymbol i l).visible, compact) refl

visible_padding :
    (compact (b'=' ∷ []) ≡ b'=' ∷ []) × (compact (b'=' ∷ b'=' ∷ []) ≡ b'=' ∷ b'=' ∷ [])
unfolding compact ascii_whitespace
visible_padding = (refl, refl)

visible_pair :
    (f g : ℕ) (cs rest : Bytes)
    → f < 64
    → g < 64
    → compact cs ≡ rest
    → compact (alphabet f ∷ alphabet g ∷ cs) ≡ alphabet f ∷ alphabet g ∷ rest
visible_pair f g cs rest lf lg e =
    visible-symbol f (alphabet g ∷ cs) lf
    ∙ ap (λ t. alphabet f ∷ t) (visible-symbol g cs lg ∙ ap (λ t. alphabet g ∷ t) e)

compact-encode : (bytes : List ℕ) → compact (base64_encode bytes) ≡ base64_encode bytes
unfolding base64_encode
compact-encode [] = unfold compact in refl
compact-encode (a ∷ []) =
    let v = a * 65536 in
    visible_pair (v / 262144 % 64) (v / 4096 % 64) _ _ (omega arith) (omega arith) visible_padding.1
compact-encode (a ∷ b ∷ []) =
    let v = a * 65536 + b * 256 in
    visible_pair (v / 262144 % 64) (v / 4096 % 64) _ _ (omega arith) (omega arith) (
      visible-symbol (v / 64 % 64) _ (omega arith)
      ∙ ap (λ t. alphabet (v / 64 % 64) ∷ t) visible_padding.0)
compact-encode (a ∷ b ∷ c ∷ bytes) =
    let v = a * 65536 + b * 256 + c in
    visible_pair (v / 262144 % 64) (v / 4096 % 64) _ _ (omega arith) (omega arith)
      (visible_pair (v / 64 % 64) (v % 64) _ _ (omega arith) (omega arith) (compact-encode bytes))

length-encode : (bytes : List ℕ) → length (base64_encode bytes) % 4 ≡ 0
unfolding base64_encode
length-encode [] = refl
length-encode (a ∷ []) = refl
length-encode (a ∷ b ∷ []) = refl
length-encode (a ∷ b ∷ c ∷ bytes) = omega (arith, length-encode bytes)

encode-empty : (bytes : List ℕ) → bytes ≢ [] → is_empty (base64_encode bytes) ≡ false
unfolding base64_encode
encode-empty [] h = absurd (h refl)
encode-empty (a ∷ []) h = refl
encode-empty (a ∷ b ∷ []) h = refl
encode-empty (a ∷ b ∷ c ∷ bytes) h = refl

decode-compact :
    (bytes : List ℕ) (text : Bytes)
    → All IsByte bytes
    → bytes ≢ []
    → compact text ≡ base64_encode bytes
    → base64_decode text ≡ some bytes
unfolding base64_decode
decode-compact bytes text all_bytes some_byte e =
    rw (e, base64_decode)
      (rw (encode-empty bytes some_byte, base64_decode)
        (rw (length-encode bytes, base64_decode) (groups_round_trip bytes all_bytes)))

-- Decoding the encoding of one or more bytes gives them back, and so does decoding any text that has
-- that encoding with ASCII blanks between its characters.
pub base64_round_trip :
    (bytes : List ℕ) (text : Bytes)
    → All IsByte bytes
    → bytes ≢ []
    → compact text ≡ base64_encode bytes
    → (base64_decode (base64_encode bytes) ≡ some bytes) × (base64_decode text ≡ some bytes)
base64_round_trip bytes text all_bytes some_byte e = (
  decode-compact bytes (base64_encode bytes) all_bytes some_byte (compact-encode bytes),
  decode-compact bytes text all_bytes some_byte e,
)
