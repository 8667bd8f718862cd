-- ===== src/Tests/Base64.antt =====
-- Runs of the base64 functions of src/provider_common.cpp.
use neural_plus.Prelude.{ℕ, Bytes, lit, ◌≡◌, ◌≢◌, refl, All, List, [], ◌∷◌, some, arith}
use neural_plus.Provider.Base64.{
  alphabet, character_at, base64_encode, base64_decode, compact, ascii_whitespace, decode_character,
  decode_groups, decode_group, group_bytes,
}
use neural_plus.Provider.Base64.RoundTrip.{IsByte, base64_round_trip}
use neural_plus.Provider.Base64.Canonical.{decoded_is_canonical}

-- "hello", and its encoding over two lines.
abbrev hello : List ℕ
hello = 104 ∷ 101 ∷ 108 ∷ 108 ∷ 111 ∷ []

abbrev two_lines : Bytes
two_lines = 97 ∷ 71 ∷ 86 ∷ 115 ∷ 10 ∷ 98 ∷ 71 ∷ 56 ∷ 61 ∷ []

hello_bytes : All IsByte hello
hello_bytes = (omega arith, (omega arith, (omega arith, (omega arith, (omega arith, tt)))))

hello_not_empty : hello ≢ []
hello_not_empty e = cc

compacts : compact two_lines ≡ base64_encode hello
unfolding compact ascii_whitespace base64_encode alphabet character_at lit
compacts = refl

decodes : base64_decode two_lines ≡ some hello
unfolding base64_decode compact ascii_whitespace decode_groups decode_group group_bytes
    decode_character
decodes = refl

base64_round_trip_example :
    (base64_decode (base64_encode hello) ≡ some hello) × (base64_decode two_lines ≡ some hello)
base64_round_trip_example = base64_round_trip hello two_lines hello_bytes hello_not_empty compacts

decoded_is_canonical_example : (base64_encode hello ≡ compact two_lines) × (compact two_lines ≢ [])
decoded_is_canonical_example = decoded_is_canonical two_lines hello decodes
