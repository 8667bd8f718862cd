-- ===== src/Provider/Base64.antt =====
-- `base64_encode` and `base64_decode` of src/provider_common.cpp. A byte is a number below 256; `|` of
-- parts that share no bit is a sum, and shifts and masks are divisions and remainders.
pub mod RoundTrip
pub mod Canonical
use neural_plus.Prelude.{
  ℕ, zero, suc, ◌+◌, ◌*◌, ◌-◌, ◌/◌, ◌%◌, Bytes, lit, Bool, true, false, not, ◌&&◌, ◌||◌, Option,
  none, some, List, [], ◌∷◌, ◌++◌, is_empty, length, leb, ◌==◌, if◌then◌else◌,
}

abbrev pub alphabet_text : Bytes
alphabet_text = lit "ABCDEFGHIJKLMNOPQRSTUVWXYZabcdefghijklmnopqrstuvwxyz0123456789+/"

unfoldable pub character_at : ℕ → Bytes → ℕ
character_at i [] = 0
character_at zero (c ∷ cs) = c
character_at (suc i) (c ∷ cs) = character_at i cs

-- `alphabet[i]`; every index is masked to six bits.
unfoldable pub alphabet : ℕ → ℕ
unfolding character_at lit
alphabet i = character_at i alphabet_text

-- The loop takes three bytes a round; one or two may remain.
unfoldable pub base64_encode : List ℕ → Bytes
base64_encode [] = []
base64_encode (a ∷ []) =
    let value = a * 65536 in
    alphabet (value / 262144 % 64) ∷ alphabet (value / 4096 % 64) ∷ b'=' ∷ b'=' ∷ []
base64_encode (a ∷ b ∷ []) =
    let value = a * 65536 + b * 256 in
    alphabet (value / 262144 % 64)
    ∷ alphabet (value / 4096 % 64)
    ∷ alphabet (value / 64 % 64)
    ∷ b'='
    ∷ []
base64_encode (a ∷ b ∷ c ∷ bytes) =
    let value = a * 65536 + b * 256 + c in
    alphabet (value / 262144 % 64)
    ∷ alphabet (value / 4096 % 64)
    ∷ alphabet (value / 64 % 64)
    ∷ alphabet (value % 64)
    ∷ base64_encode bytes

-- Space, tab, carriage return, line feed, form feed and vertical tab.
unfoldable pub ascii_whitespace : ℕ → Bool
ascii_whitespace c = c == 32 || c == 9 || c == 13 || c == 10 || c == 12 || c == 11

unfoldable pub compact : Bytes → Bytes
unfolding ascii_whitespace
compact [] = []
compact (c ∷ cs) = let rest = compact cs in if ascii_whitespace c then rest else c ∷ rest

-- `none` stands for -1.
unfoldable pub decode_character : ℕ → Option ℕ
decode_character c =
    if leb b'A' c && leb c b'Z'
    then some (c - b'A')
    else if leb b'a' c && leb c b'z'
    then some (c - b'a' + 26)
    else if leb b'0' c && leb c b'9'
    then some (c - b'0' + 52)
    else if c == b'+'
    then some 62
    else if c == b'/'
    then some 63
    else none

-- A padding character counts as 0.
abbrev pub decode_padded : ℕ → Option ℕ
decode_padded c = if c == b'=' then some 0 else decode_character c

-- The tests on one group, and the bytes that it adds.
unfoldable pub group_bytes :
    Option ℕ
    → Option ℕ
    → Option ℕ
    → Option ℕ
    → (third_padding fourth_padding last_group : Bool) → Option (List ℕ)
group_bytes (some first) (some second) (some third) (some fourth) third_padding fourth_padding
      last_group =
    if third_padding && not fourth_padding
      || (third_padding || fourth_padding) && not last_group
      || third_padding && not (second % 16 == 0)
      || fourth_padding && not third_padding && not (third % 4 == 0)
    then none
    else some (
        (first * 4 + second / 16) % 256
          ∷ (if third_padding then [] else (second % 16 * 16 + third / 4) % 256 ∷ [])
        ++ (if fourth_padding then [] else (third % 4 * 64 + fourth) % 256 ∷ []))
group_bytes _ _ _ _ third_padding fourth_padding last_group = none

unfoldable pub decode_group : ℕ → ℕ → ℕ → ℕ → Bool → Option (List ℕ)
unfolding group_bytes
decode_group a b c d last_group =
    group_bytes (decode_character a) (decode_character b) (decode_padded c) (decode_padded d)
      (c == b'=') (d == b'=') last_group

abbrev pub join_groups : Option (List ℕ) → Option (List ℕ) → Option (List ℕ)
join_groups (some bytes) (some more) = some (bytes ++ more)
join_groups (some bytes) none = none
join_groups none more = none

-- The loop over the groups of four; the length is a multiple of four.
unfoldable pub decode_groups : Bytes → Option (List ℕ)
unfolding decode_group
decode_groups [] = some []
decode_groups (a ∷ b ∷ c ∷ d ∷ rest) =
    join_groups (decode_group a b c d (is_empty rest)) (decode_groups rest)
decode_groups _ = none

unfoldable pub base64_decode : Bytes → Option (List ℕ)
unfolding compact decode_groups
base64_decode encoded =
    let compacted = compact encoded in
    if is_empty compacted || not (length compacted % 4 == 0) then none else decode_groups compacted
