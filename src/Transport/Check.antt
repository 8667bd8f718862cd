-- ===== src/Transport/Check.antt =====
-- The checks of src/transport.cpp on texts: header names and values, durations, and addresses of the
-- local machine.
pub mod Loopback
use neural_plus.Prelude.{
  ℕ, ◌-◌, ◌^◌, ℤ, pos, negsuc, Bytes, lit, same, Bool, true, false, not, ◌&&◌, ◌||◌, Option, none,
  some, List, [], ◌∷◌, ◌++◌, reverse, all, any, take, drop, is_empty, length, leb, ltb, ◌==◌,
  if◌then◌else◌, split_at, drop_while, take_until,
}
use neural_plus.Outcome.{Result, ok, err, configuration_error, throw_if, ◌>>=◌, ◌>>◌}
use neural_plus.Transport.{ascii_iequals}

abbrev pub http_prefix : Bytes
http_prefix = lit "http://"

-- A character of "/?#".
abbrev pub ends_authority : ℕ → Bool
ends_authority c = c == b'/' || c == b'?' || c == b'#'

-- The host of an authority; `none` where a bracket is not closed.
unfoldable pub host_of : Bytes → Option Bytes
unfolding split_at take_until
host_of [] = some []
host_of (c ∷ rest) = elim (c == b'[') [
  | true ↦ elim (split_at b']' rest) [ none ↦ none | some (host, after) ↦ some host ]
  | false ↦ some (take_until (λ b. b == b':') (c ∷ rest))
]

unfoldable pub is_loopback_host : Option Bytes → Bool
is_loopback_host none = false
is_loopback_host (some host) =
    ascii_iequals host (lit "localhost") || same host (lit "127.0.0.1") || same host (lit "::1")

unfoldable pub is_loopback_authority : Bytes → Bool
unfolding host_of is_loopback_host
is_loopback_authority authority =
    if is_empty authority || any (λ c. c == b'@') authority
    then false
    else is_loopback_host (host_of authority)

unfoldable pub is_loopback_http_url : Bytes → Bool
unfolding is_loopback_authority take_until
is_loopback_http_url url =
    if ltb (length url) 7 || not (ascii_iequals (take 7 url) http_prefix)
    then false
    else is_loopback_authority (take_until ends_authority (drop 7 url))

abbrev pub is_space : ℕ → Bool
is_space c = c == 32 || c == 9 || c == 13 || c == 10 || c == 12 || c == 11

unfoldable pub trim_ascii : Bytes → Bytes
unfolding drop_while
trim_ascii value = reverse (drop_while is_space (reverse (drop_while is_space value)))

abbrev pub is_token_character : ℕ → Bool
is_token_character c =
    (leb b'A' c && leb c b'Z' || leb b'a' c && leb c b'z' || leb b'0' c && leb c b'9')
    || c == b'!'
    || c == b'#'
    || c == b'$'
    || c == b'%'
    || c == b'&'
    || c == 39
    || c == b'*'
    || c == b'+'
    || c == b'-'
    || c == b'.'
    || c == b'^'
    || c == b'_'
    || c == b'`'
    || c == b'|'
    || c == b'~'

unfoldable pub valid_header_name : Bytes → Bool
valid_header_name name = if is_empty name then false else all is_token_character name

abbrev pub is_value_character : ℕ → Bool
is_value_character c = c == 9 || leb 0x20 c && not (c == 0x7F)

unfoldable pub valid_header_value : Bytes → Bool
valid_header_value value = all is_value_character value

-- `std::numeric_limits<long>::max()` where `long` has 64 bits.
abbrev pub long_max : ℕ
long_max = 2 ^ 63 - 1

unfoldable pub milliseconds_as_long : ℤ → Bytes → Result ℕ
milliseconds_as_long (negsuc n) option_name =
    err (configuration_error (option_name ++ lit " must be greater than zero"))
milliseconds_as_long (pos n) option_name = do
  throw_if (n == 0) (configuration_error (option_name ++ lit " must be greater than zero"))
  throw_if (ltb long_max n) (configuration_error (option_name ++ lit " is too large"))
  ok n
