-- ===== src/Provider/Headers.antt =====
-- Request headers and addresses (src/provider_common.cpp).
pub mod Lookup
use neural_plus.Prelude.{
  ℕ, Bytes, lit, Bool, true, false, not, ◌&&◌, Option, none, some, List, [], ◌∷◌, ◌++◌, reverse,
  is_empty, length, ◌==◌, if◌then◌else◌, drop_while, starts_with,
}
use neural_plus.Outcome.{Result, ok, err, configuration_error, throw_if, ◌>>=◌, ◌>>◌}
use neural_plus.Transport.{HttpHeader, HttpResponse, ascii_lower, header}

abbrev pub equal_letters : Bytes → Bytes → Bool
equal_letters [] right = true
equal_letters (a ∷ left) [] = true
equal_letters (a ∷ left) (b ∷ right) = ascii_lower a == ascii_lower b && equal_letters left right

unfoldable pub ascii_equal_case_insensitive : Bytes → Bytes → Bool
ascii_equal_case_insensitive left right =
    if not (length left == length right) then false else equal_letters left right

-- The first header of the name is replaced; where there is none, the header comes last.
unfoldable pub set_header : List HttpHeader → (name value : Bytes) → Bool → List HttpHeader
unfolding ascii_equal_case_insensitive
set_header [] name value sensitive =
    record { name = name; value = value; sensitive = sensitive } ∷ []
set_header (h ∷ hs) name value sensitive =
    let later = h ∷ set_header hs name value sensitive in
    if ascii_equal_case_insensitive h.name name
    then record { name = name; value = value; sensitive = sensitive } ∷ hs
    else later

unfoldable pub apply_extra_headers : List HttpHeader → List HttpHeader → List HttpHeader
unfolding set_header
apply_extra_headers headers [] = headers
apply_extra_headers headers (h ∷ extra_headers) =
    apply_extra_headers (set_header headers h.name h.value h.sensitive) extra_headers

-- `while (!url.empty() && url.back() == '/') url.pop_back();`
unfoldable pub without_slashes : Bytes → Bytes
unfolding drop_while
without_slashes url = reverse (drop_while (λ c. c == b'/') (reverse url))

unfoldable pub join_url : Bytes → Bytes → Result Bytes
unfolding without_slashes starts_with lit
join_url base_url path = do
  throw_if (is_empty base_url) (configuration_error (lit "provider base URL cannot be empty"))
  ok (
      if is_empty path
      then without_slashes base_url
      else if starts_with (lit "/") path
      then without_slashes base_url ++ path
      else without_slashes base_url ++ lit "/" ++ path)

-- The first of the named headers that the response has.
unfoldable pub response_request_id : HttpResponse → List Bytes → Bytes
unfolding header
response_request_id response [] = []
response_request_id response (name ∷ header_names) = elim (header name response.headers) [
  | none ↦ response_request_id response header_names
  | some value ↦ value
]
