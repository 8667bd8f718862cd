-- ===== src/Transport.antt =====
-- include/neuralplus/transport.hpp: requests and responses, and the comparison of header names of
-- src/transport.cpp. A status or a duration is a signed number; a duration counts milliseconds.
pub mod Check
pub mod Receive
pub mod Send
use neural_plus.Prelude.{
  ℕ, ◌+◌, ◌-◌, ℤ, pos, Bytes, Bool, true, false, ◌&&◌, Option, none, some, List, [], ◌∷◌, leb, ◌==◌,
  if◌then◌else◌,
}

pub data HttpMethod : Type 0 where
  get post put patch delete_ : HttpMethod

pub record HttpHeader : Type 0 where
  pub name : Bytes
  pub value : Bytes
  pub sensitive : Bool

pub record HttpRequest : Type 0 where
  pub method : HttpMethod
  pub url : Bytes
  pub headers : List HttpHeader
  pub body : Bytes
  pub timeout : ℤ

abbrev pub default_request : HttpRequest
default_request = record {
  method = HttpMethod.post;
  url = [];
  headers = [];
  body = [];
  timeout = pos 60000;
}

pub record HttpResponse : Type 0 where
  pub status : ℤ
  pub headers : List HttpHeader
  pub body : Bytes

unfoldable pub ascii_lower : ℕ → ℕ
ascii_lower c = if leb b'A' c && leb c b'Z' then c - b'A' + b'a' else c

unfoldable pub ascii_iequals : Bytes → Bytes → Bool
ascii_iequals [] [] = true
ascii_iequals [] (b ∷ right) = false
ascii_iequals (a ∷ left) [] = false
ascii_iequals (a ∷ left) (b ∷ right) = ascii_lower a == ascii_lower b && ascii_iequals left right

-- `HttpResponse::header`, over the headers of a response.
unfoldable pub header : Bytes → List HttpHeader → Option Bytes
header name [] = none
header name (item ∷ items) =
    if ascii_iequals item.name name then some item.value else header name items
