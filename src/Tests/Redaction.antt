-- ===== src/Tests/Redaction.antt =====
-- Runs of the redaction, of the request headers and of what is collected as a secret.
use neural_plus.Prelude.{
  length, ◌≤◌, arith, inr, Bytes, lit, ◌≡◌, refl, true, false, none, some, [], ◌∷◌, includes,
  is_empty,
}
use mathlib.Core.List.{Memᴰ}
use mathlib.Core.List.Memᴰ
use neural_plus.Json.{JsonValue, string, object, member, end}
use neural_plus.Transport.{HttpHeader, ascii_iequals, ascii_lower}
use neural_plus.Provider.Redact.{
  replacement, redact_sensitive_values, redact_json_strings, collect_sensitive_values,
}
use neural_plus.Provider.Redact.Relation.{
  Redacts, redact_sensitive_values-Redacts, redact_sensitive_values-order,
}
use neural_plus.Provider.Redact.Safety.{has_byte, redact_sensitive_values-includes}
use neural_plus.Provider.Redact.Tree.{AllTexts, redact_json_strings-includes}
use neural_plus.Provider.Redact.Collect.{
  CredentialName, has_marker, collect_sensitive_values-header,
}
use neural_plus.Provider.Headers.{apply_extra_headers}
use neural_plus.Provider.Headers.Lookup.{named-apply_extra_headers, named, last_named}

abbrev key : Bytes
key = lit "sk-1"

abbrev longer : Bytes
longer = lit "sk-12"

abbrev echoed : Bytes
echoed = lit "bad sk-12, sk-1"

redacts : redact_sensitive_values echoed (key ∷ longer ∷ []) ≡ lit "bad [REDACTED], [REDACTED]"
unfolding redact_sensitive_values lit
redacts = refl

redact_sensitive_values-Redacts_example :
    Redacts (key ∷ longer ∷ []) echoed (redact_sensitive_values echoed (key ∷ longer ∷ []))
redact_sensitive_values-Redacts_example = redact_sensitive_values-Redacts echoed (key ∷ longer ∷ [])

abbrev swapped : (a b v : Bytes) → Memᴰ v (a ∷ b ∷ []) → Memᴰ v (b ∷ a ∷ [])
swapped a b v (Memᴰ.head e) = Memᴰ.tail (Memᴰ.head e)
swapped a b v (Memᴰ.tail (Memᴰ.head e)) = Memᴰ.head e
swapped a b v (Memᴰ.tail (Memᴰ.tail m)) = absurd (Memᴰ.not-nil m)

redact_sensitive_values-order_example :
    redact_sensitive_values echoed (key ∷ longer ∷ [])
    ≡ redact_sensitive_values echoed (longer ∷ key ∷ [])
redact_sensitive_values-order_example =
    redact_sensitive_values-order echoed (key ∷ longer ∷ []) (longer ∷ key ∷ [])
      (λ v. (swapped key longer v, swapped longer key v))

no_bracket : has_byte b'[' key ≡ false
unfolding lit
no_bracket = refl

no_end : has_byte b']' key ≡ false
unfolding lit
no_end = refl

no_part : includes key replacement ≡ false
unfolding includes lit
no_part = refl

redact_sensitive_values-includes_example :
    includes key (redact_sensitive_values echoed (key ∷ longer ∷ [])) ≡ false
redact_sensitive_values-includes_example =
    redact_sensitive_values-includes echoed (key ∷ longer ∷ []) key (Memᴰ.head refl) no_bracket
      no_end no_part

abbrev body : JsonValue
body = object (member (lit "sk-1") (string (lit "a sk-1")) end)

redact_json_strings-includes_example :
    AllTexts (λ text. includes key text ≡ false) (redact_json_strings body (key ∷ []))
redact_json_strings-includes_example =
    redact_json_strings-includes body (key ∷ []) key (Memᴰ.head refl) no_bracket no_end no_part

abbrev authorization : HttpHeader
authorization = record { name = lit "authorization"; value = lit "Bearer sk-1"; sensitive = false }

-- The same name in other letters.
abbrev other : HttpHeader
other = record { name = lit "AUTHORIZATION"; value = lit "Bearer sk-2"; sensitive = true }

once : length (named (lit "Authorization") (authorization ∷ [])) ≤ 1
unfolding lit ascii_iequals ascii_lower
once = omega arith

secret_name : CredentialName authorization.name
unfolding lit ascii_lower
secret_name = has_marker [] (lit "authorization") [] (Memᴰ.head refl) refl

filled_value : is_empty authorization.value ≡ false
unfolding lit
filled_value = refl

collect_sensitive_values-header_example :
    Memᴰ authorization.value (collect_sensitive_values (authorization ∷ []) [])
collect_sensitive_values-header_example =
    collect_sensitive_values-header (authorization ∷ []) [] authorization (Memᴰ.head refl)
      (inr secret_name) filled_value

named-apply_extra_headers_example :
    named (lit "Authorization") (apply_extra_headers (authorization ∷ []) (other ∷ []))
    ≡ elim (last_named (lit "Authorization") (other ∷ [])) [
      | none ↦ named (lit "Authorization") (authorization ∷ [])
      | some last ↦ last ∷ []
    ]
named-apply_extra_headers_example =
    named-apply_extra_headers (lit "Authorization") (authorization ∷ []) (other ∷ []) once
