-- ===== src/Provider/Redact/Tree.antt =====
-- The strings and the member names of a JSON value that was redacted.
use neural_plus.Prelude.{Bytes, same, ◌≡◌, false, Bool-cases, inl, inr, includes}
use mathlib.Core.List.{Memᴰ}
use neural_plus.Json.{
  JsonValue, null, boolean, integer, unsigned, float, string, array, object, Elements, nil, cons,
  Members, end, member, put_member, less,
}
use neural_plus.Provider.Redact.{
  SensitiveValues, replacement, redact_sensitive_values, redact_json_strings, redact_elements,
  redact_members,
}
use neural_plus.Provider.Redact.Safety.{has_byte, redact_sensitive_values-includes}

-- A predicate of every string and every member name of a value.
mutual
  pub AllTexts : (Bytes → Type 0) → JsonValue → Type 0
  AllTexts P (string s) = P s
  AllTexts P (array es) = AllElements P es
  AllTexts P (object ms) = AllMembers P ms
  AllTexts P null = Unit
  AllTexts P (boolean b) = Unit
  AllTexts P (integer i) = Unit
  AllTexts P (unsigned n) = Unit
  AllTexts P (float x) = Unit

  pub AllElements : (Bytes → Type 0) → Elements → Type 0
  AllElements P nil = Unit
  AllElements P (cons v es) = AllTexts P v × AllElements P es

  pub AllMembers : (Bytes → Type 0) → Members → Type 0
  AllMembers P end = Unit
  AllMembers P (member k v ms) = P k × AllTexts P v × AllMembers P ms

module _ (P : Bytes → Type 0) where
  put_member-AllMembers :
      (k : Bytes) (v : JsonValue) (ms : Members)
      → P k
      → AllTexts P v
      → AllMembers P ms
      → AllMembers P (put_member k v ms)
  unfolding put_member AllTexts
  put_member-AllMembers k v end p h a = (p, h, tt)
  put_member-AllMembers k v (member l w ms) p h (q, g, a) = elim (Bool-cases (same l k)) [
    | inl e ↦ rw e (p, h, a)
    | inr e ↦ elim (Bool-cases (less k l)) [
      | inl f ↦ rw (e, f) (p, h, (q, g, a))
      | inr f ↦ rw (e, f) (q, g, put_member-AllMembers k v ms p h a)
    ]
  ]

  module _ (secrets : SensitiveValues)
      (redacted : (input : Bytes) → P (redact_sensitive_values input secrets)) where
    mutual
      unfolding redact_json_strings AllTexts

      redact_json_strings-AllTexts : (v : JsonValue) → AllTexts P (redact_json_strings v secrets)
      redact_json_strings-AllTexts (string s) = redacted s
      redact_json_strings-AllTexts (array es) = redact_elements-AllElements es
      redact_json_strings-AllTexts (object ms) = redact_members-AllMembers ms end tt
      redact_json_strings-AllTexts null = tt
      redact_json_strings-AllTexts (boolean b) = tt
      redact_json_strings-AllTexts (integer i) = tt
      redact_json_strings-AllTexts (unsigned n) = tt
      redact_json_strings-AllTexts (float x) = tt

      redact_elements-AllElements : (es : Elements) → AllElements P (redact_elements es secrets)
      redact_elements-AllElements nil = tt
      redact_elements-AllElements (cons v es) =
          (redact_json_strings-AllTexts v, redact_elements-AllElements es)

      redact_members-AllMembers :
          (ms made : Members) → AllMembers P made → AllMembers P (redact_members ms secrets made)
      redact_members-AllMembers end made a = a
      redact_members-AllMembers (member k v ms) made a =
          redact_members-AllMembers ms
            (put_member (redact_sensitive_values k secrets) (redact_json_strings v secrets) made)
            (put_member-AllMembers (redact_sensitive_values k secrets)
              (redact_json_strings v secrets) made (redacted k) (redact_json_strings-AllTexts v) a)

-- No string and no member name of a JSON value that was redacted, however deep, contains a secret that
-- has no bracket and is no part of the marker.
pub redact_json_strings-includes :
    (v : JsonValue) (secrets : SensitiveValues) (secret : Bytes)
    → Memᴰ secret secrets
    → has_byte b'[' secret ≡ false
    → has_byte b']' secret ≡ false
    → includes secret replacement ≡ false
    → AllTexts (λ text. includes secret text ≡ false) (redact_json_strings v secrets)
redact_json_strings-includes v secrets secret m h k l =
    redact_json_strings-AllTexts (λ text. includes secret text ≡ false) secrets
      (λ input. redact_sensitive_values-includes input secrets secret m h k l) v
