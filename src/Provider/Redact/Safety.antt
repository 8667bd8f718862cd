-- ===== src/Provider/Redact/Safety.antt =====
-- No secret is left in a text that was redacted.
use neural_plus.Prelude.{
  ℕ, Bytes, lit, ◌≡◌, refl, Bool, true, false, Bool-cases, and_true, ◌||◌, inl, inr, [], ◌∷◌, ◌++◌,
  is_empty, any, drop, length, ◌==◌, starts_with, includes,
}
use mathlib.Core.List.{Memᴰ}
use neural_plus.Provider.Redact.{SensitiveValues, replacement, redact_sensitive_values}
use neural_plus.Provider.Redact.Relation.{
  Redacts, done, keeps, replaces, redact_sensitive_values-Redacts,
}

abbrev pub has_byte : ℕ → Bytes → Bool
has_byte c text = any (λ b. b == c) text

or_false : (a b : Bool) → (a || b) ≡ false → (a ≡ false) × (b ≡ false)
or_false true b h = cc
or_false false b h = (refl, h)

-- A text without `[` that begins the output begins the input.
starts_with-Redacts :
    (secrets : SensitiveValues) (s input out : Bytes)
    → Redacts secrets input out
    → has_byte b'[' s ≡ false
    → starts_with s out ≡ true
    → starts_with s input ≡ true
unfolding starts_with lit
starts_with-Redacts secrets [] input out r h k = refl
starts_with-Redacts secrets (a ∷ s) input out done h k = k
starts_with-Redacts secrets (a ∷ s) input out (keeps b rest o kept r) h k =
    let (e, l) = and_true (a == b) (starts_with s o) k in
    let (n, m) = or_false (a == b'[') (has_byte b'[' s) h in
    rw (e, starts_with-Redacts secrets s rest o r m l) refl
starts_with-Redacts secrets (a ∷ s) input out (replaces b rest secret o m l longest r) h k =
    let (n, m) = or_false (a == b'[') (has_byte b'[' s) h in
    let (e, j) = and_true (a == b'[') (starts_with s (lit "REDACTED]" ++ o)) k in cc

-- A text without `]` that begins what ends in `]`, whatever follows.
starts_with-marker :
    (s pre rest : Bytes)
    → has_byte b']' s ≡ false
    → starts_with s (pre ++ b']' ∷ rest) ≡ true
    → starts_with s (pre ++ b']' ∷ []) ≡ true
unfolding starts_with
starts_with-marker [] pre rest h k = refl
starts_with-marker (a ∷ s) [] rest h k =
    let (n, m) = or_false (a == b']') (has_byte b']' s) h in
    let (e, l) = and_true (a == b']') (starts_with s rest) k in cc
starts_with-marker (a ∷ s) (b ∷ pre) rest h k =
    let (e, l) = and_true (a == b) (starts_with s (pre ++ b']' ∷ rest)) k in
    let (n, m) = or_false (a == b']') (has_byte b']' s) h in
    rw (e, starts_with-marker s pre rest m l) refl

includes-marker :
    (s pre rest : Bytes)
    → has_byte b']' s ≡ false
    → includes s (pre ++ b']' ∷ []) ≡ false
    → includes s rest ≡ false
    → includes s (pre ++ b']' ∷ rest) ≡ false
unfolding includes starts_with
includes-marker [] [] rest h k l = cc
includes-marker (a ∷ s) [] rest h k l =
    let (n, m) = or_false (a == b']') (has_byte b']' s) h in rw (n, l) refl
includes-marker s (b ∷ pre) rest h k l =
    let (n, m) =
      or_false (starts_with s (b ∷ (pre ++ b']' ∷ []))) (includes s (pre ++ b']' ∷ [])) k in
    elim (Bool-cases (starts_with s (b ∷ (pre ++ b']' ∷ rest)))) [
      | inl e ↦ let q = starts_with-marker s (b ∷ pre) rest h e in cc
      | inr e ↦ rw (e, includes-marker s pre rest h m l) refl
    ]

nonempty : (s : Bytes) → includes s replacement ≡ false → is_empty s ≡ false
unfolding includes starts_with lit
nonempty [] h = cc
nonempty (a ∷ s) h = refl

starts_with-empty : (s : Bytes) → is_empty s ≡ false → starts_with s [] ≡ false
unfolding starts_with
starts_with-empty [] h = cc
starts_with-empty (a ∷ s) h = refl

includes-Redacts :
    (secrets : SensitiveValues) (s input out : Bytes)
    → Memᴰ s secrets
    → has_byte b'[' s ≡ false
    → has_byte b']' s ≡ false
    → includes s replacement ≡ false
    → Redacts secrets input out
    → includes s out ≡ false
unfolding includes lit
includes-Redacts secrets s input out m h k l done = starts_with-empty s (nonempty s l)
includes-Redacts secrets s input out m h k l (keeps b rest o kept r) =
    let ih = includes-Redacts secrets s rest o m h k l r in
    elim (Bool-cases (starts_with s (b ∷ o))) [
      | inl e ↦ absurd (
          kept s m (
            nonempty s l,
            starts_with-Redacts secrets s (b ∷ rest) (b ∷ o) (keeps b rest o kept r) h e,
          ))
      | inr e ↦ rw (e, ih) refl
    ]
includes-Redacts secrets s input out m h k l (replaces b rest secret o m' l' longest r) =
    includes-marker s (lit "[REDACTED") o k l
      (includes-Redacts secrets s (drop (length secret) (b ∷ rest)) o m h k l r)

-- A secret that has no bracket and is no part of the marker `[REDACTED]` stands nowhere in a text that
-- was redacted, also not across the places where others were replaced.
pub redact_sensitive_values-includes :
    (input : Bytes) (secrets : SensitiveValues) (secret : Bytes)
    → Memᴰ secret secrets
    → has_byte b'[' secret ≡ false
    → has_byte b']' secret ≡ false
    → includes secret replacement ≡ false
    → includes secret (redact_sensitive_values input secrets) ≡ false
redact_sensitive_values-includes input secrets secret m h k l =
    includes-Redacts secrets secret input (redact_sensitive_values input secrets) m h k l
      (redact_sensitive_values-Redacts input secrets)
