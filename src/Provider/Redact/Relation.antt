-- ===== src/Provider/Redact/Relation.antt =====
-- What the redaction of a text is, without the loop and without an order of the secrets.
use neural_plus.Prelude.{
  ℕ, zero, suc, ◌≤◌, Bytes, ◌≡◌, refl, ap, subst, true, false, Bool-cases, not, ◌&&◌, inl, inr, ◌↔◌,
  Option, none, some, [], ◌∷◌, ◌++◌, is_empty, drop, length, arith, starts_with,
}
use mathlib.Core.List.{Memᴰ}
use mathlib.Core.List.Memᴰ
use neural_plus.Provider.Redact.Sorting.{Sorted, All-Memᴰ, longest_first-Sorted, longest_first-Memᴰ}
use neural_plus.Provider.Redact.{
  SensitiveValues, longest_first, replacement, find_secret, redact_loop, redact_sensitive_values,
}

-- A secret that is not empty and stands at the beginning of the input.
abbrev pub Leads : Bytes → Bytes → Type 0
Leads secret input = (is_empty secret ≡ false) × (starts_with secret input ≡ true)

-- From left to right: the longest secret that stands there is replaced, and where none stands the byte
-- is kept.
pub data Redacts (secrets : SensitiveValues) : Bytes → Bytes → Type 0 where
  done : Redacts secrets [] []
  keeps :
      (b : ℕ) (rest out : Bytes)
      → ((secret : Bytes) → Memᴰ secret secrets → ¬ (Leads secret (b ∷ rest)))
      → Redacts secrets rest out
      → Redacts secrets (b ∷ rest) (b ∷ out)
  replaces :
      (b : ℕ) (rest secret out : Bytes)
      → Memᴰ secret secrets
      → Leads secret (b ∷ rest)
      → ((other : Bytes)
          → Memᴰ other secrets
          → Leads other (b ∷ rest)
          → length other ≤ length secret)
      → Redacts secrets (drop (length secret) (b ∷ rest)) out
      → Redacts secrets (b ∷ rest) (replacement ++ out)

abbrev Longest : SensitiveValues → Bytes → Option Bytes → Type 0
Longest secrets input none = (secret : Bytes) → Memᴰ secret secrets → ¬ (Leads secret input)
Longest secrets input (some secret) =
    Memᴰ secret secrets
    × Leads secret input
    × ((other : Bytes) → Memᴰ other secrets → Leads other input → length other ≤ length secret)

and-Leads : (v input : Bytes) → (not (is_empty v) && starts_with v input) ≡ true → Leads v input
and-Leads v input h = elim (Bool-cases (is_empty v)) [
  | inl e ↦ let g = rw e at h in cc
  | inr e ↦ (e, rw e at h)
]

not-Leads :
    (v input : Bytes) → (not (is_empty v) && starts_with v input) ≡ false → ¬ (Leads v input)
not-Leads v input e (l, k) = let g = rw (l, k) at e in cc

length-drop : (n : ℕ) (text : Bytes) → length (drop n text) ≤ length text
length-drop zero text = omega arith
length-drop (suc n) [] = omega arith
length-drop (suc n) (b ∷ text) = omega (arith, length-drop n text)

Longest-skip :
    (v : Bytes) (secrets : SensitiveValues) (input : Bytes) (found : Option Bytes)
    → ¬ (Leads v input)
    → Longest secrets input found
    → Longest (v ∷ secrets) input found
Longest-skip v secrets input none n h = λ secret m l. elim m [
  | Memᴰ.head e ↦ n (subst (λ s. Leads s input) e l)
  | Memᴰ.tail k ↦ h secret k l
]
Longest-skip v secrets input (some found) n (m, l, h) = (
  Memᴰ.tail m,
  l,
  λ other k l'. elim k [
    | Memᴰ.head e ↦ absurd (n (subst (λ s. Leads s input) e l'))
    | Memᴰ.tail k' ↦ h other k' l'
  ],
)

find_secret-Longest :
    (secrets : SensitiveValues) (input : Bytes)
    → Sorted secrets
    → Longest secrets input (find_secret secrets input)
unfolding find_secret
find_secret-Longest [] input h = λ secret m l. Memᴰ.not-nil m
find_secret-Longest (v ∷ secrets) input (a, h) =
    elim (Bool-cases (not (is_empty v) && starts_with v input)) [
      | inl e ↦ rw e (
        Memᴰ.head refl,
        and-Leads v input e,
        λ other m l. elim m [
          | Memᴰ.head q ↦ rw q (omega arith)
          | Memᴰ.tail k ↦ All-Memᴰ (λ w. length w ≤ length v) secrets other a k
        ],
      )
      | inr e ↦ rw e (
          Longest-skip v secrets input (find_secret secrets input) (not-Leads v input e)
            (find_secret-Longest secrets input h))
    ]

-- With as many rounds as bytes, the loop redacts the whole input.
redact_loop-Redacts :
    (rounds : ℕ) (secrets : SensitiveValues) (input : Bytes)
    → Sorted secrets
    → length input ≤ rounds
    → Redacts secrets input (redact_loop rounds secrets input)
unfolding redact_loop
redact_loop-Redacts rounds secrets [] s h = done
redact_loop-Redacts zero secrets (b ∷ rest) s h = absurd (omega arith)
redact_loop-Redacts (suc rounds) secrets (b ∷ rest) s h =
    step (find_secret secrets (b ∷ rest)) (find_secret-Longest secrets (b ∷ rest) s)
      (λ later k. redact_loop-Redacts rounds secrets later s k)
  where
    step :
        (found : Option Bytes)
        → Longest secrets (b ∷ rest) found
        → ((later : Bytes)
            → length later ≤ rounds
            → Redacts secrets later (redact_loop rounds secrets later))
        → Redacts secrets (b ∷ rest) (elim found [
          | none ↦ b ∷ redact_loop rounds secrets rest
          | some secret ↦
              replacement ++ redact_loop rounds secrets (drop (length secret) (b ∷ rest))
        ])
    step none kept ih = keeps b rest (redact_loop rounds secrets rest) kept (ih rest (omega arith))
    step (some []) (m, (l, k), longest) ih = cc
    step (some (c ∷ secret)) (m, l, longest) ih =
        replaces b rest (c ∷ secret) (redact_loop rounds secrets (drop (length secret) rest)) m l
          longest (ih (drop (length secret) rest) (omega (arith, length-drop (length secret) rest)))

Redacts-Memᴰ :
    (values others : SensitiveValues)
    → ((v : Bytes) → Memᴰ v values ↔ Memᴰ v others)
    → (input out : Bytes) → Redacts values input out
    → Redacts others input out
Redacts-Memᴰ values others h input out done = done
Redacts-Memᴰ values others h input out (keeps b rest o kept r) =
    keeps b rest o (λ s m. kept s ((h s).1 m)) (Redacts-Memᴰ values others h rest o r)
Redacts-Memᴰ values others h input out (replaces b rest secret o m l longest r) =
    replaces b rest secret o ((h secret).0 m) l (λ s k. longest s ((h s).1 k))
      (Redacts-Memᴰ values others h (drop (length secret) (b ∷ rest)) o r)

-- Redaction replaces, from left to right, the longest secret that stands where it is; the loop always
-- ends, with the whole input treated.
pub redact_sensitive_values-Redacts :
    (input : Bytes) (secrets : SensitiveValues)
    → Redacts secrets input (redact_sensitive_values input secrets)
unfolding redact_sensitive_values
redact_sensitive_values-Redacts input secrets =
    Redacts-Memᴰ (longest_first secrets) secrets (λ v. longest_first-Memᴰ v secrets) input
      (redact_sensitive_values input secrets)
      (redact_loop-Redacts (length input) (longest_first secrets) input
        (longest_first-Sorted secrets) (omega arith))

Redacts-unique :
    (secrets : SensitiveValues) (input out other : Bytes)
    → Redacts secrets input out
    → Redacts secrets input other
    → out ≡ other
Redacts-unique secrets input out other done done = refl
Redacts-unique secrets input out other (keeps b rest o kept r) (keeps _ _ o' kept' r') =
    ap (λ t. b ∷ t) (Redacts-unique secrets rest o o' r r')
Redacts-unique secrets input out other (keeps b rest o kept r)
      (replaces _ _ secret o' m l longest r') =
    absurd (kept secret m l)
Redacts-unique secrets input out other (replaces b rest secret o m l longest r)
      (keeps _ _ o' kept r') =
    absurd (kept secret m l)
Redacts-unique secrets input out other (replaces b rest secret o m l longest r)
      (replaces _ _ secret' o' m' l' longest' r') =
    let same_length : length secret' ≡ length secret =
      omega (arith, longest secret' m' l', longest' secret m l) in
    let r'' = subst (λ n. Redacts secrets (drop n (b ∷ rest)) o') same_length r' in
    ap (λ t. replacement ++ t) (Redacts-unique secrets (drop (length secret) (b ∷ rest)) o o' r r'')

-- The redaction depends on which secrets there are, not on their order or repetition.
pub redact_sensitive_values-order :
    (input : Bytes) (secrets others : SensitiveValues)
    → ((v : Bytes) → Memᴰ v secrets ↔ Memᴰ v others)
    → redact_sensitive_values input secrets ≡ redact_sensitive_values input others
redact_sensitive_values-order input secrets others h =
    Redacts-unique others input (redact_sensitive_values input secrets)
      (redact_sensitive_values input others)
      (Redacts-Memᴰ secrets others h input (redact_sensitive_values input secrets)
        (redact_sensitive_values-Redacts input secrets))
      (redact_sensitive_values-Redacts input others)
