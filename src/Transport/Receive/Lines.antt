-- ===== src/Transport/Receive/Lines.antt =====
-- What a header line says, described without the code that splits and trims it.
use neural_plus.Prelude.{
  ℕ, ◌≤◌, Bytes, ◌≡◌, ◌≢◌, refl, sym, ap, subst, ◌∙◌, false, Bool-cases, inl, inr, ◌⊎◌, Option,
  none, some, List, [], ◌∷◌, ◌++◌, reverse, arith, ◌==◌, All, split_at, drop_while,
}
use mathlib.Core.List.{reverse-append, reverse-reverse}
use neural_plus.Transport.{HttpHeader}
use neural_plus.Transport.Check.{is_space, trim_ascii}
use neural_plus.Transport.Receive.{parse_header}

-- A space, or a byte from the tab to the carriage return.
abbrev pub Blank : ℕ → Type 0
Blank b = (b ≡ 32) ⊎ ((9 ≤ b) × (b ≤ 13))

abbrev pub NotFirst : (ℕ → Type 0) → Bytes → Type 0
NotFirst P [] = Unit
NotFirst P (b ∷ text) = P b → ⊥

-- The text without the blanks around it.
pub record Trims (text trimmed : Bytes) : Type 0 where
  pub before : Bytes
  pub after : Bytes
  pub whole : text ≡ before ++ (trimmed ++ after)
  pub blank_before : All Blank before
  pub blank_after : All Blank after
  pub first : NotFirst Blank trimmed
  pub last : NotFirst Blank (reverse trimmed)

abbrev pub NoColon : Bytes → Type 0
NoColon text = All (λ b. b ≢ b':') text

-- A line without a colon says nothing. In any other the first colon ends the name, and the name and the
-- value are taken without the blanks around them.
pub data HeaderOf (line : Bytes) : List HttpHeader → Type 0 where
  no_colon : NoColon line → HeaderOf line []
  at_colon :
      (name_text value_text name value : Bytes)
      → NoColon name_text
      → line ≡ name_text ++ b':' ∷ value_text
      → Trims name_text name
      → Trims value_text value
      → HeaderOf line (record { name = name; value = value; sensitive = false } ∷ [])

drop_while_rest :
    (text : Bytes)
    → (before : Bytes) × (text ≡ before ++ drop_while is_space text)
      × All Blank before
      × NotFirst Blank (drop_while is_space text)
unfolding drop_while
drop_while_rest [] = ([], refl, tt, tt)
drop_while_rest (b ∷ text) = elim (Bool-cases (is_space b)) [
  | inl e ↦
      let (before, q, blanks, n) = drop_while_rest text in
      let blank : Blank b = ground arith in
      rw (e, drop_while) (b ∷ before, ap (λ t. b ∷ t) q, (blank, blanks), n)
  | inr e ↦
      let other : Blank b → ⊥ = λ k. ground (arith, k, e) in
      rw (e, drop_while) ([], refl, tt, other)
]

append-All : (xs ys : Bytes) → All Blank xs → All Blank ys → All Blank (xs ++ ys)
append-All [] ys p q = q
append-All (x ∷ xs) ys (b, p) q = (b, append-All xs ys p q)

reverse-All : (xs : Bytes) → All Blank xs → All Blank (reverse xs)
reverse-All [] p = tt
reverse-All (x ∷ xs) (b, p) =
    subst (All Blank) (sym (reverse-append (x ∷ []) xs))
      (append-All (reverse xs) (x ∷ []) (reverse-All xs p) (b, tt))

NotFirst-append : (t after : Bytes) → NotFirst Blank (t ++ after) → NotFirst Blank t
NotFirst-append [] after h = tt
NotFirst-append (b ∷ t) after h = h

trim_ascii-Trims : (text : Bytes) → Trims text (trim_ascii text)
unfolding trim_ascii
trim_ascii-Trims text =
    let (before, q, blanks, n) = drop_while_rest text in
    let kept = drop_while is_space text in
    let (tail, r, blanks', n') = drop_while_rest (reverse kept) in
    let back = drop_while is_space (reverse kept) in
    let whole : kept ≡ reverse back ++ reverse tail =
      sym (reverse-reverse kept) ∙ ap reverse r ∙ reverse-append tail back in
    record {
      before = before;
      after = reverse tail;
      whole = q ∙ ap (λ t. before ++ t) whole;
      blank_before = blanks;
      blank_after = reverse-All tail blanks';
      first = NotFirst-append (reverse back) (reverse tail) (subst (NotFirst Blank) whole n);
      last = subst (NotFirst Blank) (sym (reverse-reverse back)) n';
    }

-- What a split says of the text.
abbrev SplitsAt : Bytes → Option (Bytes × Bytes) → Type 0
SplitsAt text none = NoColon text
SplitsAt text (some (before, after)) = NoColon before × (text ≡ before ++ b':' ∷ after)

split_at-SplitsAt : (text : Bytes) → SplitsAt text (split_at b':' text)
unfolding split_at
split_at-SplitsAt [] = tt
split_at-SplitsAt (b ∷ text) = elim (Bool-cases (b == b':')) [
  | inl e ↦ let q : b ≡ b':' = ground arith in rw (e, split_at) (tt, ap (λ x. x ∷ text) q)
  | inr e ↦
      let n : b ≢ b':' = λ k. ground (arith, k, e) in
      rw (e, split_at) (later n (split_at b':' text) (split_at-SplitsAt text))
]
  where
    later :
        b ≢ b':'
        → (o : Option (Bytes × Bytes)) → SplitsAt text o
        → SplitsAt (b ∷ text) (elim o [ none ↦ none | some (x, y) ↦ some (b ∷ x, y) ])
    later n none h = (n, h)
    later n (some (x, y)) (h, q) = ((n, h), ap (λ t. b ∷ t) q)

pub parse_header-HeaderOf : (line : Bytes) → HeaderOf line (parse_header line)
unfolding parse_header
parse_header-HeaderOf line = of_split (split_at b':' line) (split_at-SplitsAt line)
  where
    of_split :
        (o : Option (Bytes × Bytes))
        → SplitsAt line o
        → HeaderOf line (elim o [
          | none ↦ []
          | some (name, value) ↦
              record { name = trim_ascii name; value = trim_ascii value; sensitive = false } ∷ []
        ])
    of_split none h = no_colon h
    of_split (some (x, y)) (h, q) =
        at_colon x y (trim_ascii x) (trim_ascii y) h q (trim_ascii-Trims x) (trim_ascii-Trims y)
