-- ===== src/Provider/Headers/Lookup.antt =====
-- What a request says for a name after headers were set.
use neural_plus.Prelude.{
  ◌≤◌, Bytes, same, same→eq, same_self, ◌≡◌, refl, sym, ap, ◌∙◌, Bool, true, false, Bool-cases,
  ◌&&◌, inl, inr, Option, none, some, Option-cases, List, [], ◌∷◌, map, length, ◌==◌, arith,
  if◌then◌else◌,
}
use neural_plus.Transport.{HttpHeader, ascii_lower, ascii_iequals}
use neural_plus.Provider.Headers.{
  equal_letters, ascii_equal_case_insensitive, set_header, apply_extra_headers,
}

-- Names are compared by their small letters.
ascii_iequals-same :
    (a b : Bytes) → ascii_iequals a b ≡ same (map ascii_lower a) (map ascii_lower b)
unfolding ascii_iequals same
ascii_iequals-same [] [] = refl
ascii_iequals-same [] (y ∷ b) = refl
ascii_iequals-same (x ∷ a) [] = refl
ascii_iequals-same (x ∷ a) (y ∷ b) =
    ap (λ t. ascii_lower x == ascii_lower y && t) (ascii_iequals-same a b)

ascii_iequals→eq : (a b : Bytes) → ascii_iequals a b ≡ true → map ascii_lower a ≡ map ascii_lower b
ascii_iequals→eq a b h =
    same→eq (map ascii_lower a) (map ascii_lower b) (sym (ascii_iequals-same a b) ∙ h)

and_false : (b : Bool) → (b && false) ≡ false
and_false true = refl
and_false false = refl

-- The comparison of src/provider_common.cpp is the one of src/transport.cpp.
ascii_equal_case_insensitive-eq :
    (a b : Bytes) → ascii_equal_case_insensitive a b ≡ ascii_iequals a b
unfolding ascii_equal_case_insensitive ascii_iequals
ascii_equal_case_insensitive-eq [] [] = refl
ascii_equal_case_insensitive-eq [] (y ∷ b) = ground arith
ascii_equal_case_insensitive-eq (x ∷ a) [] = ground arith
ascii_equal_case_insensitive-eq (x ∷ a) (y ∷ b) =
    let ih = ascii_equal_case_insensitive-eq a b in
    let lengths : (length (x ∷ a) == length (y ∷ b)) ≡ (length a == length b) = ground arith in
    elim (Bool-cases (length a == length b)) [
      | inl e ↦
          let letters : equal_letters a b ≡ ascii_iequals a b = rw e at ih in
          rw (lengths, e, letters) refl
      | inr e ↦
          let differ : false ≡ ascii_iequals a b = rw e at ih in
          rw (lengths, e, sym differ) (sym (and_false (ascii_lower x == ascii_lower y)))
    ]

equal_name : (a b c : Bytes) → ascii_iequals a b ≡ true → ascii_iequals a c ≡ ascii_iequals b c
equal_name a b c h =
    ascii_iequals-same a c
    ∙ ap (λ t. same t (map ascii_lower c)) (ascii_iequals→eq a b h)
    ∙ sym (ascii_iequals-same b c)

equal_back :
    (a b c : Bytes) → ascii_iequals a c ≡ true → ascii_iequals b c ≡ true → ascii_iequals a b ≡ true
equal_back a b c h k =
    ascii_iequals-same a b
    ∙ ap (λ t. same t (map ascii_lower b)) (ascii_iequals→eq a c h ∙ sym (ascii_iequals→eq b c k))
    ∙ same_self (map ascii_lower b)

-- What the headers say for a name, in whatever case: the value of each one that has it, and whether it is
-- marked as sensitive. All of them are sent.
abbrev pub named : Bytes → List HttpHeader → List (Bytes × Bool)
named asked [] = []
named asked (h ∷ hs) =
    if ascii_iequals h.name asked then (h.value, h.sensitive) ∷ named asked hs else named asked hs

length-named : {A : Type 0} (x : A) (xs : List A) → length (x ∷ xs) ≤ 1 → xs ≡ []
length-named x [] h = refl
length-named x (y ∷ ys) h = absurd (omega (arith, h))

named-set_header :
    (asked name value : Bytes) (sensitive : Bool) (headers : List HttpHeader)
    → length (named asked headers) ≤ 1
    → named asked (set_header headers name value sensitive)
      ≡ (if ascii_iequals name asked then (value, sensitive) ∷ [] else named asked headers)
unfolding set_header
named-set_header asked name value sensitive [] k = refl
named-set_header asked name value sensitive (h ∷ hs) k =
    let c = ascii_equal_case_insensitive-eq h.name name in
    elim (Bool-cases (ascii_iequals h.name name)) [
      | inl e ↦
          let n = equal_name h.name name asked e in
          elim (Bool-cases (ascii_iequals name asked)) [
            | inl g ↦
                let alone = length-named (h.value, h.sensitive) (named asked hs) (rw (n, g) at k) in
                rw (c, e, g) (ap (λ t. (value, sensitive) ∷ t) alone)
            | inr g ↦ rw (c, e, n, g) refl
          ]
      | inr e ↦ elim (Bool-cases (ascii_iequals h.name asked)) [
        | inr f ↦ rw (c, e, f) (named-set_header asked name value sensitive hs (rw f at k))
        | inl f ↦ elim (Bool-cases (ascii_iequals name asked)) [
          | inl g ↦ let q = equal_back h.name name asked f g in cc
          | inr g ↦
              let alone = length-named (h.value, h.sensitive) (named asked hs) (rw f at k) in
              let short : length (named asked hs) ≤ 1 = rw alone (omega arith) in
              let ih : named asked (set_header hs name value sensitive) ≡ named asked hs =
                named-set_header asked name value sensitive hs short ∙ rw g refl in
              rw (c, e, f, g) (ap (λ t. (h.value, h.sensitive) ∷ t) ih)
        ]
      ]
    ]

set_header-alone :
    (asked name value : Bytes) (sensitive : Bool) (headers : List HttpHeader)
    → length (named asked headers) ≤ 1
    → length (named asked (set_header headers name value sensitive)) ≤ 1
set_header-alone asked name value sensitive headers k =
    rw (named-set_header asked name value sensitive headers k)
      (elim (Bool-cases (ascii_iequals name asked)) [ inl e ↦ rw e (omega arith) | inr e ↦ rw e k ])

-- The last header of a name.
abbrev pub last_named : Bytes → List HttpHeader → Option (Bytes × Bool)
last_named asked [] = none
last_named asked (h ∷ hs) = elim (last_named asked hs) [
  | none ↦ if ascii_iequals h.name asked then some (h.value, h.sensitive) else none
  | some last ↦ some last
]

first_choice :
    {A : Type 0} (b : Bool) (x : A) (others : List A)
    → (if b then x ∷ [] else others)
      ≡ elim (if b then some x else none) [ none ↦ others | some y ↦ y ∷ [] ]
first_choice true x others = refl
first_choice false x others = refl

-- Where the headers have a name at most once, in whatever case, then after the extra headers are applied
-- they have it just once if an extra header has it, with the value and the mark of the last such one,
-- and nothing of the old header is left; and if none has it, they say for it what they said before.
pub named-apply_extra_headers :
    (asked : Bytes) (headers extra : List HttpHeader)
    → length (named asked headers) ≤ 1
    → named asked (apply_extra_headers headers extra)
      ≡ elim (last_named asked extra) [ none ↦ named asked headers | some last ↦ last ∷ [] ]
unfolding apply_extra_headers
named-apply_extra_headers asked headers [] k = refl
named-apply_extra_headers asked headers (h ∷ extra) k =
    named-apply_extra_headers asked (set_header headers h.name h.value h.sensitive) extra
      (set_header-alone asked h.name h.value h.sensitive headers k)
    ∙ elim (Option-cases (last_named asked extra)) [
      | inl e ↦
          rw (e, named-set_header asked h.name h.value h.sensitive headers k)
            (first_choice (ascii_iequals h.name asked) (h.value, h.sensitive) (named asked headers))
      | inr (v, e) ↦ rw e refl
    ]
