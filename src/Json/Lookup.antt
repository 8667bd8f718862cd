-- ===== src/Json/Lookup.antt =====
-- Which value an object has for a key after members were put.
use neural_plus.Prelude.{
  Bytes, same, same→eq, same_self, ◌≡◌, refl, sym, ◌∙◌, Bool, true, false, Bool-cases, inl, inr,
  Option, none, some, Option-cases, if◌then◌else◌,
}
use neural_plus.Json.{
  JsonValue, Members, end, member, find_member, put_member, update_members, less,
}

-- `find` after `object[key] = v`.
pub find_member-put_member :
    (asked key : Bytes) (v : JsonValue) (ms : Members)
    → find_member asked (put_member key v ms)
      ≡ (if same key asked then some v else find_member asked ms)
unfolding find_member put_member
find_member-put_member asked key v end = refl
find_member-put_member asked key v (member k w ms) = elim (Bool-cases (same k key)) [
  | inl e ↦ let q = same→eq k key e in rw (e, q) (twice (same key asked))
  | inr e ↦ elim (Bool-cases (less key k)) [
    | inl f ↦ rw (e, f) refl
    | inr f ↦
        let ih = find_member-put_member asked key v ms in
        elim (Bool-cases (same k asked)) [
          | inr g ↦ rw (e, f, g) ih
          | inl g ↦ elim (Bool-cases (same key asked)) [
            | inl h ↦
                let q = same→eq k asked g ∙ sym (same→eq key asked h) in
                let r : false ≡ true = sym (rw q at e) ∙ same_self key in cc
            | inr h ↦ rw (e, f, g, h) refl
          ]
        ]
  ]
]
  where
    twice :
        (b : Bool)
        → (if b then some v else find_member asked ms)
          ≡ (if b then some v else if b then some w else find_member asked ms)
    twice true = refl
    twice false = refl

-- The value of the last member of a key.
abbrev pub last_member : Bytes → Members → Option JsonValue
last_member asked end = none
last_member asked (member k v ms) = elim (last_member asked ms) [
  | none ↦ if same k asked then some v else none
  | some w ↦ some w
]

first_choice :
    (b : Bool) (v : JsonValue) (other : Option JsonValue)
    → (if b then some v else other)
      ≡ elim (if b then some v else none) [ none ↦ other | some w ↦ some w ]
first_choice true v other = refl
first_choice false v other = refl

pub find_member-update_members :
    (asked : Bytes) (ms more : Members)
    → find_member asked (update_members ms more)
      ≡ elim (last_member asked more) [ none ↦ find_member asked ms | some v ↦ some v ]
unfolding update_members
find_member-update_members asked ms end = refl
find_member-update_members asked ms (member k v more) =
    find_member-update_members asked (put_member k v ms) more
    ∙ elim (Option-cases (last_member asked more)) [
      | inl e ↦
          rw (e, find_member-put_member asked k v ms)
            (first_choice (same k asked) v (find_member asked ms))
      | inr (w, e) ↦ rw e refl
    ]
