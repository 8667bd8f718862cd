-- ===== src/Schema/Totality.antt =====
-- A schema that `validate_schema_definition` accepts never makes `validate_value_against_schema` throw.
use neural_plus.Prelude.{
  ℕ, ◌+◌, Bytes, lit, same, ◌≡◌, refl, Bool, true, false, Bool-cases, Option-cases, inl, inr,
  Option, none, some, List, [], ◌∷◌, ◌++◌, arith,
}
use neural_plus.Outcome.{Result, ok, err, >>-eq-ok}
use neural_plus.Json.{
  JsonValue, null, boolean, string, array, object, Elements, nil, cons, Members, end, member,
  elements, find_member,
}
use neural_plus.Schema.{
  check_type, check_names, check_required, definition_steps, validate_schema_definition,
  properties_definition, validate_properties, validate_each, items_definition,
  additional_definition, validate_additional, first_error, type_error, required_error, visited_of,
  each_undeclared, each_item, enum_error, check_object, check_array, check_value,
  validate_value_against_schema, properties_error, check_properties, check_each, additional_error,
  check_additional, items_error, below,
}

abbrev pub is_ok {ℓ} : {A : Type ℓ} → Result A → Bool
is_ok (ok a) = true
is_ok (err e) = false

pub is_ok-some {ℓ} : {A : Type ℓ} (r : Result A) → is_ok r ≡ true → (a : A) × (r ≡ ok a)
is_ok-some (ok a) h = (a, refl)
is_ok-some (err e) h = cc

first_error-total :
    (m k : Result Bytes) → is_ok m ≡ true → is_ok k ≡ true → is_ok (first_error m k) ≡ true
unfolding first_error
first_error-total (ok []) k h j = j
first_error-total (ok (b ∷ bs)) k h j = refl
first_error-total (err e) k h j = h

type_error-total :
    (t : Option JsonValue) (location : Bytes) (v : JsonValue) (path : Bytes)
    → check_type t location ≡ ok tt
    → is_ok (type_error t v path) ≡ true
unfolding check_type type_error
type_error-total none location v path h = refl
type_error-total (some (string s)) location v path h = refl
type_error-total (some _) location v path h = cc

names-total :
    (rs : List JsonValue) (location : Bytes) (vs : Members) (path : Bytes)
    → check_names rs location ≡ ok tt
    → is_ok (required_error rs vs path) ≡ true
unfolding check_names required_error
names-total [] location vs path h = refl
names-total (string [] ∷ rs) location vs path h = cc
names-total (string (b ∷ bs) ∷ rs) location vs path h =
    ground (arith, names-total rs location vs path h)
names-total (null ∷ rs) location vs path h = cc
names-total (r ∷ rs) location vs path h = cc

required_error-total :
    (r : Option JsonValue) (location : Bytes) (vs : Members) (path : Bytes)
    → check_required r location ≡ ok tt
    → is_ok (required_error (visited_of r) vs path) ≡ true
unfolding check_required
required_error-total none location vs path h = unfold required_error in refl
required_error-total (some (array es)) location vs path h =
    names-total (elements es) location vs path h
required_error-total (some _) location vs path h = cc

enum_error-total :
    (json_equal : JsonValue → JsonValue → Bool) (es : Option JsonValue) (v : JsonValue)
    (path : Bytes)
    → is_ok (enum_error json_equal es v path) ≡ true
unfolding enum_error
enum_error-total json_equal none v path = refl
enum_error-total json_equal (some es) v path = refl

each_item-total :
    (f : JsonValue → Bytes → Result Bytes)
    → ((v : JsonValue) (path : Bytes) → is_ok (f v path) ≡ true)
    → (es : Elements) (index : ℕ) (path : Bytes) → is_ok (each_item f es index path) ≡ true
unfolding each_item
each_item-total f total nil index path = refl
each_item-total f total (cons v es) index path =
    first_error-total _ _ (total v _) (each_item-total f total es (index + 1) path)

each_undeclared-total :
    (f : JsonValue → Bytes → Result Bytes)
    → ((v : JsonValue) (path : Bytes) → is_ok (f v path) ≡ true)
    → (ps : Option JsonValue) (vs : Members) (path : Bytes)
    → is_ok (each_undeclared f ps vs path) ≡ true
unfolding each_undeclared
each_undeclared-total f total ps end path = refl
each_undeclared-total f total ps (member k v vs) path =
    first_error-total _ _ (ground (arith, total v (below path k)))
      (each_undeclared-total f total ps vs path)

-- The three results that `definition_steps` is handed, and the three checks of its own.
pub record Steps (ms : Members) (location : Bytes) (p i a : Result (Unit {0})) : Type 0 where
  pub types : check_type (find_member (lit "type") ms) location ≡ ok tt
  pub properties : p ≡ ok tt
  pub required : check_required (find_member (lit "required") ms) location ≡ ok tt
  pub items : i ≡ ok tt
  pub additional : a ≡ ok tt

pub definition_steps-ok :
    (ms : Members) (location : Bytes) (p i a : Result (Unit {0}))
    → definition_steps ms location p i a ≡ ok tt
    → Steps ms location p i a
unfolding definition_steps
definition_steps-ok ms location p i a h =
    let (h₁, r₁) = >>-eq-ok _ _ h in
    let (h₂, r₂) = >>-eq-ok _ _ r₁ in
    let (h₃, r₃) = >>-eq-ok _ _ r₂ in
    let (h₄, r₄) = >>-eq-ok _ _ r₃ in
    let (h₅, r₅) = >>-eq-ok _ _ r₄ in
    record { types = h₁; properties = h₂; required = h₃; items = h₄; additional = h₅ }

module _ (json_equal : JsonValue → JsonValue → Bool) where
  abbrev Never : (Members → Result Bytes) → Type 0
  Never f = (vs : Members) → is_ok (f vs) ≡ true

  check_value-total :
      (ms : Members) (location : Bytes) (p i a : Result (Unit {0})) (fp fa : Members → Result Bytes)
      (fi : Elements → Result Bytes) (v : JsonValue) (path : Bytes)
      → Steps ms location p i a
      → Never fp
      → Never fa
      → ((es : Elements) → is_ok (fi es) ≡ true)
      → is_ok (check_value json_equal ms fp fa fi v path) ≡ true
  unfolding check_value
  check_value-total ms location p i a fp fa fi v path s hp ha hi =
      first_error-total _ _ (type_error-total _ location v path s.types) (
        first_error-total _ _ (enum_error-total json_equal _ v path)
          (first_error-total _ _ (objects v) (arrays v)))
    where
      objects : (w : JsonValue) → is_ok (check_object ms fp fa w path) ≡ true
      objects (object vs) =
          unfold check_object in
          first_error-total _ _ (required_error-total _ location vs path s.required)
            (first_error-total _ _ (hp vs) (ha vs))
      objects _ = unfold check_object in refl

      arrays : (w : JsonValue) → is_ok (check_array fi w) ≡ true
      arrays (array es) = unfold check_array in hi es
      arrays _ = unfold check_array in refl

  mutual
    unfolding validate_schema_definition validate_value_against_schema

    validate-total :
        (s : JsonValue) (location : Bytes) (v : JsonValue) (path : Bytes)
        → validate_schema_definition s location ≡ ok tt
        → is_ok (validate_value_against_schema json_equal s v path) ≡ true
    validate-total (object ms) location v path h =
        let steps = definition_steps-ok ms location _ _ _ h in
        check_value-total ms location _ _ _ _ _ _ v path steps
          (λ vs. properties-total ms location vs path steps.properties)
          (λ vs. additional-total ms location _ vs path steps.additional)
          (λ es. items-total ms location es path steps.items)
    validate-total null location v path h = cc
    validate-total _ location v path h = cc

    properties-total :
        (ms : Members) (location : Bytes) (vs : Members) (path : Bytes)
        → properties_definition ms location ≡ ok tt
        → is_ok (properties_error json_equal ms vs path) ≡ true
    properties-total end location vs path h = refl
    properties-total (member k s ms) location vs path h =
        elim (Bool-cases (same k (lit "properties"))) [
          | inl e ↦
              rw (e, is_ok) (members-total s location vs path (rw (e, properties_definition) at h))
          | inr e ↦
              rw (e, is_ok)
                (properties-total ms location vs path (rw (e, properties_definition) at h))
        ]

    items-total :
        (ms : Members) (location : Bytes) (es : Elements) (path : Bytes)
        → items_definition ms location ≡ ok tt
        → is_ok (items_error json_equal ms es path) ≡ true
    items-total end location es path h = refl
    items-total (member k s ms) location es path h = elim (Bool-cases (same k (lit "items"))) [
      | inl e ↦
          rw (e, is_ok)
            (each_item-total _ (λ v p. validate-total s _ v p (rw (e, items_definition) at h)) es 0
              path)
      | inr e ↦ rw (e, is_ok) (items-total ms location es path (rw (e, items_definition) at h))
    ]

    additional-total :
        (ms : Members) (location : Bytes) (ps : Option JsonValue) (vs : Members) (path : Bytes)
        → additional_definition ms location ≡ ok tt
        → is_ok (additional_error json_equal ms ps vs path) ≡ true
    additional-total end location ps vs path h = refl
    additional-total (member k s ms) location ps vs path h =
        elim (Bool-cases (same k (lit "additionalProperties"))) [
          | inl e ↦
              rw (e, is_ok)
                (each_undeclared-total _
                  (λ v p. other-total s location v p (rw (e, additional_definition) at h)) ps vs
                  path)
          | inr e ↦
              rw (e, is_ok)
                (additional-total ms location ps vs path (rw (e, additional_definition) at h))
        ]

    members-total :
        (s : JsonValue) (location : Bytes) (vs : Members) (path : Bytes)
        → validate_properties s location ≡ ok tt
        → is_ok (check_properties json_equal s vs path) ≡ true
    members-total (object ps) location vs path h = each-total ps location vs path h
    members-total _ location vs path h = cc

    each-total :
        (ps : Members) (location : Bytes) (vs : Members) (path : Bytes)
        → validate_each ps location ≡ ok tt
        → is_ok (check_each json_equal ps vs path) ≡ true
    each-total end location vs path h = refl
    each-total (member k s ps) location vs path h =
        let place = location ++ (lit ".properties." ++ k) in
        let (here, later) =
          >>-eq-ok (validate_schema_definition s place) (validate_each ps location) h in
        first_error-total _ _
          (elim (Option-cases (find_member k vs)) [
            | inl e ↦ rw (e, is_ok)
            | inr (a, e) ↦ rw (e, is_ok) (validate-total s place a (below path k) here)
          ])
          (each-total ps location vs path later)

    other-total :
        (s : JsonValue) (location : Bytes) (v : JsonValue) (path : Bytes)
        → validate_additional s location ≡ ok tt
        → is_ok (check_additional json_equal s v path) ≡ true
    other-total (boolean true) location v path h = refl
    other-total (boolean false) location v path h = refl
    other-total (object ms) location v path h =
        let below_location = location ++ lit ".additionalProperties" in
        let steps = definition_steps-ok ms below_location _ _ _ h in
        check_value-total ms below_location _ _ _ _ _ _ v path steps
          (λ vs. properties-total ms below_location vs path steps.properties)
          (λ vs. additional-total ms below_location _ vs path steps.additional)
          (λ es. items-total ms below_location es path steps.items)
    other-total _ location v path h = cc

-- A schema that `validate_schema_definition` accepts is one against which every value, whatever its
-- kind, is checked without a throw, under every meaning of the library's `operator==`.
pub validated_schema_never_throws :
    (json_equal : JsonValue → JsonValue → Bool) (schema : JsonValue) (location : Bytes)
    (v : JsonValue) (path : Bytes)
    → validate_schema_definition schema location ≡ ok tt
    → (message : Bytes) × (validate_value_against_schema json_equal schema v path ≡ ok message)
validated_schema_never_throws json_equal schema location v path h =
    is_ok-some _ (validate-total json_equal schema location v path h)
