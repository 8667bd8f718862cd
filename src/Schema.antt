-- ===== src/Schema.antt =====
-- The JSON Schema subset of src/client.cpp: `validate_schema_definition`, `value_has_type` and
-- `validate_value_against_schema`. The recursion follows the schema; `schema.find(key)` is a walk over
-- the members, so that the walk hands over a part of the schema.
pub mod Totality
use neural_plus.Prelude.{
  ℕ, suc, ◌+◌, Bytes, lit, same, to_string, Bool, true, false, not, ◌&&◌, ◌||◌, Option, none, some,
  List, [], ◌∷◌, ◌++◌, any, is_empty, is_some, if◌then◌else◌,
}
use neural_plus.Outcome.{
  Result, ok, err, Error, configuration_error, json_exception, throw_if, ◌>>=◌, ◌>>◌,
}
use neural_plus.Json.{
  JsonValue, null, boolean, integer, unsigned, float, string, array, object, Elements, nil, cons,
  Members, end, member, is_object, is_array, is_string, is_boolean, is_null, is_number,
  is_number_integer, elements, members, find_member, find,
}

abbrev pub refuse_if : Bool → Bytes → Bytes → Result (Unit {0})
refuse_if b location what = throw_if b (configuration_error (location ++ what))

unfoldable pub supported_type : Bytes → Bool
unfolding lit
supported_type t =
    same t (lit "object")
    || same t (lit "array")
    || same t (lit "string")
    || same t (lit "number")
    || same t (lit "integer")
    || same t (lit "boolean")
    || same t (lit "null")

unfoldable pub check_type : Option JsonValue → Bytes → Result (Unit {0})
check_type none location = ok tt
check_type (some (string t)) location =
    refuse_if (not (supported_type t)) location (lit ".type is not supported")
check_type (some v) location = refuse_if true location (lit ".type must be a string")

abbrev pub is_name : JsonValue → Bool
is_name (string s) = not (is_empty s)
is_name _ = false

unfoldable pub check_names : List JsonValue → Bytes → Result (Unit {0})
check_names [] location = ok tt
check_names (v ∷ vs) location = do
  refuse_if (not (is_name v)) location (lit ".required entries must be non-empty strings")
  check_names vs location

unfoldable pub check_required : Option JsonValue → Bytes → Result (Unit {0})
check_required none location = ok tt
check_required (some (array es)) location = check_names (elements es) location
check_required (some v) location = refuse_if true location (lit ".required must be an array")

unfoldable pub check_enum : Option JsonValue → Bytes → Result (Unit {0})
check_enum none location = ok tt
check_enum (some v) location = refuse_if (not (is_array v)) location (lit ".enum must be an array")

-- The checks of one schema object in their order; the three that go below it are handed in.
unfoldable pub definition_steps :
    Members → Bytes → (properties items additional : Result (Unit {0})) → Result (Unit {0})
definition_steps ms location properties items additional = do
  check_type (find_member (lit "type") ms) location
  properties
  check_required (find_member (lit "required") ms) location
  items
  additional
  check_enum (find_member (lit "enum") ms) location

unfoldable mutual
  pub validate_schema_definition : JsonValue → Bytes → Result (Unit {0})
  validate_schema_definition (object ms) location =
      definition_steps ms location (properties_definition ms location)
        (items_definition ms location) (additional_definition ms location)
  validate_schema_definition _ location = refuse_if true location (lit " must be a JSON object")

  pub properties_definition : Members → Bytes → Result (Unit {0})
  properties_definition end location = ok tt
  properties_definition (member k v ms) location = elim (same k (lit "properties")) [
    | true ↦ validate_properties v location
    | false ↦ properties_definition ms location
  ]

  pub validate_properties : JsonValue → Bytes → Result (Unit {0})
  validate_properties (object ps) location = validate_each ps location
  validate_properties _ location = refuse_if true location (lit ".properties must be an object")

  pub validate_each : Members → Bytes → Result (Unit {0})
  validate_each end location = ok tt
  validate_each (member k v ps) location = do
    validate_schema_definition v (location ++ (lit ".properties." ++ k))
    validate_each ps location

  pub items_definition : Members → Bytes → Result (Unit {0})
  items_definition end location = ok tt
  items_definition (member k v ms) location = elim (same k (lit "items")) [
    | true ↦ validate_schema_definition v (location ++ lit ".items")
    | false ↦ items_definition ms location
  ]

  pub additional_definition : Members → Bytes → Result (Unit {0})
  additional_definition end location = ok tt
  additional_definition (member k v ms) location = elim (same k (lit "additionalProperties")) [
    | true ↦ validate_additional v location
    | false ↦ additional_definition ms location
  ]

  pub validate_additional : JsonValue → Bytes → Result (Unit {0})
  validate_additional (boolean b) location = ok tt
  validate_additional (object ms) location =
      let below = location ++ lit ".additionalProperties" in
      definition_steps ms below (properties_definition ms below) (items_definition ms below)
        (additional_definition ms below)
  validate_additional _ location =
      refuse_if true location (lit ".additionalProperties must be a boolean or object")

unfoldable pub value_has_type : JsonValue → Bytes → Bool
unfolding lit
value_has_type v t =
    if same t (lit "object")
    then is_object v
    else if same t (lit "array")
    then is_array v
    else if same t (lit "string")
    then is_string v
    else if same t (lit "number")
    then is_number v
    else if same t (lit "integer")
    then is_number_integer v
    else if same t (lit "boolean")
    then is_boolean v
    else if same t (lit "null")
    then is_null v
    else false

-- A check returns its message, empty where it found nothing, and the next one runs only then.
unfoldable pub first_error : Result Bytes → Result Bytes → Result Bytes
first_error (ok []) next = next
first_error (ok (b ∷ bs)) next = ok (b ∷ bs)
first_error (err e) next = err e

-- `get<std::string>()`, which throws at another kind.
abbrev pub get_string : JsonValue → Result Bytes
get_string (string s) = ok s
get_string _ = err json_exception

abbrev pub member_values : Members → List JsonValue
member_values end = []
member_values (member k v ms) = v ∷ member_values ms

-- What a range-based loop over a value visits.
abbrev pub visited : JsonValue → List JsonValue
visited null = []
visited (array es) = elements es
visited (object ms) = member_values ms
visited v = v ∷ []

unfoldable pub type_error : Option JsonValue → JsonValue → Bytes → Result Bytes
type_error none v path = ok []
type_error (some t) v path = do
  expected ← get_string t
  ok (if value_has_type v expected then [] else path ++ (lit " must be " ++ expected))

unfoldable pub required_error : List JsonValue → Members → Bytes → Result Bytes
required_error [] vs path = ok []
required_error (r ∷ rs) vs path = do
  name ← get_string r
  if is_some (find_member name vs)
      then required_error rs vs path
      else ok (path ++ (lit "." ++ (name ++ lit " is required")))

abbrev pub visited_of : Option JsonValue → List JsonValue
visited_of none = []
visited_of (some v) = visited v

abbrev pub declared : Option JsonValue → Bytes → Bool
declared none key = false
declared (some ps) key = is_some (find key ps)

abbrev pub below : Bytes → Bytes → Bytes
below path key = path ++ (lit "." ++ key)

-- The loop over the members of the value that `properties` does not declare.
unfoldable pub each_undeclared :
    (JsonValue → Bytes → Result Bytes) → Option JsonValue → Members → Bytes → Result Bytes
each_undeclared f ps end path = ok []
each_undeclared f ps (member k v vs) path =
    first_error (if declared ps k then ok [] else f v (below path k)) (each_undeclared f ps vs path)

unfoldable pub each_item : (JsonValue → Bytes → Result Bytes) → Elements → ℕ → Bytes → Result Bytes
each_item f nil index path = ok []
each_item f (cons v es) index path =
    first_error (f v (path ++ (lit "[" ++ (to_string index ++ lit "]"))))
      (each_item f es (index + 1) path)

unfoldable pub check_object :
    Members → (properties additional : Members → Result Bytes) → JsonValue → Bytes → Result Bytes
check_object ms properties additional (object vs) path =
    first_error (required_error (visited_of (find_member (lit "required") ms)) vs path)
      (first_error (properties vs) (additional vs))
check_object ms properties additional _ path = ok []

unfoldable pub check_array : (Elements → Result Bytes) → JsonValue → Result Bytes
check_array items (array es) = items es
check_array items _ = ok []

-- `operator==` of the JSON library is a parameter.
module _ (json_equal : JsonValue → JsonValue → Bool) where
  unfoldable pub enum_error : Option JsonValue → JsonValue → Bytes → Result Bytes
  enum_error none v path = ok []
  enum_error (some es) v path = ok (
      if any (λ e. json_equal e v) (visited es)
      then []
      else path ++ lit " is not one of the allowed enum values")

  -- The checks of a value against one schema object in their order.
  unfoldable pub check_value :
      Members
      → (properties additional : Members → Result Bytes) → (Elements → Result Bytes)
      → JsonValue
      → Bytes
      → Result Bytes
  check_value ms properties additional items v path =
      first_error (type_error (find_member (lit "type") ms) v path) (
        first_error (enum_error (find_member (lit "enum") ms) v path)
          (first_error (check_object ms properties additional v path) (check_array items v)))

  unfoldable mutual
    pub validate_value_against_schema : JsonValue → JsonValue → Bytes → Result Bytes
    validate_value_against_schema (object ms) v path =
        check_value ms (λ vs. properties_error ms vs path)
          (λ vs. additional_error ms (find_member (lit "properties") ms) vs path)
          (λ es. items_error ms es path) v path
    validate_value_against_schema _ v path = ok []

    pub properties_error : Members → Members → Bytes → Result Bytes
    properties_error end vs path = ok []
    properties_error (member k v ms) vs path = elim (same k (lit "properties")) [
      | true ↦ check_properties v vs path
      | false ↦ properties_error ms vs path
    ]

    -- `iterator.key()` throws where the schema's `properties` is no object.
    pub check_properties : JsonValue → Members → Bytes → Result Bytes
    check_properties (object ps) vs path = check_each ps vs path
    check_properties null vs path = ok []
    check_properties (array nil) vs path = ok []
    check_properties _ vs path = err json_exception

    pub check_each : Members → Members → Bytes → Result Bytes
    check_each end vs path = ok []
    check_each (member k s ps) vs path =
        first_error
          (elim (find_member k vs) [
            | none ↦ ok []
            | some argument ↦ validate_value_against_schema s argument (below path k)
          ])
          (check_each ps vs path)

    pub additional_error : Members → Option JsonValue → Members → Bytes → Result Bytes
    additional_error end ps vs path = ok []
    additional_error (member k v ms) ps vs path = elim (same k (lit "additionalProperties")) [
      | true ↦ each_undeclared (check_additional v) ps vs path
      | false ↦ additional_error ms ps vs path
    ]

    pub check_additional : JsonValue → JsonValue → Bytes → Result Bytes
    check_additional (boolean true) v path = ok []
    check_additional (boolean false) v path = ok (path ++ lit " is not allowed")
    check_additional (object ms) v path =
        check_value ms (λ vs. properties_error ms vs path)
          (λ vs. additional_error ms (find_member (lit "properties") ms) vs path)
          (λ es. items_error ms es path) v path
    check_additional _ v path = ok []

    pub items_error : Members → Elements → Bytes → Result Bytes
    items_error end es path = ok []
    items_error (member k v ms) es path = elim (same k (lit "items")) [
      | true ↦ each_item (validate_value_against_schema v) es 0 path
      | false ↦ items_error ms es path
    ]
