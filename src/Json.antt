-- ===== src/Json.antt =====
-- The values that pass through `nlohmann::json` (`JsonValue` in include/neuralplus/types.hpp): one
-- constructor for each value kind that the library documents. An object is the library's
-- `std::map`, so its members stand in the order of their keys. Parsing, printing and `operator==`
-- of the library are no definitions here: they are parameters where they are used.
-- A float is the 64-bit pattern of the double.
pub mod Lookup
use neural_plus.Prelude.{
  ℕ, ℤ, Bytes, same, Bool, true, false, Option, none, some, List, [], ◌∷◌, ltb, if◌then◌else◌,
}

mutual
  pub data JsonValue : Type 0 where
    null : JsonValue
    boolean : Bool → JsonValue
    integer : ℤ → JsonValue
    unsigned : ℕ → JsonValue
    float : ℕ → JsonValue
    string : Bytes → JsonValue
    array : Elements → JsonValue
    object : Members → JsonValue

  pub data Elements : Type 0 where
    nil : Elements
    cons : JsonValue → Elements → Elements

  pub data Members : Type 0 where
    end : Members
    member : Bytes → JsonValue → Members → Members

abbrev pub is_object : JsonValue → Bool
is_object (object ms) = true
is_object _ = false

abbrev pub is_array : JsonValue → Bool
is_array (array es) = true
is_array _ = false

abbrev pub is_string : JsonValue → Bool
is_string (string s) = true
is_string _ = false

abbrev pub is_boolean : JsonValue → Bool
is_boolean (boolean b) = true
is_boolean _ = false

abbrev pub is_null : JsonValue → Bool
is_null null = true
is_null _ = false

-- True of the unsigned kind too.
abbrev pub is_number_integer : JsonValue → Bool
is_number_integer (integer i) = true
is_number_integer (unsigned n) = true
is_number_integer _ = false

abbrev pub is_number_unsigned : JsonValue → Bool
is_number_unsigned (unsigned n) = true
is_number_unsigned _ = false

abbrev pub is_number : JsonValue → Bool
is_number (float bits) = true
is_number v = is_number_integer v

abbrev pub elements : Elements → List JsonValue
elements nil = []
elements (cons v es) = v ∷ elements es

abbrev pub members : Members → List (Bytes × JsonValue)
members end = []
members (member k v ms) = (k, v) ∷ members ms

unfoldable pub find_member : Bytes → Members → Option JsonValue
find_member key end = none
find_member key (member k v ms) = if same k key then some v else find_member key ms

-- `find`: of a value that is no object it is `end()`.
abbrev pub find : Bytes → JsonValue → Option JsonValue
find key (object ms) = find_member key ms
find key _ = none

-- The order of `std::string`.
unfoldable pub less : Bytes → Bytes → Bool
less s [] = false
less [] (b ∷ t) = true
less (a ∷ s) (b ∷ t) =
    let rest = less s t in if ltb a b then true else if ltb b a then false else rest

-- `object[key] = v`.
unfoldable pub put_member : Bytes → JsonValue → Members → Members
put_member key v end = member key v end
put_member key v (member k w ms) =
    let later = member k w (put_member key v ms) in
    if same k key
    then member key v ms
    else if less key k
    then member key v (member k w ms)
    else later

-- `update` of one object by another, one member after the other.
unfoldable pub update_members : Members → Members → Members
update_members ms end = ms
update_members ms (member k v more) = update_members (put_member k v ms) more

-- `push_back` of each value to an empty array.
abbrev pub elements_of : List JsonValue → Elements
elements_of [] = nil
elements_of (v ∷ vs) = cons v (elements_of vs)

-- `JsonValue{{"k", v}, ...}`.
abbrev pub put_members : List (Bytes × JsonValue) → Members → Members
put_members [] ms = ms
put_members ((k, v) ∷ more) ms = put_members more (put_member k v ms)

abbrev pub json_object : List (Bytes × JsonValue) → JsonValue
json_object pairs = object (put_members pairs end)

-- `erase(key)`: the keys of a `std::map` are different.
unfoldable pub erase_member : Bytes → Members → Members
erase_member key end = end
erase_member key (member k v ms) = if same k key then ms else member k v (erase_member key ms)
