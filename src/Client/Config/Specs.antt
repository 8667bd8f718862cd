-- ===== src/Client/Config/Specs.antt =====
-- The two checks of a tool specification, by the client's constructor (src/client.cpp) and by
-- `FunctionTool` (src/tool.cpp).
use neural_plus.Prelude.{
  Bytes, lit, same, ◌≡◌, refl, sym, ◌∙◌, Bool, true, false, Bool-cases, inl, inr, not, Option, none,
  some, List, [], ◌∷◌, all, is_empty, arith,
}
use neural_plus.Outcome.{ok, throw_if-ok, >>-eq-ok}
use neural_plus.Json.{
  JsonValue, string, array, object, Members, end, member, elements, find_member, find, is_object,
}
use neural_plus.Types.Records.{ToolSpec}
use neural_plus.Schema.{
  check_required, check_names, properties_definition, validate_properties,
  validate_schema_definition,
}
use neural_plus.Schema.Totality.{definition_steps-ok}
use neural_plus.Tool
use neural_plus.Tool.{
  ascii_alphanumeric, portable_characters, is_portable_tool_name, validate_required_entries,
  validate_required, bad_entry, object_or_absent, required_or_absent, is_object_type,
}
use neural_plus.Client.Config
use neural_plus.Client.Config.{valid_character, valid_tool_name, check_root, require_json_object}

characters_agree : (cs : Bytes) → all valid_character cs ≡ portable_characters cs
unfolding portable_characters ascii_alphanumeric
characters_agree [] = refl
characters_agree (c ∷ cs) = ground (arith, characters_agree cs)

-- The constructor of the client and `FunctionTool` accept the same tool names.
pub names_agree : (name : Bytes) → valid_tool_name name ≡ is_portable_tool_name name
unfolding valid_tool_name is_portable_tool_name
names_agree name = ground (arith, characters_agree name)

entries_pass :
    (vs : List JsonValue) (location : Bytes)
    → check_names vs location ≡ ok tt
    → validate_required_entries vs ≡ ok tt
unfolding check_names validate_required_entries
entries_pass [] location h = refl
entries_pass (string s ∷ vs) location h = ground (arith, entries_pass vs location)
entries_pass (v ∷ vs) location h = cc

required_pass :
    (v : Option JsonValue) (location : Bytes)
    → check_required v location ≡ ok tt
    → required_or_absent v ≡ ok tt
unfolding check_required validate_required
required_pass none location h = refl
required_pass (some (array es)) location h = entries_pass (elements es) location h
required_pass (some v) location h = cc

properties_pass :
    (ms : Members) (location : Bytes)
    → properties_definition ms location ≡ ok tt
    → object_or_absent (find_member (lit "properties") ms) ≡ true
unfolding properties_definition find_member
properties_pass end location h = refl
properties_pass (member k v ms) location h = elim (Bool-cases (same k (lit "properties"))) [
  | inl e ↦ rw (e, find_member) (properties_object v (rw (e, properties_definition) at h))
  | inr e ↦ rw (e, find_member) (properties_pass ms location (rw (e, properties_definition) at h))
]
  where
    properties_object :
        (v : JsonValue) → validate_properties v location ≡ ok tt → is_object v ≡ true
    properties_object (object ps) g = refl
    properties_object v g = cc

root_pass :
    (v : Option JsonValue) (name : Bytes) → check_root v name ≡ ok tt → is_object_type v ≡ true
unfolding check_root
root_pass none name h = cc
root_pass (some (string t)) name h = ground arith
root_pass (some v) name h = cc

schema_pass :
    (schema : JsonValue) (location : Bytes)
    → validate_schema_definition schema location ≡ ok tt
    → (is_object schema ≡ true)
      × (object_or_absent (find (lit "properties") schema) ≡ true)
      × (required_or_absent (find (lit "required") schema) ≡ ok tt)
unfolding validate_schema_definition
schema_pass (object ms) location h =
    let steps = definition_steps-ok ms location _ _ _ h in
    (refl, properties_pass ms location steps.properties, required_pass _ location steps.required)
schema_pass v location h = cc

tool_accepts :
    (spec : ToolSpec)
    → is_portable_tool_name spec.name ≡ true
    → is_empty spec.description ≡ false
    → is_object spec.input_schema ≡ true
    → is_object spec.provider_options ≡ true
    → is_object_type (find (lit "type") spec.input_schema) ≡ true
    → object_or_absent (find (lit "properties") spec.input_schema) ≡ true
    → required_or_absent (find (lit "required") spec.input_schema) ≡ ok tt
    → Tool.validate_tool_spec spec ≡ ok tt
unfolding Tool.validate_tool_spec
tool_accepts spec name description schema options root properties required = ground arith

unnegated : (b : Bool) → not b ≡ false → b ≡ true
unnegated true h = refl
unnegated false h = cc

-- Every specification that the constructor of the client accepts is one that `FunctionTool` accepts.
pub accepted_specs :
    (spec : ToolSpec)
    → Config.validate_tool_spec spec ≡ ok tt
    → Tool.validate_tool_spec spec ≡ ok tt
unfolding Config.validate_tool_spec require_json_object
accepted_specs spec h =
    let (named, r₁) = >>-eq-ok _ _ h in
    let (described, r₂) = >>-eq-ok _ _ r₁ in
    let (defined, r₃) = >>-eq-ok _ _ r₂ in
    let (optioned, rooted) = >>-eq-ok _ _ r₃ in
    let (is, properties, required) = schema_pass spec.input_schema _ defined in
    tool_accepts spec (sym (names_agree spec.name) ∙ unnegated _ (throw_if-ok _ _ named))
      (throw_if-ok _ _ described) is (unnegated _ (throw_if-ok _ _ optioned))
      (root_pass _ spec.name rooted) properties required
