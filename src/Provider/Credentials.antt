-- ===== src/Provider/Credentials.antt =====
-- Credentials and the choice of the model (src/provider_common.cpp). The environment is a parameter:
-- `getenv`, with no value for a variable that is not set.
use neural_plus.Prelude.{
  Bytes, lit, same, Bool, true, false, not, Option, none, some, List, [], ◌∷◌, ◌++◌, is_empty,
  if◌then◌else◌,
}
use neural_plus.Outcome.{Result, ok, err, configuration_error, throw_if, ◌>>◌}
use neural_plus.Types.Enums.{Provider, provider_to_string}
use neural_plus.Types.Records.{ModelDescriptor, default_model, default_capabilities}

abbrev pub Environment : Type 0
Environment = Bytes → Option Bytes

-- A variable that is set to nothing has no value.
abbrev pub not_empty : Option Bytes → Option Bytes
not_empty none = none
not_empty (some value) = if is_empty value then none else some value

unfoldable pub environment_value : Environment → Bytes → Option Bytes
environment_value getenv name = if is_empty name then none else not_empty (getenv name)

unfoldable pub first_value : Environment → List Bytes → Option Bytes
unfolding environment_value
first_value getenv [] = none
first_value getenv (name ∷ names) = elim (environment_value getenv name) [
  | none ↦ first_value getenv names
  | some value ↦ some value
]

-- The names with " or " between them.
abbrev pub either_of : List Bytes → Bytes
either_of [] = []
either_of (name ∷ []) = name
either_of (name ∷ other ∷ names) = name ++ (lit " or " ++ either_of (other ∷ names))

unfoldable pub resolve_required_credential :
    Environment → Option Bytes → List Bytes → Bytes → Result Bytes
unfolding first_value
resolve_required_credential getenv (some value) environment_names provider_name = do
  throw_if (is_empty value) (configuration_error (provider_name ++ lit " API key cannot be empty"))
  ok value
resolve_required_credential getenv none environment_names provider_name =
    elim (first_value getenv environment_names) [
      | some value ↦ ok value
      | none ↦
          (let missing = provider_name ++ lit " API key is missing" in
            if is_empty environment_names
            then err (configuration_error missing)
            else err (
                configuration_error (
                  missing
                  ++ (lit "; set it explicitly or through " ++ either_of environment_names))))
    ]

unfoldable pub resolve_optional_credential :
    Environment → Option Bytes → Option Bytes → Result (Option Bytes)
unfolding environment_value
resolve_optional_credential getenv (some value) environment_name = do
  throw_if (is_empty value) (configuration_error (lit "API key cannot be empty"))
  ok (some value)
resolve_optional_credential getenv none none = ok none
resolve_optional_credential getenv none (some name) = do
  throw_if (is_empty name)
      (configuration_error (lit "API key environment variable name cannot be empty"))
  elim (environment_value getenv name) [
    | none ↦ err (configuration_error (lit "API key environment variable is not set: " ++ name))
    | some value ↦ ok (some value)
  ]

abbrev pub is_compatible : Provider → Bool
is_compatible Provider.openai_compatible = true
is_compatible _ = false

unfoldable pub make_model_descriptor : Provider → Bytes → Result ModelDescriptor
make_model_descriptor provider model_id = do
  throw_if (is_empty model_id) (configuration_error (lit "model id cannot be empty"))
  ok (record default_model {
    provider = provider;
    id = model_id;
    display_name = model_id;
    capabilities =
        if is_compatible provider then default_capabilities else record default_capabilities {
          image_input = true;
          tools = true;
          parallel_tool_calls = true;
        };
  })

abbrev pub same_provider : Provider → Provider → Bool
same_provider a b = same (provider_to_string a) (provider_to_string b)

unfoldable pub validate_provider : ModelDescriptor → Provider → Result (Unit {0})
unfolding provider_to_string
validate_provider model expected = do
  throw_if (not (same_provider model.provider expected)) (
      configuration_error (
        lit "model descriptor provider does not match client protocol: expected "
        ++ (provider_to_string expected ++ (lit ", got " ++ provider_to_string model.provider))))
  throw_if (is_empty model.id) (configuration_error (lit "model id cannot be empty"))
