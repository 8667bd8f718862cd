-- ===== src/Client/Input.antt =====
-- What `AIClient::generate` checks before it takes the lease: `validate_input` of src/client.cpp and
-- the tests on the options. A `double` is its 64-bit pattern.
use neural_plus.Prelude.{
  ℕ, ◌/◌, ◌%◌, ◌^◌, ◌-◌, Bytes, lit, same, Bool, true, false, not, ◌||◌, Option, none, some, List,
  [], ◌∷◌, is_empty, ltb, ◌==◌,
}
use neural_plus.Outcome.{Result, ok, invalid_argument, throw_if, ◌>>◌}
use neural_plus.Json.{is_object}
use neural_plus.Types.Enums.{Role, ContentType, provider_to_string}
use neural_plus.Types.Content.{Content}
use neural_plus.Types.Message.{Message}
use neural_plus.Types.Records.{ModelDescriptor, GenerateOptions}

abbrev refuse : Bool → Bytes → Result (Unit {0})
refuse b what = throw_if b (invalid_argument what)

unfoldable pub validate_part : ModelDescriptor → Content → Result (Unit {0})
validate_part model c = elim c.type [
  | ContentType.text ↦ do
    refuse (not model.capabilities.text_input) (lit "model does not support text input")
    refuse (is_empty c.value) (lit "text input must not be empty")
  | ContentType.image ↦
      refuse (not model.capabilities.image_input) (lit "model does not support image input")
  | ContentType.audio ↦
      refuse (not model.capabilities.audio_input) (lit "model does not support audio input")
  | ContentType.file ↦
      refuse (not model.capabilities.file_input) (lit "model does not support file input")
  | ContentType.extension ↦
      refuse (not (same c.provider (provider_to_string model.provider)))
        (lit "content extension does not match the configured provider")
]

unfoldable pub validate_parts : ModelDescriptor → List Content → Result (Unit {0})
unfolding validate_part
validate_parts model [] = ok tt
validate_parts model (c ∷ cs) = do validate_part model c; validate_parts model cs

abbrev pub is_user : Role → Bool
is_user Role.user = true
is_user _ = false

unfoldable pub validate_input : ModelDescriptor → Message → Result (Unit {0})
validate_input model input = do
  refuse (not (is_user input.role)) (lit "generate input must have user role")
  refuse (is_empty input.contents) (lit "generate input must contain content")
  validate_parts model input.contents

-- `std::isfinite`: the exponent is not all ones.
unfoldable pub is_finite : ℕ → Bool
is_finite bits = not (bits / 2 ^ 52 % 2 ^ 11 == 2 ^ 11 - 1)

-- `value < 0.0` of a finite value: the sign is set, and the value is not -0.0.
unfoldable pub is_negative : ℕ → Bool
is_negative bits = ltb (2 ^ 63) bits

abbrev pub bad_temperature : Option ℕ → Bool
bad_temperature none = false
bad_temperature (some t) = not (is_finite t) || is_negative t

abbrev pub zero_limit : Option ℕ → Bool
zero_limit none = false
zero_limit (some n) = n == 0

unfoldable pub validate_options : GenerateOptions → Result (Unit {0})
unfolding is_finite is_negative
validate_options options = do
  refuse (bad_temperature options.temperature)
      (lit "temperature must be finite and greater than or equal to zero")
  refuse (zero_limit options.max_output_tokens) (lit "max_output_tokens must be greater than zero")
  refuse (not (is_object options.provider_options)) (lit "provider_options must be a JSON object")
