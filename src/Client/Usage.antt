-- ===== src/Client/Usage.antt =====
-- `add_count` and `add_usage` of src/client.cpp: token counts summed over the rounds, in `std::size_t`.
pub mod Totals
use neural_plus.Prelude.{
  ℕ, ◌+◌, ◌-◌, ◌^◌, Bytes, lit, Bool, true, false, Option, none, some, List, [], ltb, if◌then◌else◌,
}
use neural_plus.Prelude.{pos}
use neural_plus.Outcome.{Result, ok, err, Error, provider_error, ◌>>=◌}
use neural_plus.Types.Enums.{Provider, custom}
use neural_plus.Types.Records.{TokenUsage}

-- `std::numeric_limits<std::size_t>::max()`.
abbrev pub size_max : ℕ
size_max = 2 ^ 64 - 1

unfoldable pub add_count : Option ℕ → Option ℕ → Bool → Result (Option ℕ)
add_count total none first_value = ok none
add_count total (some value) true = ok (some value)
add_count none (some value) false = ok none
add_count (some current) (some value) false =
    if ltb (size_max - current) value
    then err (provider_error (lit "token usage overflow") Provider.custom (pos 0) [] [])
    else ok (some (current + value))

unfoldable pub add_usage : TokenUsage → TokenUsage → Bool → Result TokenUsage
add_usage total value first_value = do
  input ← add_count total.input_tokens value.input_tokens first_value
  output ← add_count total.output_tokens value.output_tokens first_value
  sum ← add_count total.total_tokens value.total_tokens first_value
  cached ← add_count total.cached_input_tokens value.cached_input_tokens first_value
  creation ←
      add_count total.cache_creation_input_tokens value.cache_creation_input_tokens first_value
  reasoning ← add_count total.reasoning_tokens value.reasoning_tokens first_value
  ok (record {
    input_tokens = input;
    output_tokens = output;
    total_tokens = sum;
    cached_input_tokens = cached;
    cache_creation_input_tokens = creation;
    reasoning_tokens = reasoning;
  })
