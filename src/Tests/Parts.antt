-- ===== src/Tests/Parts.antt =====
-- Runs of src/session.cpp, include/neuralplus/session.hpp, src/types.cpp and the usage and schema code of
-- src/client.cpp.
use neural_plus.Prelude.{
  ℕ, zero, suc, ◌+◌, ◌≤◌, Bytes, lit, ◌≡◌, refl, ◌≢◌, ◌↔◌, Bool, true, false, Option, none, some,
  List, [], ◌∷◌, ◌++◌, map, any, same, ◌==◌, not, ◌&&◌, ◌||◌, arith, if◌then◌else◌,
}
use neural_plus.Outcome.{Result, ok, err, application_error, bad_any_cast}
use neural_plus.Json.{
  JsonValue, boolean, string, array, object, find_member, nil, cons, end, member,
}
use neural_plus.Types.Enums.{Role, ContentType, ContentSource}
use neural_plus.Types.Content
use neural_plus.Types.Content.{Content, empty_object}
use neural_plus.Types.Message
use neural_plus.Types.Message.{Message, ToolCall, message_text}
use neural_plus.Types.Records.{TokenUsage, no_usage}
use neural_plus.Types.Validity.{
  by_file_bytes, IsWellFormed, Made-IsWellFormed, by_tool, HasRoleShape, MadeMessage-HasRoleShape,
}
use neural_plus.Session.{Session, SessionOptions, construct, acquire, append_from_client, is_system}
use neural_plus.Session.Exclusion.{
  Shared, Step, acquires, client_appends, Reach, here, next, fresh, lease_exclusion, leased_frozen,
  leased_grows,
}
use neural_plus.Session.Exclusion
use neural_plus.Session.Cache
use neural_plus.Session.Cache.{Cache}
use neural_plus.Session.Cache.Laws.{
  cache_laws, update_lem, current_or, updated_result, updated_value,
}
use neural_plus.Schema.{
  validate_schema_definition, validate_value_against_schema, definition_steps, check_type,
  check_names, supported_type, check_required, check_enum, check_value, first_error, type_error,
  value_has_type, enum_error, check_object, required_error,
}
use neural_plus.Schema.Totality.{validated_schema_never_throws}
use neural_plus.Client.Usage.{size_max, add_usage, add_count}
use neural_plus.Client.Usage.Totals.{
  Field, field_of, add_rounds, sum_reported, or_zero, sum_present, usage_totals,
  usage_totals_accepted,
}

abbrev hello : Message
hello = Message.user_text (lit "hello")

abbrev options : SessionOptions
options = record { id = lit "s"; system_message = some (lit "be brief"); messages = hello ∷ [] }

abbrev idle : Session
idle = record {
  id = lit "s";
  system_message = some (lit "be brief");
  messages = hello ∷ [];
  active = false;
}

abbrev busy : Session
busy = record idle { active = true }

abbrev busy_twice : Session
busy_twice = record busy { messages = hello ∷ hello ∷ [] }

abbrev leased : Shared
leased = record { session = busy; leases = 1 }

constructs : (construct 1 options).0 ≡ ok idle
unfolding construct Message.user_text Message.user lit
constructs = refl

acquires_idle : acquire idle ≡ ok busy
unfolding acquire
acquires_idle = refl

appends_hello : append_from_client hello busy ≡ ok busy_twice
unfolding append_from_client Message.user_text
appends_hello = refl

lease_exclusion_example :
    (leased.leases ≤ 1)
    × ((busy.active ≡ true) ↔ (leased.leases ≡ 1))
    × (any is_system busy.messages ≡ false)
    × (busy.system_message ≢ some [])
lease_exclusion_example =
    lease_exclusion 1 options idle leased constructs
      (next here (acquires (fresh idle) busy acquires_idle))

-- Nobody else ends the lease or clears the history.
abbrev cleared : Shared
cleared = record { session = record busy { messages = [] }; leases = 1 }

leased_frozen_example : ¬ Step Exclusion.anyone leased cleared
leased_frozen_example = leased_frozen refl

leased_grows_example : (more : List Message) × (busy_twice.messages ≡ busy.messages ++ more)
leased_grows_example =
    leased_grows refl (client_appends leased hello busy_twice (omega arith) appends_hello)

-- Two counts of one round and of another, one of them missing from the second.
abbrev first_round : TokenUsage
first_round = record no_usage { input_tokens = some 7; output_tokens = some 2 }

abbrev second_round : TokenUsage
second_round = record no_usage { input_tokens = some 5 }

abbrev both_rounds : TokenUsage
both_rounds = record no_usage { input_tokens = some 12 }

adds : add_rounds no_usage (first_round ∷ second_round ∷ []) true ≡ ok both_rounds
unfolding add_rounds add_usage add_count
adds = refl

usage_totals_example :
    (field_of Field.input both_rounds
      ≡ sum_reported (map (field_of Field.input) (first_round ∷ second_round ∷ [])))
    × (or_zero (field_of Field.input both_rounds) ≤ size_max)
usage_totals_example =
    usage_totals first_round both_rounds (second_round ∷ []) Field.input (omega arith) adds

fits : (k : Field) → sum_present (map (field_of k) (first_round ∷ second_round ∷ [])) ≤ size_max
fits Field.input = omega arith
fits Field.output = omega arith
fits Field.total = omega arith
fits Field.cached = omega arith
fits Field.creation = omega arith
fits Field.reasoning = omega arith

usage_totals_accepted_example :
    (r : TokenUsage) × (add_rounds no_usage (first_round ∷ second_round ∷ []) true ≡ ok r)
usage_totals_accepted_example = usage_totals_accepted first_round (second_round ∷ []) fits

-- Values are numbers, and odd and even numbers play two types.
abbrev parity : ℕ → ℕ
parity zero = 0
parity (suc zero) = 1
parity (suc (suc n)) = parity n

abbrev stored : Cache ℕ
stored = (lit "a", 3) ∷ (lit "b", 4) ∷ []

cache_laws_example :
    (Cache.get parity 1 (lit "b") (Cache.set (lit "a") 5 stored) ≡ (
      if same (lit "a") (lit "b")
      then (if parity 5 == 1 then ok (some 5) else err bad_any_cast)
      else Cache.get parity 1 (lit "b") stored))
    × (Cache.get parity 1 (lit "b") (Cache.erase (lit "a") stored)
        ≡ (if same (lit "a") (lit "b") then ok none else Cache.get parity 1 (lit "b") stored))
    × (Cache.contains (lit "b") (Cache.set (lit "a") 5 stored)
        ≡ (same (lit "a") (lit "b") || Cache.contains (lit "b") stored))
    × (Cache.contains (lit "b") (Cache.erase (lit "a") stored)
        ≡ (not (same (lit "a") (lit "b")) && Cache.contains (lit "b") stored))
    × (Cache.get parity 1 (lit "b") (Cache.clear stored) ≡ ok none)
cache_laws_example = cache_laws parity (lit "a") 5 stored 1 (lit "b")

-- Values at the odd type are odd numbers; the callback changes its argument and throws.
abbrev odd : ℕ → Option ℕ
odd n = if parity n == 1 then some n else none

abbrev change_and_throw : ℕ → Result ℕ × ℕ
change_and_throw n = (err (application_error (lit "no")), n + 2)

update_lem_example :
    ((Cache.update (λ n. n) odd (lit "a") 9 change_and_throw stored).0
      ≡ updated_result (λ n. n) odd change_and_throw (current_or (Cache.lookup (lit "a") stored) 9))
    × (Cache.lookup (lit "a") (Cache.update (λ n. n) odd (lit "a") 9 change_and_throw stored).1 ≡ (
        if same (lit "a") (lit "a")
        then some (
            updated_value
              (λ n. n)
              odd
              change_and_throw
              (current_or (Cache.lookup (lit "a") stored) 9))
        else Cache.lookup (lit "a") stored))
update_lem_example = update_lem (λ n. n) odd (lit "a") (lit "a") 9 change_and_throw stored

abbrev document : Content
document = record (Content.blank ContentType.file ContentSource.bytes) {
  bytes = 1 ∷ 2 ∷ [];
  media_type = lit "text/plain";
  filename = lit "a.txt";
}

makes_document :
    Content.file_bytes (1 ∷ 2 ∷ []) (lit "text/plain") (lit "a.txt") empty_object ≡ ok document
unfolding Content.file_bytes lit
makes_document = refl

Made-IsWellFormed_example : IsWellFormed document
Made-IsWellFormed_example =
    Made-IsWellFormed document
      (by_file_bytes (1 ∷ 2 ∷ []) (lit "text/plain") (lit "a.txt") empty_object makes_document)

abbrev answer : Message
answer = record (Message.of_role Role.tool) {
  contents = Content.text (lit "42") ∷ [];
  tool_call_id = lit "call-1";
  tool_name = lit "clock";
}

makes_answer :
    Message.tool (lit "call-1") (lit "clock") (Content.text (lit "42") ∷ []) false ≡ ok answer
unfolding Message.tool lit
makes_answer = refl

MadeMessage-HasRoleShape_example : HasRoleShape answer
MadeMessage-HasRoleShape_example =
    MadeMessage-HasRoleShape answer
      (by_tool (lit "call-1") (lit "clock") (Content.text (lit "42") ∷ []) false makes_answer)

-- An object with one integer property, which is required, and no other member.
abbrev integer_schema : JsonValue
integer_schema = object (member (lit "type") (string (lit "integer")) end)

abbrev schema : JsonValue
schema = object (
    member (lit "additionalProperties") (boolean false) (
      member (lit "properties") (object (member (lit "n") integer_schema end)) (
        member (lit "required") (array (cons (string (lit "n")) nil))
          (member (lit "type") (string (lit "object")) end))))

abbrev arguments : JsonValue
arguments = object (member (lit "n") (string (lit "three")) end)

abbrev never_equal : JsonValue → JsonValue → Bool
never_equal v w = false

accepts : validate_schema_definition schema (lit "s") ≡ ok tt
unfolding validate_schema_definition definition_steps check_type check_names supported_type
    check_required check_enum find_member same lit
accepts = refl

rejects :
    validate_value_against_schema never_equal schema arguments (lit "$")
    ≡ ok (lit "$.n must be integer")
unfolding validate_value_against_schema check_value first_error type_error value_has_type enum_error
    check_object required_error find_member same lit
rejects = refl

validated_schema_never_throws_example :
    (message : Bytes) × (validate_value_against_schema never_equal schema arguments (lit "$")
      ≡ ok message)
validated_schema_never_throws_example =
    validated_schema_never_throws never_equal schema (lit "s") arguments (lit "$") accepts
