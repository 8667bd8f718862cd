-- ===== src/Gemini/Checks.antt =====
-- The checks of one part of a response of src/providers/gemini.cpp.
use neural_plus.Prelude.{
  ℕ, ◌+◌, ℤ, Bytes, lit, Bool, true, false, not, ◌||◌, Option, none, some, List, [], ◌∷◌, all, ltb,
}
use neural_plus.Outcome.{Result, ok, err, Error, provider_error, throw_if, ◌>>◌}
use neural_plus.Json.{JsonValue, boolean, object, Members, find_member, is_string, is_object}
use neural_plus.Provider.Fields.{is_filled}
use neural_plus.Gemini.Parts.{the_provider}

abbrev pub is_text_or_absent : Option JsonValue → Bool
is_text_or_absent none = true
is_text_or_absent (some v) = is_string v

abbrev pub is_boolean_or_absent : Option JsonValue → Bool
is_boolean_or_absent none = true
is_boolean_or_absent (some (boolean b)) = true
is_boolean_or_absent (some _) = false

abbrev pub is_object_or_absent : Option JsonValue → Bool
is_object_or_absent none = true
is_object_or_absent (some v) = is_object v

abbrev pub count_present : List Bytes → Members → ℕ
count_present [] ms = 0
count_present (field ∷ fields) ms =
    elim (find_member field ms) [ none ↦ 0 | some v ↦ 1 ] + count_present fields ms

abbrev pub payload_fields : List Bytes
payload_fields =
    lit "text"
    ∷ lit "inlineData"
    ∷ lit "fileData"
    ∷ lit "functionCall"
    ∷ lit "functionResponse"
    ∷ lit "executableCode"
    ∷ lit "codeExecutionResult"
    ∷ []

module _ (status : ℤ) (request_id : Bytes) where
  abbrev pub malformed : Bytes → Error
  malformed message =
      provider_error message the_provider status (lit "malformed_response") request_id

  abbrev pub check_fields : List Bytes → Bytes → Members → Result (Unit {0})
  check_fields fields message media =
      throw_if (not (all (λ field. is_text_or_absent (find_member field media)) fields))
        (malformed message)

  unfoldable pub check_inline_data : Option JsonValue → Result (Unit {0})
  unfolding find_member lit
  check_inline_data none = ok tt
  check_inline_data (some (object media)) =
      check_fields (lit "mimeType" ∷ lit "data" ∷ lit "displayName" ∷ [])
        (lit "Gemini response inlineData string field has an invalid type") media
  check_inline_data (some _) = err (malformed (lit "Gemini response inlineData must be an object"))

  unfoldable pub check_file_data : Option JsonValue → Result (Unit {0})
  unfolding find_member lit
  check_file_data none = ok tt
  check_file_data (some (object media)) =
      check_fields (lit "mimeType" ∷ lit "fileUri" ∷ lit "displayName" ∷ [])
        (lit "Gemini response fileData string field has an invalid type") media
  check_file_data (some _) = err (malformed (lit "Gemini response fileData must be an object"))

  unfoldable pub check_function_call : Option JsonValue → Result (Unit {0})
  unfolding find_member lit
  check_function_call none = ok tt
  check_function_call (some (object call)) =
      throw_if
        (not (is_text_or_absent (find_member (lit "id") call))
          || not (is_filled (find_member (lit "name") call))
          || not (is_object_or_absent (find_member (lit "args") call)))
        (malformed (lit "Gemini response functionCall has invalid id, non-empty name, or args"))
  check_function_call (some _) =
      err (malformed (lit "Gemini response functionCall must be an object"))

  -- All checks that come before a part is read.
  unfoldable pub check_part : Members → Result (Unit {0})
  unfolding check_inline_data check_file_data check_function_call find_member lit
  check_part part = do
    throw_if (not (is_text_or_absent (find_member (lit "text") part)))
        (malformed (lit "Gemini response text part must contain a string"))
    throw_if (not (is_boolean_or_absent (find_member (lit "thought") part)))
        (malformed (lit "Gemini response thought marker must be a boolean"))
    throw_if (not (is_text_or_absent (find_member (lit "thoughtSignature") part)))
        (malformed (lit "Gemini response thought signature must be a string"))
    check_inline_data (find_member (lit "inlineData") part)
    check_file_data (find_member (lit "fileData") part)
    check_function_call (find_member (lit "functionCall") part)
    throw_if (ltb 1 (count_present payload_fields part))
        (malformed (lit "Gemini response Part contains multiple mutually exclusive payload fields"))
