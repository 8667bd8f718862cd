-- ===== src/Compatible/Response/Named.antt =====
-- What the client's loop relies on in a response that was parsed.
use neural_plus.Prelude.{
  ℤ, Bytes, lit, ◌≡◌, refl, subst, Bool, true, false, Bool-cases, not, ◌||◌, inl, inr, ◌⊎◌, Option,
  none, some, Option-cases, List, [], ◌∷◌, is_empty, All, if◌then◌else◌,
}
use neural_plus.Outcome.{Result, ok, err, throw_if-ok, >>-eq-ok, >>=-eq-ok}
use neural_plus.Json.{
  JsonValue, null, boolean, integer, unsigned, float, string, array, object, Members, elements,
  find_member,
}
use neural_plus.Types.Enums.{Role, FinishReason}
use neural_plus.Types.Message.{Message, ToolCall}
use neural_plus.Types.Message
use neural_plus.Types.Records.{AiRequest, AiResponse}
use neural_plus.Transport.{HttpResponse}
use neural_plus.Provider.Redact.{JsonText}
use neural_plus.Provider.Fields.{
  successful_status, parse_response_json, string_field, throw_provider_error,
}
use neural_plus.Provider.Headers.{response_request_id}
use neural_plus.Compatible.Parts.{the_provider}
use neural_plus.Compatible.Shapes.{legacy_id, first_choice, compatible_finish_reason}
use neural_plus.Provider.Fields.{text_of, is_filled, is_present, members_or}
use neural_plus.Compatible.Contents.{message_contents, audio_contents, refusal_contents}
use neural_plus.Compatible.Calls.{
  made_call, function_call, native_tool_call, native_tool_calls, message_tool_calls, legacy_calls,
}
use neural_plus.Compatible.Response.{
  throw_compatible_http_error, response_message, choice_response, body_response,
  parse_compatible_response,
}

abbrev pub NamedCall : ToolCall → Type 0
NamedCall call = (is_empty call.id ≡ false) × (is_empty call.name ≡ false)

-- A property of the value that is returned.
abbrev Holds : {A : Type 0} → (A → Type 0) → Result A → Type 0
Holds P (ok a) = P a
Holds P (err e) = Unit

not_or : (a b : Bool) → (not a || b) ≡ false → a ≡ true
not_or true b h = refl
not_or false b h = cc

module _ (json : JsonText) (status : ℤ) (request_id : Bytes) where
  text_of-filled : (o : Option JsonValue) → is_filled o ≡ true → is_empty (text_of o) ≡ false
  text_of-filled none h = cc
  text_of-filled (some (string [])) h = cc
  text_of-filled (some (string (b ∷ s))) h = refl
  text_of-filled (some null) h = cc
  text_of-filled (some (boolean b)) h = cc
  text_of-filled (some (integer i)) h = cc
  text_of-filled (some (unsigned n)) h = cc
  text_of-filled (some (float x)) h = cc
  text_of-filled (some (array es)) h = cc
  text_of-filled (some (object ms)) h = cc

  function_call-NamedCall :
      (id type : Bytes) (function : Members) (native : JsonValue) (call : ToolCall)
      → is_empty id ≡ false
      → function_call json status request_id id type function native ≡ ok call
      → NamedCall call
  unfolding function_call
  function_call-NamedCall id type function native call filled h =
      let (a, k) = >>-eq-ok _ _ h in
      let (b, l) = >>-eq-ok _ _ k in
      let name = find_member (lit "name") function in
      let named = not_or (is_filled name) _ (throw_if-ok _ _ b) in
      let raw = text_of (find_member (lit "arguments") function) in
      let made : NamedCall (made_call json status request_id id (text_of name) raw native) =
        (filled, text_of-filled name named) in
      subst (Holds NamedCall) l made

  native_tool_call-NamedCall :
      (v : JsonValue) (call : ToolCall)
      → native_tool_call json status request_id v ≡ ok call
      → NamedCall call
  unfolding native_tool_call
  native_tool_call-NamedCall null call h = cc
  native_tool_call-NamedCall (boolean b) call h = cc
  native_tool_call-NamedCall (integer i) call h = cc
  native_tool_call-NamedCall (unsigned n) call h = cc
  native_tool_call-NamedCall (float x) call h = cc
  native_tool_call-NamedCall (string s) call h = cc
  native_tool_call-NamedCall (array es) call h = cc
  native_tool_call-NamedCall (object native) call h =
      let (a, k) = >>-eq-ok _ _ h in
      let id = find_member (lit "id") native in
      let filled = text_of-filled id (not_or (is_filled id) _ (throw_if-ok _ _ a)) in
      elim (Option-cases (members_or (find_member (lit "function") native))) [
        | inl e ↦ let g = rw e at k in cc
        | inr (function, e) ↦
            function_call-NamedCall (text_of id) (text_of (find_member (lit "type") native))
              function (object native) call filled (rw e at k)
      ]

  native_tool_calls-NamedCall :
      (vs : List JsonValue) (calls : List ToolCall)
      → native_tool_calls json status request_id vs ≡ ok calls
      → All NamedCall calls
  unfolding native_tool_calls
  native_tool_calls-NamedCall [] calls h = subst (Holds (All NamedCall)) h tt
  native_tool_calls-NamedCall (v ∷ vs) calls h =
      let (first, e, k) = >>=-eq-ok (native_tool_call json status request_id v) _ h in
      let (rest, f, l) =
        >>=-eq-ok (native_tool_calls json status request_id vs) (λ rest. ok (first ∷ rest)) k in
      subst (Holds (All NamedCall)) l
        (native_tool_call-NamedCall v first e, native_tool_calls-NamedCall vs rest f)

  message_tool_calls-NamedCall :
      (o : Option JsonValue) (calls : List ToolCall)
      → message_tool_calls json status request_id o ≡ ok calls
      → All NamedCall calls
  unfolding message_tool_calls
  message_tool_calls-NamedCall none calls h = subst (Holds (All NamedCall)) h tt
  message_tool_calls-NamedCall (some null) calls h = subst (Holds (All NamedCall)) h tt
  message_tool_calls-NamedCall (some (array es)) calls h =
      native_tool_calls-NamedCall (elements es) calls h
  message_tool_calls-NamedCall (some (boolean b)) calls h = cc
  message_tool_calls-NamedCall (some (integer i)) calls h = cc
  message_tool_calls-NamedCall (some (unsigned n)) calls h = cc
  message_tool_calls-NamedCall (some (float x)) calls h = cc
  message_tool_calls-NamedCall (some (string s)) calls h = cc
  message_tool_calls-NamedCall (some (object ms)) calls h = cc

  legacy_id-filled : (request : AiRequest) → is_empty (legacy_id request) ≡ false
  unfolding lit
  legacy_id-filled request = refl

  legacy_calls-NamedCall :
      (request : AiRequest) (o : Option JsonValue) (named calls : List ToolCall)
      → All NamedCall named
      → legacy_calls json status request_id request o named ≡ ok calls
      → All NamedCall calls
  unfolding legacy_calls
  legacy_calls-NamedCall request none named calls a h = subst (Holds (All NamedCall)) h a
  legacy_calls-NamedCall request (some null) named calls a h = subst (Holds (All NamedCall)) h a
  legacy_calls-NamedCall request (some (object function)) named calls a h =
      let (b, k) = >>-eq-ok _ _ h in
      let name = find_member (lit "name") function in
      let filled = text_of-filled name (not_or (is_filled name) _ (throw_if-ok _ _ b)) in
      elim (Bool-cases (is_empty named)) [
        | inl e ↦ subst (Holds (All NamedCall)) (rw e at k) ((legacy_id-filled request, filled), tt)
        | inr e ↦ subst (Holds (All NamedCall)) (rw e at k) a
      ]
  legacy_calls-NamedCall request (some (boolean b)) named calls a h = cc
  legacy_calls-NamedCall request (some (integer i)) named calls a h = cc
  legacy_calls-NamedCall request (some (unsigned n)) named calls a h = cc
  legacy_calls-NamedCall request (some (float x)) named calls a h = cc
  legacy_calls-NamedCall request (some (string s)) named calls a h = cc
  legacy_calls-NamedCall request (some (array es)) named calls a h = cc

  response_message-NamedCall :
      (request : AiRequest) (native : Members) (message : Message)
      → response_message json status request_id request native ≡ ok message
      → (message.role ≡ Role.assistant) × All NamedCall message.tool_calls
  unfolding response_message Message.assistant Message.set_provider_metadata Message.of_role
  response_message-NamedCall request native message h =
      let (contents, e, h₁) =
        >>=-eq-ok (message_contents status request_id (find_member (lit "content") native)) _ h in
      let (named, f, h₂) =
        >>=-eq-ok
          (message_tool_calls json status request_id (find_member (lit "tool_calls") native)) _
          h₁ in
      let (calls, g, h₃) =
        >>=-eq-ok
          (legacy_calls json status request_id request (find_member (lit "function_call") native)
            named)
          _ h₂ in
      let (sounds, k, h₄) =
        >>=-eq-ok
          (audio_contents status request_id (find_member (lit "audio") native)
            (refusal_contents status request_id (find_member (lit "refusal") native) contents))
          _ h₃ in
      subst (Holds (λ message. (message.role ≡ Role.assistant) × All NamedCall message.tool_calls))
        h₄
        (
          refl,
          legacy_calls-NamedCall request (find_member (lit "function_call") native) named calls
              (message_tool_calls-NamedCall (find_member (lit "tool_calls") native) named f) g,
        )

  finish_reason-calls :
      (reason : Bytes) (calls : List ToolCall) (refused : Bool)
      → (is_empty calls ≡ true)
        ⊎ (compatible_finish_reason reason (not (is_empty calls)) refused ≡ FinishReason.tool_calls)
  unfolding compatible_finish_reason
  finish_reason-calls reason [] refused = inl refl
  finish_reason-calls reason (call ∷ calls) refused = inr refl

  -- What a parsed response has.
  abbrev pub WellFormed : AiResponse → Type 0
  WellFormed response =
      (response.message.role ≡ Role.assistant)
      × All NamedCall response.message.tool_calls
      × ((is_empty response.message.tool_calls ≡ true)
          ⊎ (response.finish_reason ≡ FinishReason.tool_calls))

  choice_response-WellFormed :
      (request : AiRequest) (body choice native : Members) (response : AiResponse)
      → choice_response json status request_id request body choice native ≡ ok response
      → WellFormed response
  unfolding choice_response
  choice_response-WellFormed request body choice native response h =
      let (message, e, k) =
        >>=-eq-ok (response_message json status request_id request native) _ h in
      let (role, named) = response_message-NamedCall request native message e in
      subst (Holds WellFormed) k (
        role,
        named,
        finish_reason-calls (string_field (object choice) (lit "finish_reason")) message.tool_calls
            (is_present (find_member (lit "refusal") native)),
      )

  body_response-WellFormed :
      (request : AiRequest) (body : Members) (response : AiResponse)
      → body_response json status request_id request body ≡ ok response
      → WellFormed response
  unfolding body_response
  body_response-WellFormed request body response h =
      let choices = first_choice (find_member (lit "choices") body) in
      elim (Option-cases choices) [
        | inl e ↦ let g = rw (e, body_response) at h in cc
        | inr (choice, e) ↦
            let found = rw (e, body_response) at h in
            elim (Option-cases (members_or (find_member (lit "message") choice))) [
              | inl f ↦ let g = rw f at found in cc
              | inr (native, f) ↦
                  choice_response-WellFormed request body choice native response (rw f at found)
            ]
      ]

-- A response that was parsed has a successful status and a message of the assistant whose tool calls
-- all have an id and a name, and its finish reason is `tool_calls` where there is a call.
pub parse_compatible_response-WellFormed :
    (json : JsonText) (http : HttpResponse) (request : AiRequest) (response : AiResponse)
    → parse_compatible_response json http request ≡ ok response
    → (successful_status http.status ≡ true)
      × (response.message.role ≡ Role.assistant)
      × All NamedCall response.message.tool_calls
      × ((is_empty response.message.tool_calls ≡ true)
          ⊎ (response.finish_reason ≡ FinishReason.tool_calls))
unfolding parse_compatible_response throw_compatible_http_error throw_provider_error
parse_compatible_response-WellFormed json http request response h =
    elim (Bool-cases (successful_status http.status)) [
      | inr e ↦ let g = rw e at h in cc
      | inl e ↦
          let header_id = response_request_id http (lit "x-request-id" ∷ []) in
          let (body, f, k) =
            >>=-eq-ok (parse_response_json json http the_provider header_id) _ (rw e at h) in
          let id =
            if is_empty header_id then string_field (object body) (lit "id") else header_id in
          let (role, named, finish) =
            body_response-WellFormed json http.status id request body response k in
          (e, role, named, finish)
    ]
