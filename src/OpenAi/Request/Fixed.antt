-- ===== src/OpenAi/Request/Fixed.antt =====
-- What the options of a request to OpenAI cannot change.
use neural_plus.Prelude.{
  Bytes, lit, same, ◌≡◌, refl, sym, ap, ◌∙◌, false, Option, some, List, [], ◌∷◌, ◌++◌,
}
use neural_plus.Outcome.{ok, ◌>>=◌, >>-eq-ok, >>=-eq-ok}
use neural_plus.Json.{
  JsonValue, boolean, string, array, object, Members, find, find_member, put_member, elements_of,
}
use neural_plus.Json.Lookup.{find_member-put_member}
use neural_plus.Types.Records.{ModelDescriptor, ToolSpec, GenerateOptions, AiRequest}
use neural_plus.Provider.Fields.{merged_provider_options, elements_or_none, members_of}
use neural_plus.Provider.Fields.Lookup.{find_member-other, find_member-put_optional}
use neural_plus.OpenAi.Request.{
  check_tools, add_tools, base_body, with_limits, with_instructions, declarations, text_value,
  history, make_openai_request,
}

find_tools-add_tools :
    (asked : Bytes) (tools : List ToolSpec) (body result : Members)
    → same (lit "tools") asked ≡ false
    → add_tools tools body ≡ ok result
    → find_member asked result ≡ find_member asked body
unfolding add_tools
find_tools-add_tools asked [] body result h e =
    let (checked, q) = >>-eq-ok (check_tools (find_member (lit "tools") body)) (ok body) e in
    let r : body ≡ result = cc in ap (find_member asked) (sym r)
find_tools-add_tools asked (t ∷ ts) body result h e =
    let configured = elements_or_none (find_member (lit "tools") body) in
    let next = λ (made : List JsonValue).
      ok (put_member (lit "tools") (array (elements_of (configured ++ made))) body) in
    let (checked, q) =
      >>-eq-ok (check_tools (find_member (lit "tools") body)) (declarations (t ∷ ts) >>= next) e in
    let (made, d, l) = >>=-eq-ok (declarations (t ∷ ts)) next q in
    let tools = array (elements_of (configured ++ made)) in
    let r : put_member (lit "tools") tools body ≡ result = cc in
    ap (find_member asked) (sym r) ∙ find_member-other asked (lit "tools") tools body h

find_limits-with_limits :
    (asked : Bytes) (options : GenerateOptions) (body : Members)
    → same (lit "temperature") asked ≡ false
    → same (lit "max_output_tokens") asked ≡ false
    → find_member asked (with_limits options body) ≡ find_member asked body
unfolding with_limits
find_limits-with_limits asked options body h k =
    find_member-put_optional asked (lit "temperature") _ _ h
    ∙ find_member-put_optional asked (lit "max_output_tokens") _ body k

find_member-with_instructions :
    (asked : Bytes) (instructions : Option Bytes) (body : Members)
    → same (lit "instructions") asked ≡ false
    → find_member asked (with_instructions instructions body) ≡ find_member asked body
unfolding with_instructions
find_member-with_instructions asked instructions body =
    find_member-put_optional asked (lit "instructions") (text_value instructions) body

find_fixed-base_body :
    (merged : Members) (model_id : Bytes) (input : List JsonValue)
    → (find_member (lit "model") (base_body merged model_id input) ≡ some (string model_id))
      × (find_member (lit "stream") (base_body merged model_id input) ≡ some (boolean false))
      × (find_member (lit "background") (base_body merged model_id input) ≡ some (boolean false))
      × (find_member (lit "input") (base_body merged model_id input)
          ≡ some (array (elements_of input)))
unfolding base_body lit same
find_fixed-base_body merged model_id input =
    let named = put_member (lit "model") (string model_id) merged in
    let still = put_member (lit "stream") (boolean false) named in
    let waited = put_member (lit "background") (boolean false) still in
    let all = array (elements_of input) in
    (
      find_member-put_member (lit "model") (lit "input") all waited
          ∙ find_member-put_member (lit "model") (lit "background") (boolean false) still
          ∙ find_member-put_member (lit "model") (lit "stream") (boolean false) named
          ∙ find_member-put_member (lit "model") (lit "model") (string model_id) merged,
      find_member-put_member (lit "stream") (lit "input") all waited
          ∙ find_member-put_member (lit "stream") (lit "background") (boolean false) still
          ∙ find_member-put_member (lit "stream") (lit "stream") (boolean false) named,
      find_member-put_member (lit "background") (lit "input") all waited
          ∙ find_member-put_member (lit "background") (lit "background") (boolean false) still,
      find_member-put_member (lit "input") (lit "input") all waited,
    )

-- Whatever the provider options of the model and of the request say, the body of a request to OpenAI names
-- the model of the client, asks neither for a stream nor for a run in the background, and has the history
-- as its input.
pub make_openai_request-fixed :
    (model : ModelDescriptor) (request : AiRequest) (body : JsonValue)
    → make_openai_request model request ≡ ok body
    → (input : List JsonValue) × (history request.messages ≡ ok input)
      × (find (lit "model") body ≡ some (string model.id))
      × (find (lit "stream") body ≡ some (boolean false))
      × (find (lit "background") body ≡ some (boolean false))
      × (find (lit "input") body ≡ some (array (elements_of input)))
unfolding make_openai_request lit same
make_openai_request-fixed model request body h =
    let (merged, m, h₁) =
      >>=-eq-ok (merged_provider_options model.provider_options request.options.provider_options) _
        h in
    let (input, e, h₂) = >>=-eq-ok (history request.messages) _ h₁ in
    let base = base_body (members_of merged) model.id input in
    let instructed = with_instructions request.system_message base in
    let (tooled, t, h₃) =
      >>=-eq-ok (add_tools request.tools instructed)
        (λ made. ok (object (with_limits request.options made))) h₂ in
    let (a, b, c, d) = find_fixed-base_body (members_of merged) model.id input in
    let q : object (with_limits request.options tooled) ≡ body = cc in
    let find_again =
      λ (key : Bytes) (h : same (lit "temperature") key ≡ false)
          (k : same (lit "max_output_tokens") key ≡ false) (l : same (lit "tools") key ≡ false)
          (i : same (lit "instructions") key ≡ false).
        ap (find key) (sym q)
        ∙ find_limits-with_limits key request.options tooled h k
        ∙ find_tools-add_tools key request.tools instructed tooled l t
        ∙ find_member-with_instructions key request.system_message base i in
    (
      input,
      e,
      find_again (lit "model") refl refl refl refl ∙ a,
      find_again (lit "stream") refl refl refl refl ∙ b,
      find_again (lit "background") refl refl refl refl ∙ c,
      find_again (lit "input") refl refl refl refl ∙ d,
    )
