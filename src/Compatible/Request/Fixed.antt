-- ===== src/Compatible/Request/Fixed.antt =====
-- What the options of a request cannot change.
use neural_plus.Prelude.{
  Bytes, lit, same, ◌≡◌, refl, sym, ap, ◌∙◌, false, some, List, [], ◌∷◌, ◌++◌,
}
use neural_plus.Outcome.{ok, >>-eq-ok, >>=-eq-ok}
use neural_plus.Json.{
  JsonValue, boolean, string, array, object, Members, find, find_member, put_member, elements_of,
}
use neural_plus.Json.Lookup.{find_member-put_member}
use neural_plus.Types.Records.{ModelDescriptor, ToolSpec, GenerateOptions, AiRequest}
use neural_plus.Provider.Fields.{merged_provider_options}
use neural_plus.Compatible.Request.{
  check_tools, append_tools, add_tools, base_body, with_limits, declarations, system_messages,
  compatible_system_instruction, history, make_compatible_request,
}
use neural_plus.Provider.Fields.{elements_or_none, members_of}
use neural_plus.Provider.Fields.Lookup.{find_member-other, find_member-put_optional}

find_member-append_tools :
    (asked : Bytes) (tools : List ToolSpec) (body result : Members)
    → same (lit "tools") asked ≡ false
    → append_tools tools body ≡ ok result
    → find_member asked result ≡ find_member asked body
unfolding append_tools
find_member-append_tools asked [] body result h e =
    let q : body ≡ result = cc in ap (find_member asked) (sym q)
find_member-append_tools asked (t ∷ ts) body result h e =
    let configured = elements_or_none (find_member (lit "tools") body) in
    let (made, d, l) =
      >>=-eq-ok (declarations (t ∷ ts))
        (λ made. ok (put_member (lit "tools") (array (elements_of (configured ++ made))) body)) e in
    let tools = array (elements_of (configured ++ made)) in
    let q : put_member (lit "tools") tools body ≡ result = cc in
    ap (find_member asked) (sym q) ∙ find_member-other asked (lit "tools") tools body h

find_member-add_tools :
    (asked : Bytes) (tools : List ToolSpec) (body result : Members)
    → same (lit "tools") asked ≡ false
    → add_tools tools body ≡ ok result
    → find_member asked result ≡ find_member asked body
unfolding add_tools
find_member-add_tools asked tools body result h e =
    find_member-append_tools asked tools body result h
      (>>-eq-ok (check_tools (find_member (lit "tools") body)) (append_tools tools body) e).1

find_member-with_limits :
    (asked : Bytes) (options : GenerateOptions) (body : Members)
    → same (lit "temperature") asked ≡ false
    → same (lit "max_tokens") asked ≡ false
    → find_member asked (with_limits options body) ≡ find_member asked body
find_member-with_limits asked options body h k =
    find_member-put_optional asked (lit "temperature") _ _ h
    ∙ find_member-put_optional asked (lit "max_tokens") _ body k

find_member-base_body :
    (merged : Members) (model_id system : Bytes) (messages : List JsonValue)
    → (find_member (lit "model") (base_body merged model_id system messages)
        ≡ some (string model_id))
      × (find_member (lit "stream") (base_body merged model_id system messages)
          ≡ some (boolean false))
      × (find_member (lit "messages") (base_body merged model_id system messages)
          ≡ some (array (elements_of (system_messages system ++ messages))))
unfolding base_body lit same
find_member-base_body merged model_id system messages =
    let named = put_member (lit "model") (string model_id) merged in
    let still = put_member (lit "stream") (boolean false) named in
    let all = array (elements_of (system_messages system ++ messages)) in
    (
      find_member-put_member (lit "model") (lit "messages") all still
          ∙ find_member-put_member (lit "model") (lit "stream") (boolean false) named
          ∙ find_member-put_member (lit "model") (lit "model") (string model_id) merged,
      find_member-put_member (lit "stream") (lit "messages") all still
          ∙ find_member-put_member (lit "stream") (lit "stream") (boolean false) named,
      find_member-put_member (lit "messages") (lit "messages") all still,
    )

-- Whatever the provider options of the model and of the request say, the body of a request names the
-- model of the client, asks for no stream, and has the system instruction and the history as its messages.
pub make_compatible_request-fixed :
    (model : ModelDescriptor) (request : AiRequest) (body : JsonValue)
    → make_compatible_request model request ≡ ok body
    → (messages : List JsonValue) × (history request.messages ≡ ok messages)
      × (find (lit "model") body ≡ some (string model.id))
      × (find (lit "stream") body ≡ some (boolean false))
      × (find (lit "messages") body
          ≡ some (
              array (
                elements_of (system_messages (compatible_system_instruction request) ++ messages))))
unfolding make_compatible_request lit same
make_compatible_request-fixed model request body h =
    let (merged, m, h₁) =
      >>=-eq-ok (merged_provider_options model.provider_options request.options.provider_options) _
        h in
    let (messages, e, h₂) = >>=-eq-ok (history request.messages) _ h₁ in
    let system = compatible_system_instruction request in
    let base = base_body (members_of merged) model.id system messages in
    let (tooled, t, h₃) =
      >>=-eq-ok (add_tools request.tools base)
        (λ made. ok (object (with_limits request.options made))) h₂ in
    let (a, b, c) = find_member-base_body (members_of merged) model.id system messages in
    let q : object (with_limits request.options tooled) ≡ body = cc in
    let find_again =
      λ (key : Bytes) (h : same (lit "temperature") key ≡ false)
          (k : same (lit "max_tokens") key ≡ false) (l : same (lit "tools") key ≡ false).
        ap (find key) (sym q)
        ∙ find_member-with_limits key request.options tooled h k
        ∙ find_member-add_tools key request.tools base tooled l t in
    (
      messages,
      e,
      find_again (lit "model") refl refl refl ∙ a,
      find_again (lit "stream") refl refl refl ∙ b,
      find_again (lit "messages") refl refl refl ∙ c,
    )
