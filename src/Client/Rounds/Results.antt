-- ===== src/Client/Rounds/Results.antt =====
-- What the steps of a round do to the session, and what a resolved history is.
use neural_plus.Prelude.{
  ℕ, suc, ◌+◌, ◌≤◌, ◌<◌, Bytes, ◌≡◌, refl, sym, ap, subst, ◌∙◌, ◌≢◌, true, false, List, [], ◌∷◌,
  ◌++◌, append-nil, append_assoc, map, length, All, arith,
}
use neural_plus.Outcome.{Result, ok, err, Error, >>-eq-ok}
use neural_plus.Exec.{Exec, continue}
use neural_plus.Exec.Post.{Post, Post-weaken, Post-bind}
use neural_plus.Types.Enums.{Role}
use neural_plus.Types.Message.{Message, ToolCall, set_provider_metadata}
use neural_plus.Types.Message
use neural_plus.Types.Records.{AiResponse}
use neural_plus.Session.{Session, is_system}
use neural_plus.Session
use neural_plus.Client.Config.{AiClient}
use neural_plus.Client.Config.Registry.{IsReady}
use neural_plus.Client.Execute.{Library, ToolExecution, Batch, World, execute_tools}
use neural_plus.Client.Execute.Order.{Answers, execute_tools-Answers}
use neural_plus.Client.Generate.{
  append_message, on_app, check_calls, check_response, tool_result, append_results, is_assistant,
}
use neural_plus.Client.Rounds.{tool_round}

-- A message that answers one call: it names the call and its tool, and carries the call's metadata.
pub record IsResult (call : ToolCall) (m : Message) : Type 0 where
  pub role : m.role ≡ Role.tool
  pub id : m.tool_call_id ≡ call.id
  pub name : m.tool_name ≡ call.name
  pub metadata : m.provider_metadata ≡ call.provider_metadata

abbrev pub AreResults : List ToolCall → List Message → Type 0
AreResults [] [] = Unit
AreResults [] (m ∷ ms) = ⊥
AreResults (call ∷ calls) [] = ⊥
AreResults (call ∷ calls) (m ∷ ms) = IsResult call m × AreResults calls ms

-- Every request for tools is followed at once by the results of all its calls, in their order.
pub data Resolved : List Message → Type 0 where
  start : Resolved []
  plain :
      (before : List Message) (m : Message) {all : List Message}
      → Resolved before
      → m.tool_calls ≡ []
      → all ≡ before ++ m ∷ []
      → Resolved all
  exchange :
      (before : List Message) (m : Message) (results : List Message) {all : List Message}
      → Resolved before
      → AreResults m.tool_calls results
      → all ≡ before ++ m ∷ results
      → Resolved all

-- The session `s` with more messages at its end.
abbrev pub Extends : Session → Session → Type 0
Extends s t = (more : List Message) × (t ≡ record s { messages = s.messages ++ more })

pub Extends-trans : (s t u : Session) → Extends s t → Extends t u → Extends s u
Extends-trans s t u (xs, e) (ys, f) =
    (xs ++ ys, f ∙ rw e (ap (λ ms. record s { messages = ms }) (append_assoc s.messages xs ys)))

append_from_client-ok :
    (m : Message) (s : Session)
    → is_system m ≡ false
    → Session.append_from_client m s ≡ ok (record s { messages = s.messages ++ m ∷ [] })
unfolding Session.append_from_client
append_from_client-ok m s e = ground arith

module _ {S : Type 0} where
  abbrev pub Kept : Session → World S → Type 0
  Kept s w = w.session ≡ s

  pub on_app-Kept :
      {A : Type 0} (m : Exec S A) (s : Session) (w : World S)
      → Kept s w
      → Post (λ a. Kept s) (Kept s) (on_app m w)
  unfolding on_app
  on_app-Kept {A} m s w h = go (m w.app)
    where
      go : (p : Result A × S) → Post (λ a. Kept s) (Kept s) (p.0, record w { app = p.1 })
      go (ok a, t) = h
      go (err e, t) = h

  -- No message of the client is a system message, so that its append never throws.
  pub append_message-Post :
      (m : Message) (s : Session) (w : World S)
      → is_system m ≡ false
      → Kept s w
      → Post
          (λ a. Kept (record s { messages = s.messages ++ m ∷ [] }))
          (λ v. ⊥)
          (append_message m w)
  unfolding append_message Session.append_from_client
  append_message-Post m s w e h =
      rw (append_from_client-ok m w.session e, append_message)
        (ap (λ (t : Session). record t { messages = t.messages ++ m ∷ [] }) h)

abbrev pub IsNamed : ToolCall → Type 0
IsNamed call = (call.id ≢ []) × (call.name ≢ [])

check_calls-IsNamed :
    (nameless : Error) (duplicate : Bytes → Error) (seen : List Bytes) (calls : List ToolCall)
    → check_calls nameless duplicate seen calls ≡ ok tt
    → All IsNamed calls
unfolding check_calls
check_calls-IsNamed nameless duplicate seen [] h = tt
check_calls-IsNamed nameless duplicate seen (c ∷ cs) h = (
  ground arith,
  let (p, r₁) = >>-eq-ok _ _ h in
      let (q, r₂) = >>-eq-ok _ _ r₁ in check_calls-IsNamed nameless duplicate (c.id ∷ seen) cs r₂,
)

-- What an accepted response is, with `made` tool calls before it.
pub record IsAccepted {S : Type 0} (client : AiClient S) (response : AiResponse) (made : ℕ)
    : Type 0 where
  pub role : is_assistant response.message.role ≡ true
  pub room :
      made ≤ client.options.max_tool_calls_per_generation
      → made + length response.message.tool_calls ≤ client.options.max_tool_calls_per_generation
  pub named : All IsNamed response.message.tool_calls

pub check_response-IsAccepted :
    {S : Type 0} (client : AiClient S) (response : AiResponse) (made : ℕ)
    → check_response client response made ≡ ok tt
    → IsAccepted client response made
unfolding check_response
check_response-IsAccepted client response made h = record {
  role = ground arith;
  room = λ within. ground arith;
  named =
      let (p, r₁) = >>-eq-ok _ _ h in
      let (q, r₂) = >>-eq-ok _ _ r₁ in check_calls-IsNamed _ _ [] response.message.tool_calls r₂;
}

tool_result-ok :
    (x : ToolExecution)
    → IsNamed x.call
    → (m : Message) × (tool_result x ≡ ok m) × IsResult x.call m × (is_system m ≡ false)
unfolding tool_result Message.tool set_provider_metadata
tool_result-ok x (named, tooled) =
    let m = set_provider_metadata x.call.provider_metadata (record (Message.of_role Role.tool) {
      contents = x.output.contents;
      tool_call_id = x.call.id;
      tool_name = x.call.name;
      tool_error = x.output.is_error;
    }) in
    (m, ground arith, record { role = refl; id = refl; name = refl; metadata = refl }, refl)

module _ {S : Type 0} where
  -- The results are appended one by one, and none of the appends throws.
  pub append_results-Post :
      (xs : List ToolExecution) (calls : List ToolCall) (s : Session) (w : World S)
      → map (λ x. x.call) xs ≡ calls
      → All IsNamed calls
      → Kept s w
      → Post
          (λ a v.
            (results : List Message) × AreResults calls results
            × Kept (record s { messages = s.messages ++ results }) v)
          (λ v. ⊥)
          (append_results xs w)
  unfolding append_results continue
  append_results-Post [] [] s w e named h = ([], tt, rw (append-nil s.messages) h)
  append_results-Post [] (c ∷ cs) s w e named h = cc
  append_results-Post (x ∷ xs) [] s w e named h = cc
  append_results-Post (x ∷ xs) (c ∷ cs) s w e (n, ns) h =
      let here : x.call ≡ c = cc in
      let later : map (λ x. x.call) xs ≡ cs = cc in
      let (m, made, answers, other) = tool_result-ok x (subst IsNamed (sym here) n) in
      let t : Session = record s { messages = s.messages ++ m ∷ [] } in
      rw (made, append_results)
        (Post-bind (λ a. Kept t) _ (λ v. ⊥) (append_message m w) _
          (append_message-Post m s w other h)
          λ a v k.
            Post-weaken
              (λ b u.
                (results : List Message) × AreResults cs results
                × Kept (record t { messages = t.messages ++ results }) u)
              _ (λ u. ⊥) _ (append_results xs v) (append_results-Post xs cs t v later ns k)
              (λ b u (results, are, kept). (
                m ∷ results,
                (subst (λ call. IsResult call m) here answers, are),
                rw (← append_assoc s.messages (m ∷ []) results) kept,
              ))
              (λ u z. z))

map-length :
    (xs : List ToolExecution) (calls : List ToolCall)
    → map (λ x. x.call) xs ≡ calls
    → length xs ≡ length calls
map-length [] [] e = refl
map-length [] (c ∷ cs) e = cc
map-length (x ∷ xs) [] e = cc
map-length (x ∷ xs) (c ∷ cs) e =
    let f : map (λ x. x.call) xs ≡ cs = cc in ap suc (map-length xs cs f)

module _ {S : Type 0} (lib : Library) (client : AiClient S) where
  on_app-executions :
      (m : Exec S (List ToolExecution)) (calls : List ToolCall) (s : Session) (w : World S)
      → Answers (m w.app).0 calls
      → Kept s w
      → Post (λ xs v. (map (λ x. x.call) xs ≡ calls) × Kept s v) (λ v. ⊥) (on_app m w)
  unfolding on_app
  on_app-executions m calls s w h k = go (m w.app) h
    where
      go :
          (p : Result (List ToolExecution) × S)
          → Answers p.0 calls
          → Post
              (λ xs v. (map (λ x. x.call) xs ≡ calls) × Kept s v)
              (λ v. ⊥)
              (p.0, record w { app = p.1 })
      go (ok xs, t) q = (q, k)
      go (err e, t) q = q

  -- The tools of an accepted response: nothing throws, and the history gains the results.
  pub tool_round-Post :
      IsReady client
      → 0 < client.options.max_parallel_tool_calls
      → (plan : ℕ → Batch) (run_id : Bytes) (response : AiResponse) (s : Session) (w : World S)
      → All IsNamed response.message.tool_calls
      → Kept s w
      → Post
          (λ xs v.
            (length xs ≡ length response.message.tool_calls)
            × (results : List Message) × AreResults response.message.tool_calls results
            × Kept (record s { messages = s.messages ++ results }) v)
          (λ v. ⊥)
          (tool_round lib client plan run_id response w)
  unfolding tool_round continue
  tool_round-Post ready positive plan run_id response s w named h =
      let calls = response.message.tool_calls in
      let run = execute_tools lib client w.session.id run_id plan calls in
      Post-bind (λ xs v. (map (λ x. x.call) xs ≡ calls) × Kept s v) _ (λ v. ⊥) (on_app run w) _
        (on_app-executions run calls s w
          (execute_tools-Answers lib client w.session.id run_id ready positive plan calls w.app) h)
        λ xs v (e, k).
          Post-bind
            (λ a u.
              (results : List Message) × AreResults calls results
              × Kept (record s { messages = s.messages ++ results }) u)
            _ (λ u. ⊥) (append_results xs v) _ (append_results-Post xs calls s v e named k)
            (λ a u (results, are, kept). (map-length xs calls e, results, are, kept))
