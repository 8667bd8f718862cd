-- ===== src/Client/Rounds/Invariant.antt =====
-- The invariant of the loop of `generate`: whatever happens, the history stays resolved and only grows.
use neural_plus.Prelude.{
  ℕ, ◌+◌, ◌≤◌, ◌<◌, Bytes, ◌≡◌, refl, ap, ◌∙◌, true, false, Bool-cases, and_true, ◌&&◌, ◌⊎◌, inl,
  inr, List, [], ◌∷◌, ◌++◌, append_assoc, length, is_empty, arith, ◌==◌, if◌then◌else◌,
}
use neural_plus.Outcome.{Result}
use neural_plus.Exec.{Exec, continue}
use neural_plus.Exec.Post.{Post, Post-weaken, Post-bind, Post-bind-lift}
use neural_plus.Types.Enums.{FinishReason}
use neural_plus.Types.Message.{Message}
use neural_plus.Types.Records.{GenerateOptions, TokenUsage, AiResponse}
use neural_plus.Session.{Session}
use neural_plus.Tracing.{TraceEvent}
use neural_plus.Client.Usage.{add_usage}
use neural_plus.Client.Config.{AiClient}
use neural_plus.Client.Config.Registry.{IsConfigured}
use neural_plus.Client.Execute.{Library, ToolExecution, Batch, World}
use neural_plus.Client.Generate.{on_app, check_response, emit, saw_error}
use neural_plus.Client.Rounds.{
  GenerateOnce, needs_another_round, concluded, provider_round, conclude, conclude_on_error,
  tool_round, answer,
}
use neural_plus.Client.Rounds.Results.{
  AreResults, Resolved, plain, exchange, Extends, Extends-trans, Kept, on_app-Kept, IsAccepted,
  check_response-IsAccepted, tool_round-Post,
}

-- What `generate` promises of a response that it returns.
pub record IsFinal {S : Type 0} (client : AiClient S) (response : AiResponse) : Type 0 where
  pub began : 0 < response.model_rounds
  pub rounds : response.model_rounds ≤ client.options.max_model_rounds
  pub calls : response.tool_calls ≤ client.options.max_tool_calls_per_generation
  pub settled :
      (needs_another_round response ≡ false)
      ⊎ ((response.finish_reason ≡ FinishReason.error) × (client.options.stop_on_tool_error ≡ true))

pub record Keeps {S : Type 0} (base : Session) (w : World S) : Type 0 where
  pub resolved : Resolved w.session.messages
  pub grown : Extends base w.session

module _ {S : Type 0} (client : AiClient S) where
  pub emit-Kept :
      (s : Session) (w : World S) (event : TraceEvent)
      → Kept s w
      → Post (λ a. Kept s) (Kept s) (emit client event w)
  unfolding emit
  emit-Kept s w event h = on_app-Kept _ s w h

  abbrev pub Accepted : Session → ℕ → AiResponse × TokenUsage → World S → Type 0
  Accepted s made p v = IsAccepted client p.0 made × Kept s v

  pub provider_round-Post :
      (lib : Library) (generate_once : GenerateOnce S) (options : GenerateOptions) (run_id : Bytes)
      (round : ℕ) (usage : TokenUsage) (made : ℕ) (s : Session) (w : World S)
      → Kept s w
      → Post
          (Accepted s made)
          (Kept s)
          (provider_round lib client generate_once options run_id round usage made w)
  unfolding provider_round continue
  provider_round-Post lib generate_once options run_id round usage made s w h =
      let Q : AiResponse × TokenUsage → World S → Type 0 = Accepted s made in
      Post-bind (λ a. Kept s) Q (Kept s) (emit client _ w) _ (emit-Kept s w _ h)
        λ a w₁ k₁.
          Post-bind (λ a. Kept s) Q (Kept s) (on_app _ w₁) _ (on_app-Kept _ s w₁ k₁)
            λ response w₂ k₂.
              Post-bind-lift Q (Kept s) (check_response client response made) w₂ _ k₂ λ b checked.
                Post-bind-lift Q (Kept s) (add_usage usage response.usage (round == 1)) w₂ _ k₂
                  λ usage' added.
                    Post-bind (λ a. Kept s) Q (Kept s) (emit client _ w₂) _ (emit-Kept s w₂ _ k₂)
                      λ c w₃ k₃. (check_response-IsAccepted client response made checked, k₃)

no_calls : {A : Type 0} (xs : List A) → is_empty xs ≡ true → xs ≡ []
no_calls [] e = refl
no_calls (x ∷ xs) e = cc

settled_no_calls :
    (response : AiResponse)
    → needs_another_round response ≡ false
    → response.message.tool_calls ≡ []
settled_no_calls response e = ground arith

module _ {S : Type 0} (client : AiClient S) (base : Session) where
  abbrev pub Final : AiResponse → World S → Type 0
  Final response w = IsFinal client response × Keeps base w

  abbrev pub Ends : Result AiResponse × World S → Type 0
  Ends = Post Final (Keeps base)

  pub Keeps-plain :
      (s : Session) (m : Message) (w : World S)
      → Resolved s.messages
      → Extends base s
      → m.tool_calls ≡ []
      → Kept (record s { messages = s.messages ++ m ∷ [] }) w
      → Keeps base w
  Keeps-plain s m w old grown none_called k = record {
    resolved = plain s.messages m old none_called (ap (λ (t : Session). t.messages) k);
    grown = Extends-trans base s w.session grown (m ∷ [], k);
  }

  Keeps-exchange :
      (s : Session) (m : Message) (results : List Message) (w : World S)
      → Resolved s.messages
      → Extends base s
      → AreResults m.tool_calls results
      → Kept (record s { messages = (s.messages ++ m ∷ []) ++ results }) w
      → Keeps base w
  Keeps-exchange s m results w old grown are k =
      let f : w.session ≡ record s { messages = s.messages ++ m ∷ results } =
        k ∙ ap (λ ms. record s { messages = ms }) (append_assoc s.messages (m ∷ []) results) in
      record {
        resolved = exchange s.messages m results old are (ap (λ (t : Session). t.messages) f);
        grown = Extends-trans base s w.session grown (m ∷ results, f);
      }

  conclude-Ends :
      (run_id : Bytes) (round : ℕ) (usage : TokenUsage) (made : ℕ) (response : AiResponse)
      (w : World S)
      → IsFinal client (concluded response usage round made)
      → Keeps base w
      → Ends (conclude client run_id round usage made response w)
  unfolding conclude emit on_app continue
  conclude-Ends run_id round usage made response w final k =
      (final, record { resolved = k.resolved; grown = k.grown })

  conclude_on_error-Ends :
      (run_id : Bytes) (round : ℕ) (usage : TokenUsage) (made : ℕ) (response : AiResponse)
      (w : World S)
      → IsFinal client
          (concluded (record response { finish_reason = FinishReason.error }) usage round made)
      → Keeps base w
      → Ends (conclude_on_error client run_id round usage made response w)
  unfolding conclude_on_error emit on_app continue
  conclude_on_error-Ends run_id round usage made response w final k =
      (final, record { resolved = k.resolved; grown = k.grown })

  module _ (lib : Library) (configured : IsConfigured client) where
    tools-Ends :
        (plan : ℕ → Batch) (run_id : Bytes) (round : ℕ) (usage : TokenUsage) (made : ℕ)
        (response : AiResponse) (next : ℕ → Exec (World S) AiResponse) (s : Session) (w : World S)
        → 0 < round
        → round ≤ client.options.max_model_rounds
        → made ≤ client.options.max_tool_calls_per_generation
        → Resolved s.messages
        → Extends base s
        → IsAccepted client response made
        → Kept (record s { messages = s.messages ++ response.message ∷ [] }) w
        → ((n : ℕ) (v : World S)
            → n ≤ client.options.max_tool_calls_per_generation
            → Keeps base v
            → Ends (next n v))
        → Ends (
            continue (tool_round lib client plan run_id response w) (λ executions.
              if saw_error executions && client.options.stop_on_tool_error
              then conclude_on_error client run_id round usage (made + length executions) response
              else next (made + length executions)))
    tools-Ends plan run_id round usage made response next s w began within few old grown accepted k
          ih =
        Post-bind Ran Final (Keeps base) (tool_round lib client plan run_id response w) _
          (Post-weaken Ran Ran (λ v. ⊥) (Keeps base) _
            (tool_round-Post lib client configured.ready configured.parallelism plan run_id response
              (record s { messages = s.messages ++ response.message ∷ [] }) w accepted.named k)
            (λ a v p. p) (λ v h. absurd h))
          λ executions v (counted, results, are, kept).
            let kept' : Keeps base v =
              Keeps-exchange s response.message results v old grown are kept in
            let room = accepted.room few in
            elim (Bool-cases (saw_error executions && client.options.stop_on_tool_error)) [
              | inl e ↦ rw e (
                  conclude_on_error-Ends run_id round usage (made + length executions) response v
                    (record {
                      began = began;
                      rounds = within;
                      calls = omega (arith, counted, room);
                      settled = inr (refl, (and_true _ _ e).1);
                    })
                    kept')
              | inr e ↦ rw e (ih (made + length executions) v (omega (arith, counted, room)) kept')
            ]
      where
        Ran : List ToolExecution → World S → Type 0
        Ran xs v =
            (length xs ≡ length response.message.tool_calls)
            × (results : List Message) × AreResults response.message.tool_calls results
            × Kept (record s { messages = (s.messages ++ response.message ∷ []) ++ results }) v

    pub answer-Ends :
        (plan : ℕ → Batch) (run_id : Bytes) (round : ℕ) (usage : TokenUsage) (made : ℕ)
        (response : AiResponse) (next : ℕ → Exec (World S) AiResponse) (s : Session) (w : World S)
        → 0 < round
        → round ≤ client.options.max_model_rounds
        → made ≤ client.options.max_tool_calls_per_generation
        → Resolved s.messages
        → Extends base s
        → IsAccepted client response made
        → Kept (record s { messages = s.messages ++ response.message ∷ [] }) w
        → ((n : ℕ) (v : World S)
            → n ≤ client.options.max_tool_calls_per_generation
            → Keeps base v
            → Ends (next n v))
        → Ends (answer lib client plan run_id round usage made response next w)
    unfolding answer
    answer-Ends plan run_id round usage made response next s w began within few old grown accepted k
          ih =
        elim (Bool-cases (needs_another_round response)) [
          | inl e ↦
              rw (e, answer)
                (elim (Bool-cases (is_empty response.message.tool_calls)) [
                  | inl none_called ↦ rw none_called (
                      ih made w few
                        (Keeps-plain s response.message w old grown (no_calls _ none_called) k))
                  | inr some_called ↦ rw some_called (
                      tools-Ends plan run_id round usage made response next s w began within few old
                        grown accepted k ih)
                ])
          | inr e ↦
              rw (e, answer)
                (conclude-Ends run_id round usage made response w
                  (record { began = began; rounds = within; calls = few; settled = inl e })
                  (Keeps-plain s response.message w old grown (settled_no_calls response e) k))
        ]
