-- ===== src/Client/Rounds/Transcript.antt =====
-- What `AIClient::generate` of src/client.cpp leaves behind: the history, the lease and the response.
use neural_plus.Prelude.{
  ℕ, zero, suc, ◌+◌, ◌≤◌, ◌<◌, Bytes, ◌≡◌, refl, sym, ap, subst, ◌∙◌, true, false, ◌&&◌, [], ◌∷◌,
  ◌++◌, append-nil, arith, ◌==◌,
}
use neural_plus.Outcome.{Result, ok, err, throw_if}
use neural_plus.Exec.{continue}
use neural_plus.Exec.Post.{Post-weaken, Post-bind, Post-bind-lift}
use neural_plus.Types.Message.{Message}
use neural_plus.Types.Records.{GenerateOptions, TokenUsage, AiResponse, no_usage, ModelDescriptor}
use neural_plus.Session.{Session, is_system}
use neural_plus.Session
use neural_plus.Client.Config.{AiClient}
use neural_plus.Client.Config.Registry.{IsConfigured}
use neural_plus.Client.Input.{validate_input, validate_options}
use neural_plus.Client.Execute.{Library, Batch, World}
use neural_plus.Client.Generate.{append_message, on_app, make_run_id, emit, is_assistant}
use neural_plus.Client.Rounds.{
  GenerateOnce, needs_another_round, provider_round, rounds, rethrow, guarded_rounds, leased,
  generate, with_lease,
}
use neural_plus.Client.Rounds.Results.{Resolved, plain, Extends, Kept, append_message-Post}
use neural_plus.Client.Rounds.Invariant.{
  Keeps, Accepted, Final, Ends, answer-Ends, provider_round-Post,
}

assistant_not_system : (m : Message) → is_assistant m.role ≡ true → is_system m ≡ false
assistant_not_system m e = ground arith

accepted_not_system :
    (model : ModelDescriptor) (m : Message) → validate_input model m ≡ ok tt → is_system m ≡ false
unfolding validate_input
accepted_not_system model m e = ground arith

module _ {S : Type 0} (lib : Library) (client : AiClient S) (generate_once : GenerateOnce S)
    (configured : IsConfigured client) (plan : ℕ → ℕ → Batch) (options : GenerateOptions)
    (run_id : Bytes) (base : Session) where
  rounds-Ends :
      (left round : ℕ) (usage : TokenUsage) (made : ℕ) (w : World S)
      → 0 < round
      → round + left ≤ client.options.max_model_rounds + 1
      → made ≤ client.options.max_tool_calls_per_generation
      → Keeps base w
      → Ends client base
          (rounds lib client generate_once plan options run_id left round usage made w)
  unfolding rounds continue
  rounds-Ends zero round usage made w began within few k = k
  rounds-Ends (suc left) round usage made w began within few k =
      let s = w.session in
      let Q : AiResponse → World S → Type 0 = Final client base in
      let failed = λ (v : World S) (e : Kept s v). unchanged k v e in
      Post-bind (Accepted client s made) Q (Keeps base)
        (provider_round lib client generate_once options run_id round usage made w) _
        (Post-weaken (Accepted client s made) (Accepted client s made) (Kept s) (Keeps base) _
          (provider_round-Post client lib generate_once options run_id round usage made s w refl)
          (λ p v h. h) failed)
        λ p v (accepted, kept).
          Post-bind-lift Q (Keeps base)
            (throw_if (needs_another_round p.0 && round == client.options.max_model_rounds) _) v _
            (failed v kept)
            λ b passed.
              let t : Session = record s { messages = s.messages ++ p.0.message ∷ [] } in
              Post-bind (λ a. Kept t) Q (Keeps base) (append_message p.0.message v) _
                (Post-weaken (λ a. Kept t) (λ a. Kept t) (λ u. ⊥) (Keeps base) _
                  (append_message-Post p.0.message s v
                    (assistant_not_system p.0.message accepted.role) kept)
                  (λ a u h. h) (λ u h. absurd h))
                λ a u appended.
                  answer-Ends client base lib configured (plan round) run_id round p.1 made p.0 _ s
                    u began (omega (arith, within)) few k.resolved k.grown accepted appended
                    (λ n u' few' k'.
                      rounds-Ends left (round + 1) p.1 n u' (omega arith) (omega (arith, within))
                        few' k')
    where
      unchanged : Keeps base w → (v : World S) → Kept w.session v → Keeps base v
      unchanged k v e = record {
        resolved = subst (λ (t : Session). Resolved t.messages) (sym e) k.resolved;
        grown = subst (Extends base) (sym e) k.grown;
      }

-- The session after the input is appended.
abbrev pub with_input : Message → Session → Session
with_input input s = record s { messages = s.messages ++ input ∷ [] }

abbrev pub leased_session : Session → Session
leased_session s = record s { active = true }

acquire-idle : (s : Session) → s.active ≡ false → Session.acquire s ≡ ok (leased_session s)
unfolding Session.acquire
acquire-idle s idle = ground arith

released-Keeps :
    {S : Type 0} (base : Session) (v : World S)
    → base.active ≡ false
    → Keeps (leased_session base) v
    → Keeps base (record v { session = Session.release v.session })
unfolding Session.release
released-Keeps base v idle h =
    let (more, e) = h.grown in
    record {
      resolved = h.resolved;
      grown = (
        more,
        ap Session.release e
            ∙ ap (λ b. record base { messages = base.messages ++ more; active = b }) (sym idle),
      );
    }

module _ {S : Type 0} (lib : Library) (client : AiClient S) (generate_once : GenerateOnce S) where
  rethrow-Ends :
      (run_id : Bytes) (base : Session) (p : Result AiResponse × World S)
      → Ends client base p
      → Ends client base (rethrow lib client run_id p)
  unfolding rethrow emit on_app
  rethrow-Ends run_id base (ok response, v) h = h
  rethrow-Ends run_id base (err e, v) h = record { resolved = h.resolved; grown = h.grown }

  module _ (configured : IsConfigured client) where
    leased-Ends :
        (plan : ℕ → ℕ → Batch) (input : Message) (options : GenerateOptions) (w : World S)
        → is_system input ≡ false
        → input.tool_calls ≡ []
        → Resolved w.session.messages
        → Ends client
            (with_input input w.session)
            (leased lib client generate_once plan input options w)
    unfolding leased guarded_rounds make_run_id emit on_app continue
    leased-Ends plan input options w other none_called old =
        let base = with_input input w.session in
        let w₁ = (emit client _ (make_run_id w).1).1 in
        Post-bind (λ a. Kept base) (Final client base) (Keeps base) (append_message input w₁) _
          (Post-weaken (λ a. Kept base) (λ a. Kept base) (λ u. ⊥) (Keeps base) _
            (append_message-Post input w.session w₁ other refl) (λ a u h. h) (λ u h. absurd h))
          λ a v appended.
            rethrow-Ends _ base
              (rounds lib client generate_once plan options _ client.options.max_model_rounds 1
                no_usage 0 v)
              (rounds-Ends lib client generate_once configured plan options _ base
                client.options.max_model_rounds 1 no_usage 0 v (omega arith) (omega arith)
                (omega arith)
                (record {
                  resolved =
                      plain w.session.messages input old none_called
                        (ap (λ (t : Session). t.messages) appended);
                  grown = (
                    [],
                    appended ∙ sym (rw (append-nil (w.session.messages ++ input ∷ [])) refl),
                  );
                }))

    released-Ends :
        (base : Session) (p : Result AiResponse × World S)
        → base.active ≡ false
        → Ends client (leased_session base) p
        → Ends client base (p.0, record p.1 { session = Session.release p.1.session })
    unfolding Session.release
    released-Ends base (ok response, v) idle (final, h) = (final, released-Keeps base v idle h)
    released-Ends base (err e, v) idle h = released-Keeps base v idle h

    -- With a client as its constructor leaves it, `generate` of an accepted input without tool calls, on
    -- an idle session whose history is resolved, ends as follows, whatever the provider, the tools, the
    -- tracers and the scheduling of the tools do, and whether it returns or throws. The history
    -- is the old one, then the input, then what the rounds added; it is resolved, so that every
    -- request for tools in it is followed by the results of all its calls in order; the
    -- session has the same id and system message and is idle again. A returned response took
    -- between one round and the limit of rounds and at most the limit of tool calls, and it asks for
    -- nothing more, unless a tool error stopped the generation because the client is set to stop on
    -- one.
    pub generate-Ends :
        (plan : ℕ → ℕ → Batch) (input : Message) (options : GenerateOptions) (w : World S)
        → w.session.active ≡ false
        → Resolved w.session.messages
        → input.tool_calls ≡ []
        → validate_input client.model input ≡ ok tt
        → validate_options options ≡ ok tt
        → Ends client
            (with_input input w.session)
            (generate lib client generate_once plan input options w)
    unfolding generate with_lease continue
    generate-Ends plan input options w idle old none_called good_input good_options =
        rw (good_input, generate)
          (rw (good_options, generate)
            (rw (acquire-idle w.session idle, with_lease)
              (released-Ends (with_input input w.session) _ idle (
                leased-Ends plan input options (record w { session = leased_session w.session })
                  (accepted_not_system client.model input good_input) none_called old))))
