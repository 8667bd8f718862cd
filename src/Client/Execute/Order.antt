-- ===== src/Client/Execute/Order.antt =====
-- The results of `execute_tools` stand in the order of the calls, whatever the threads do.
use neural_plus.Prelude.{
  ℕ, zero, suc, ◌+◌, ◌≤◌, ◌<◌, min, Bytes, lit, ◌≡◌, refl, subst, Bool, true, false, Bool-cases,
  Option, none, some, Option-cases, inl, inr, List, [], ◌∷◌, ◌++◌, length, take, drop,
  take-append-drop, map, arith,
}
use neural_plus.Outcome.{Result, ok, err}
use neural_plus.Exec.{Exec, continue}
use neural_plus.Types.Message.{ToolCall}
use neural_plus.Schema.Totality.{is_ok, validated_schema_never_throws}
use neural_plus.Client.Config.Registry.{IsReady}
use neural_plus.Client.Config.{AiClient, find_tool}
use neural_plus.Client.Execute.{
  Library, ToolExecution, Batch, Slot, sequential, trace, tool_start, find_slot, fill_slot, get_all,
  failed_at, tool_output, execute_tool, execute_each, run_slot, run_slots, await_slots, run_batch,
  run_batches, execute_tools,
}

abbrev Answer : Result ToolExecution → ToolCall → Type 0
Answer (ok x) call = x.call ≡ call
Answer (err e) call = ⊥

abbrev calls_of : List ToolExecution → List ToolCall
calls_of = map (λ x. x.call)

abbrev pub Answers : Result (List ToolExecution) → List ToolCall → Type 0
Answers (ok xs) calls = map (λ x. x.call) xs ≡ calls
Answers (err e) calls = ⊥

abbrev AllAnswer : List (Result ToolExecution) → List ToolCall → Type 0
AllAnswer [] [] = Unit
AllAnswer [] (c ∷ cs) = ⊥
AllAnswer (r ∷ rs) [] = ⊥
AllAnswer (r ∷ rs) (c ∷ cs) = Answer r c × AllAnswer rs cs

abbrev OutcomeFits : Option (Result ToolExecution) → ToolCall → Type 0
OutcomeFits none call = Unit
OutcomeFits (some r) call = Answer r call

abbrev Fits : List Slot → List ToolCall → Type 0
Fits [] [] = Unit
Fits [] (c ∷ cs) = ⊥
Fits (slot ∷ slots) [] = ⊥
Fits (slot ∷ slots) (c ∷ cs) = (slot.0 ≡ c) × OutcomeFits slot.1 c × Fits slots cs

Fits-unstarted : (calls : List ToolCall) → Fits (map (λ call. (call, none)) calls) calls
Fits-unstarted [] = tt
Fits-unstarted (c ∷ cs) = (refl, tt, Fits-unstarted cs)

Fits-fill :
    (i : ℕ) (r : Result ToolExecution) (slots : List Slot) (calls : List ToolCall) (call : ToolCall)
    → Fits slots calls
    → find_slot i slots ≡ some call
    → Answer r call
    → Fits (fill_slot i r slots) calls
unfolding find_slot fill_slot
Fits-fill i r [] [] call h e a = tt
Fits-fill i r [] (c ∷ cs) call h e a = absurd h
Fits-fill i r (slot ∷ slots) [] call h e a = absurd h
Fits-fill zero r ((k, none) ∷ slots) (c ∷ cs) call (p, o, h) e a =
    let q : call ≡ c = cc in (p, subst (Answer r) q a, h)
Fits-fill zero r ((k, some x) ∷ slots) (c ∷ cs) call h e a = cc
Fits-fill (suc i) r ((k, x) ∷ slots) (c ∷ cs) call (p, o, h) e a =
    (p, o, Fits-fill i r slots cs call h e a)

get_all-Answers :
    (rs : List (Result ToolExecution)) (calls : List ToolCall)
    → AllAnswer rs calls
    → Answers (get_all rs) calls
unfolding get_all
get_all-Answers [] [] h = refl
get_all-Answers [] (c ∷ cs) h = absurd h
get_all-Answers (r ∷ rs) [] h = absurd h
get_all-Answers (err e ∷ rs) (c ∷ cs) h = absurd h.0
get_all-Answers (ok x ∷ rs) (c ∷ cs) (p, h) = go (get_all rs) (get_all-Answers rs cs h)
  where
    go :
        (r : Result (List ToolExecution))
        → Answers r cs
        → Answers (elim r [ ok xs ↦ ok (x ∷ xs) | err e ↦ err e ]) (c ∷ cs)
    go (ok xs) q = cc
    go (err e) q = absurd q

map-append : (xs ys : List ToolExecution) → calls_of (xs ++ ys) ≡ calls_of xs ++ calls_of ys
map-append [] ys = refl
map-append (x ∷ xs) ys = cc (map-append xs ys)

calls-append :
    (k : ℕ) (calls : List ToolCall) (xs ys : List ToolExecution)
    → calls_of xs ≡ take k calls
    → calls_of ys ≡ drop k calls
    → calls_of (xs ++ ys) ≡ calls
calls-append k calls xs ys p q = rw (map-append, p, q) (take-append-drop k calls)

length-drop-le : {A : Type 0} (p : ℕ) (xs : List A) → length (drop p xs) ≤ length xs
length-drop-le zero xs = omega arith
length-drop-le (suc p) [] = omega arith
length-drop-le (suc p) (x ∷ xs) = omega (arith, length-drop-le p xs)

length-drop-cons :
    (p : ℕ) (c : ToolCall) (cs : List ToolCall) (fuel : ℕ)
    → 0 < p
    → length (c ∷ cs) ≤ suc fuel
    → length (drop p (c ∷ cs)) ≤ fuel
length-drop-cons zero c cs fuel pos h = absurd (omega arith)
length-drop-cons (suc p) c cs fuel pos h = omega (arith, length-drop-le p cs)

min-pos :
    (parallel : Bool) (calls : List ToolCall) {n : ℕ}
    → 0 < n
    → sequential parallel calls ≡ false
    → 0 < min n (length calls)
min-pos parallel calls h e = ground arith

module _ {S : Type 0} where
  continue-Answer :
      {A : Type 0} (call : ToolCall) (p : Result A × S) (f : A → Exec S ToolExecution)
      → is_ok p.0 ≡ true
      → ((a : A) (s : S) → Answer (f a s).0 call)
      → Answer (continue p f).0 call
  unfolding continue
  continue-Answer call (ok a, s) f h k = k a s
  continue-Answer call (err e, s) f h k = cc

  continue-first :
      (p : Result ToolExecution × S) (f : ToolExecution → Exec S (List ToolExecution))
      (call : ToolCall) (calls : List ToolCall)
      → Answer p.0 call
      → ((x : ToolExecution) (s : S) → x.call ≡ call → Answers (f x s).0 calls)
      → Answers (continue p f).0 calls
  unfolding continue
  continue-first (ok x, s) f call calls h k = k x s h
  continue-first (err e, s) f call calls h k = absurd h

  -- A list of results for the first calls, and a list for the others.
  continue-Answers :
      (p : Result (List ToolExecution) × S) (f : List ToolExecution → Exec S (List ToolExecution))
      (before calls : List ToolCall)
      → Answers p.0 before
      → ((xs : List ToolExecution) (s : S)
          → map (λ x. x.call) xs ≡ before
          → Answers (f xs s).0 calls)
      → Answers (continue p f).0 calls
  unfolding continue
  continue-Answers (ok xs, s) f before calls h k = k xs s h
  continue-Answers (err e, s) f before calls h k = absurd h

module _ {S : Type 0} (lib : Library) (client : AiClient S) (session_id run_id : Bytes) where
  -- The arguments are checked outside the `try` block, and that check is the only part that could throw.
  tool_output-ok :
      IsReady client
      → (call : ToolCall) (s : S) → is_ok (tool_output lib client session_id run_id call s).0 ≡ true
  unfolding tool_output
  tool_output-ok ready call s = elim (Option-cases (find_tool call.name client.tools)) [
    | inl e ↦ rw (e, tool_output)
    | inr (tool, e) ↦
        let (location, valid) = ready call.name tool e in
        let (message, checked) =
          validated_schema_never_throws lib.json_equal tool.spec.input_schema location
            call.arguments (lit "$") valid in
        rw (e, tool_output) (ground (arith, checked))
  ]

  execute_tool-Answer :
      IsReady client
      → (call : ToolCall) (s : S) → Answer (execute_tool lib client session_id run_id call s).0 call
  unfolding execute_tool
  execute_tool-Answer ready call s =
      let started = trace client.tracers (tool_start lib client session_id run_id call) s in
      continue-Answer call (tool_output lib client session_id run_id call started) _
        (tool_output-ok ready call started) (λ o t. refl)

  run_slot-Fits :
      IsReady client
      → (i : ℕ) (slots : List Slot) (calls : List ToolCall) (s : S) → Fits slots calls
      → Fits (run_slot lib client session_id run_id (find_slot i slots) i slots s).0 calls
  run_slot-Fits ready i slots calls s h = elim (Option-cases (find_slot i slots)) [
    | inl e ↦ rw e (unfold run_slot in h)
    | inr (call, e) ↦
        rw e
          (unfold run_slot in Fits-fill i _ slots calls call h e (execute_tool-Answer ready call s))
  ]

  run_slots-Fits :
      IsReady client
      → (order : List ℕ) (slots : List Slot) (calls : List ToolCall) (s : S) → Fits slots calls
      → Fits (run_slots lib client session_id run_id order slots s).0 calls
  unfolding run_slots
  run_slots-Fits ready [] slots calls s h = h
  run_slots-Fits ready (i ∷ order) slots calls s h =
      let (slots', s') = run_slot lib client session_id run_id (find_slot i slots) i slots s in
      run_slots-Fits ready order slots' calls s' (run_slot-Fits ready i slots calls s h)

  await_slots-AllAnswer :
      IsReady client
      → (slots : List Slot) (calls : List ToolCall) (s : S) → Fits slots calls
      → AllAnswer (await_slots lib client session_id run_id slots s).0 calls
  unfolding await_slots
  await_slots-AllAnswer ready [] [] s h = tt
  await_slots-AllAnswer ready [] (c ∷ cs) s h = absurd h
  await_slots-AllAnswer ready (slot ∷ slots) [] s h = absurd h
  await_slots-AllAnswer ready ((call, some r) ∷ slots) (c ∷ cs) s (p, o, h) =
      (o, await_slots-AllAnswer ready slots cs s h)
  await_slots-AllAnswer ready ((call, none) ∷ slots) (c ∷ cs) s (p, o, h) = (
    subst (Answer _) p (execute_tool-Answer ready call s),
    await_slots-AllAnswer ready slots cs _ h,
  )

  run_batch-Answers :
      IsReady client
      → (order : List ℕ) (calls : List ToolCall) (s : S)
      → Answers (run_batch lib client session_id run_id order calls s).0 calls
  unfolding run_batch
  run_batch-Answers ready order calls s = get_all-Answers _ calls (
      await_slots-AllAnswer ready _ calls _
        (run_slots-Fits ready order _ calls s (Fits-unstarted calls)))

  execute_each-Answers :
      IsReady client
      → (calls : List ToolCall) (s : S)
      → Answers (execute_each lib client session_id run_id calls s).0 calls
  unfolding execute_each
  execute_each-Answers ready [] s = refl
  execute_each-Answers ready (call ∷ calls) s =
      continue-first (execute_tool lib client session_id run_id call s) _ call (call ∷ calls)
        (execute_tool-Answer ready call s)
        λ x s₁ e.
          continue-Answers (execute_each lib client session_id run_id calls s₁) _ calls
            (call ∷ calls) (execute_each-Answers ready calls s₁) (λ xs s₂ es. cc)

  run_batches-Answers :
      IsReady client
      → (plan : ℕ → Batch) (parallelism fuel offset : ℕ) (calls : List ToolCall) (s : S)
      → 0 < parallelism
      → length calls ≤ fuel
      → Answers
          (run_batches lib client session_id run_id plan parallelism fuel offset calls s).0
          calls
  unfolding run_batches
  run_batches-Answers ready plan p fuel offset [] s pos enough = refl
  run_batches-Answers ready plan p zero offset (c ∷ cs) s pos enough = absurd (omega arith)
  run_batches-Answers ready plan p (suc fuel) offset (c ∷ cs) s pos enough =
      elim (Option-cases (failed_at (plan offset) (length (take p (c ∷ cs))))) [
        | inr (k, e) ↦
            rw (e, run_batches)
              (continue-Answers
                (run_batch lib client session_id run_id (plan offset).order (take k (c ∷ cs)) s) _
                (take k (c ∷ cs)) (c ∷ cs)
                (run_batch-Answers ready (plan offset).order (take k (c ∷ cs)) s)
                λ xs s₁ es.
                  continue-Answers (execute_each lib client session_id run_id (drop k (c ∷ cs)) s₁)
                    _ (drop k (c ∷ cs)) (c ∷ cs) (execute_each-Answers ready (drop k (c ∷ cs)) s₁)
                    (λ ys s₂ fs. calls-append k (c ∷ cs) xs ys es fs))
        | inl e ↦
            rw (e, run_batches)
              (continue-Answers
                (run_batch lib client session_id run_id (plan offset).order (take p (c ∷ cs)) s) _
                (take p (c ∷ cs)) (c ∷ cs)
                (run_batch-Answers ready (plan offset).order (take p (c ∷ cs)) s)
                λ xs s₁ es.
                  continue-Answers
                    (run_batches lib client session_id run_id plan p fuel (offset + p)
                      (drop p (c ∷ cs)) s₁)
                    _ (drop p (c ∷ cs)) (c ∷ cs)
                    (run_batches-Answers ready plan p fuel (offset + p) (drop p (c ∷ cs)) s₁ pos
                      (length-drop-cons p c cs fuel pos enough))
                    (λ ys s₂ fs. calls-append p (c ∷ cs) xs ys es fs))
      ]

  -- For a client whose tools have accepted schemas, `execute_tools` throws nothing and returns one
  -- execution for each call, in the order of the calls, whether or not it uses threads, in whatever
  -- order the threads of each batch run, and also where threads cannot be created.
  pub execute_tools-Answers :
      IsReady client
      → 0 < client.options.max_parallel_tool_calls
      → (plan : ℕ → Batch) (calls : List ToolCall) (s : S)
      → Answers (execute_tools lib client session_id run_id plan calls s).0 calls
  unfolding execute_tools
  execute_tools-Answers ready pos plan calls s =
      elim (Bool-cases (sequential client.options.parallel_tool_calls calls)) [
        | inl e ↦ rw (e, execute_tools) (execute_each-Answers ready calls s)
        | inr e ↦
            rw (e, execute_tools)
              (run_batches-Answers ready plan _ (length calls) 0 calls s
                (min-pos client.options.parallel_tool_calls calls pos e) (omega arith))
      ]
