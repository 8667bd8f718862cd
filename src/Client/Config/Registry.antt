-- ===== src/Client/Config/Registry.antt =====
-- What the constructor of `AIClient` leaves in the client.
use neural_plus.Prelude.{
  ◌<◌, Bytes, same, ◌≡◌, refl, ◌∙◌, ◌≢◌, true, Bool-cases, inl, inr, ◌⊎◌, Option, none, some, List,
  [], ◌∷◌, All, All-append, arith, subst,
}
use neural_plus.Outcome.{ok, >>-eq-ok, >>=-eq-ok}
use neural_plus.Types.Records.{ToolSpec, ModelDescriptor}
use neural_plus.Schema.{validate_schema_definition}
use neural_plus.Tool.{Tool}
use neural_plus.Tracing.{Tracer}
use neural_plus.Client.Config.{
  ClientOptions, RegisteredTool, AiClient, validate_tool_spec, find_tool, register, construct,
  check_limits, check_tracers, assemble, sort_specs,
}

-- Every tool of the client has an argument schema that `validate_schema_definition` accepts.
abbrev pub IsReady : {S : Type 0} → AiClient S → Type 0
IsReady {S} client =
    (name : Bytes) (tool : RegisteredTool S)
    → find_tool name client.tools ≡ some tool
    → (location : Bytes) × (validate_schema_definition tool.spec.input_schema location ≡ ok tt)

-- An accepted specification has an argument schema that `validate_schema_definition` accepts.
abbrev HasSchema : {S : Type 0} → RegisteredTool S → Type 0
HasSchema tool =
    (location : Bytes) × (validate_schema_definition tool.spec.input_schema location ≡ ok tt)

validate_tool_spec-schema :
    (spec : ToolSpec)
    → validate_tool_spec spec ≡ ok tt
    → (location : Bytes) × (validate_schema_definition spec.input_schema location ≡ ok tt)
unfolding validate_tool_spec
validate_tool_spec-schema spec h =
    let (h₁, r₁) = >>-eq-ok _ _ h in
    let (h₂, r₂) = >>-eq-ok _ _ r₁ in let (h₃, r₃) = >>-eq-ok _ _ r₂ in (_, h₃)

module _ {S : Type 0} where
  abbrev AllReady : List (Bytes × RegisteredTool S) → Type 0
  AllReady = All (λ p. HasSchema p.1)

  find_tool-HasSchema :
      (name : Bytes) (tool : RegisteredTool S) (tools : List (Bytes × RegisteredTool S))
      → AllReady tools
      → find_tool name tools ≡ some tool
      → HasSchema tool
  unfolding find_tool
  find_tool-HasSchema name tool [] h e = cc
  find_tool-HasSchema name tool ((k, t) ∷ ts) (p, h) e = elim (Bool-cases (same k name)) [
    | inl q ↦ let f : t ≡ tool = ground arith in subst HasSchema f p
    | inr q ↦ find_tool-HasSchema name tool ts h (ground arith)
  ]

  abbrev registered : Tool S → Bytes × RegisteredTool S
  registered t = (t.spec.name, record { implementation = t.invoke; spec = t.spec })

  register-AllReady :
      (ts : List (Option (Tool S))) (tools tools' : List (Bytes × RegisteredTool S))
      (specs specs' : List ToolSpec)
      → AllReady tools
      → register ts tools specs ≡ ok (tools', specs')
      → AllReady tools'
  unfolding register
  register-AllReady [] tools tools' specs specs' h e =
      let f : tools ≡ tools' = ground arith in subst AllReady f h
  register-AllReady (none ∷ ts) tools tools' specs specs' h e = cc
  register-AllReady (some t ∷ ts) tools tools' specs specs' h e =
      let (valid, r₁) = >>-eq-ok _ _ e in
      let (fresh, r₂) = >>-eq-ok _ _ r₁ in
      register-AllReady ts _ tools' _ specs'
        (All-append _ tools (registered t ∷ []) h (validate_tool_spec-schema t.spec valid, tt)) r₂

-- What the loop of a generation relies on.
pub record IsConfigured {S : Type 0} (client : AiClient S) : Type 0 where
  pub named : client.model.id ≢ []
  pub rounds : 0 < client.options.max_model_rounds
  pub parallelism : 0 < client.options.max_parallel_tool_calls
  pub calls : 0 < client.options.max_tool_calls_per_generation
  pub supported : (client.tool_specs ≡ []) ⊎ (client.model.capabilities.tools ≡ true)
  pub ready : IsReady client

record Limits {S : Type 0} (model : ModelDescriptor) (options : ClientOptions S) : Type 0 where
  named : model.id ≢ []
  rounds : 0 < options.max_model_rounds
  parallelism : 0 < options.max_parallel_tool_calls
  calls : 0 < options.max_tool_calls_per_generation

check_limits-Limits :
    {S : Type 0} (model : ModelDescriptor) (options : ClientOptions S)
    → check_limits model options ≡ ok tt
    → Limits model options
unfolding check_limits
check_limits-Limits model options h = ground arith

pub assemble-ok :
    {S : Type 0} (model : ModelDescriptor) (options : ClientOptions S) (tracers : List (Tracer S))
    (tools : List (Bytes × RegisteredTool S)) (specs : List ToolSpec) (client : AiClient S)
    → assemble model options tracers (tools, specs) ≡ ok client
    → (client.model ≡ model)
      × (client.options ≡ options)
      × (client.tools ≡ tools)
      × (client.tool_specs ≡ sort_specs specs)
      × ((specs ≡ []) ⊎ (client.model.capabilities.tools ≡ true))
unfolding assemble
assemble-ok model options tracers tools specs client h = ground arith

-- A client that the constructor accepts can run: its model has an id, its three limits are positive, it
-- has no tools or a model that supports them, and every tool that a call can name has an argument
-- schema that `validate_schema_definition` accepts.
pub construct-IsConfigured :
    {S : Type 0} (model : ModelDescriptor) (options : ClientOptions S) (client : AiClient S)
    → construct model options ≡ ok client
    → IsConfigured client
unfolding construct
construct-IsConfigured {S} model options client h =
    let (limited, r₁) = >>-eq-ok (check_limits model options) _ h in
    let (tracers, traced, r₂) = >>=-eq-ok (check_tracers options.tracers) _ r₁ in
    let ((tools, specs), done, r₃) = >>=-eq-ok (register options.tools [] []) _ r₂ in
    let (e₁, e₂, e₃, e₄, e₅) = assemble-ok model options tracers tools specs client r₃ in
    let limits = check_limits-Limits model options limited in
    let all_ready = register-AllReady options.tools [] tools [] specs tt done in
    record {
      named = rw e₁ limits.named;
      rounds = rw e₂ limits.rounds;
      parallelism = rw e₂ limits.parallelism;
      calls = rw e₂ limits.calls;
      supported = elim e₅ [
        | inl none_given ↦ inl (e₄ ∙ rw none_given (unfold sort_specs in refl))
        | inr able ↦ inr able
      ];
      ready = λ name tool found. find_tool-HasSchema name tool tools all_ready (rw e₃ at found);
    }
