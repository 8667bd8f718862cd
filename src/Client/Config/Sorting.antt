-- ===== src/Client/Config/Sorting.antt =====
-- The order of the tool specifications that the constructor of `AIClient` (src/client.cpp) leaves.
use neural_plus.Prelude.{
  Bytes, ◌≡◌, refl, sym, ◌∙◌, subst, Option, none, some, ◌++◌, append-nil, append_assoc, true,
  false, Bool-cases, inl, inr, List, [], ◌∷◌, arith,
}
use mathlib.Core.List.{Perm}
use mathlib.Core.List.Perm
use neural_plus.Outcome.{ok, >>-eq-ok, >>=-eq-ok}
use neural_plus.Json.{less}
use neural_plus.Tool.{Tool}
use neural_plus.Client.Config.Registry.{assemble-ok}
use neural_plus.Types.Records.{ToolSpec, ModelDescriptor}
use neural_plus.Client.Config.{
  ClientOptions, RegisteredTool, AiClient, insert_spec, sort_specs, register, construct,
  check_limits, check_tracers,
}

less-asymmetric : (s t : Bytes) → less s t ≡ true → less t s ≡ false
unfolding less
less-asymmetric s [] h = cc
less-asymmetric [] (b ∷ t) h = refl
less-asymmetric (a ∷ s) (b ∷ t) h = ground (arith, less-asymmetric s t)

abbrev Leads : ToolSpec → List ToolSpec → Type 0
Leads a [] = Unit
Leads a (b ∷ bs) = less b.name a.name ≡ false

-- No specification stands before one with a lesser name.
abbrev pub IsSorted : List ToolSpec → Type 0
IsSorted [] = Unit
IsSorted (a ∷ as') = Leads a as' × IsSorted as'

insert_spec-Leads :
    (a spec : ToolSpec) (specs : List ToolSpec)
    → less a.name spec.name ≡ true
    → Leads a specs
    → Leads a (insert_spec spec specs)
unfolding insert_spec
insert_spec-Leads a spec [] h k = less-asymmetric a.name spec.name h
insert_spec-Leads a spec (b ∷ bs) h k = elim (Bool-cases (less b.name spec.name)) [
  | inl e ↦ rw (e, insert_spec) k
  | inr e ↦ rw (e, insert_spec) (less-asymmetric a.name spec.name h)
]

insert_spec-IsSorted :
    (spec : ToolSpec) (specs : List ToolSpec) → IsSorted specs → IsSorted (insert_spec spec specs)
unfolding insert_spec
insert_spec-IsSorted spec [] h = (tt, tt)
insert_spec-IsSorted spec (b ∷ bs) (l, h) = elim (Bool-cases (less b.name spec.name)) [
  | inl e ↦ rw (e, insert_spec) (insert_spec-Leads b spec bs e l, insert_spec-IsSorted spec bs h)
  | inr e ↦ rw (e, insert_spec) (e, (l, h))
]

insert_spec-Perm :
    (spec : ToolSpec) (specs : List ToolSpec) → Perm (insert_spec spec specs) (spec ∷ specs)
unfolding insert_spec
insert_spec-Perm spec [] = Perm.rfl
insert_spec-Perm spec (b ∷ bs) = elim (Bool-cases (less b.name spec.name)) [
  | inl e ↦
      rw (e, insert_spec)
        (Perm.trans (Perm.cons b (insert_spec-Perm spec bs)) (Perm.swap spec b bs))
  | inr e ↦ rw (e, insert_spec) Perm.rfl
]

sort_specs-IsSorted : (specs : List ToolSpec) → IsSorted (sort_specs specs)
unfolding sort_specs
sort_specs-IsSorted [] = tt
sort_specs-IsSorted (a ∷ as') = insert_spec-IsSorted a (sort_specs as') (sort_specs-IsSorted as')

sort_specs-Perm : (specs : List ToolSpec) → Perm (sort_specs specs) specs
unfolding sort_specs
sort_specs-Perm [] = Perm.rfl
sort_specs-Perm (a ∷ as') =
    Perm.trans (insert_spec-Perm a (sort_specs as')) (Perm.cons a (sort_specs-Perm as'))

module _ {S : Type 0} where
  -- The specifications of the tools in the options.
  abbrev pub specs_of : List (Option (Tool S)) → List ToolSpec
  specs_of [] = []
  specs_of (none ∷ ts) = specs_of ts
  specs_of (some t ∷ ts) = t.spec ∷ specs_of ts

  register-specs :
      (ts : List (Option (Tool S))) (tools tools' : List (Bytes × RegisteredTool S))
      (specs specs' : List ToolSpec)
      → register ts tools specs ≡ ok (tools', specs')
      → specs' ≡ specs ++ specs_of ts
  unfolding register
  register-specs [] tools tools' specs specs' e =
      let f : specs ≡ specs' = ground arith in sym f ∙ sym (append-nil specs)
  register-specs (none ∷ ts) tools tools' specs specs' e = cc
  register-specs (some t ∷ ts) tools tools' specs specs' e =
      let (valid, r₁) = >>-eq-ok _ _ e in
      let (fresh, r₂) = >>-eq-ok _ _ r₁ in
      register-specs ts _ tools' _ specs' r₂ ∙ append_assoc specs (t.spec ∷ []) (specs_of ts)

  -- A client that the constructor accepts advertises the specifications of the tools that it was given,
  -- each as often as it was given, in the order of their names.
  pub construct-IsSorted :
      (model : ModelDescriptor) (options : ClientOptions S) (client : AiClient S)
      → construct model options ≡ ok client
      → IsSorted client.tool_specs × Perm client.tool_specs (specs_of options.tools)
  unfolding construct
  construct-IsSorted model options client h =
      let (limited, r₁) = >>-eq-ok (check_limits model options) _ h in
      let (tracers, traced, r₂) = >>=-eq-ok (check_tracers options.tracers) _ r₁ in
      let ((tools, specs), done, r₃) = >>=-eq-ok (register options.tools [] []) _ r₂ in
      let (e₁, e₂, e₃, e₄, e₅) = assemble-ok model options tracers tools specs client r₃ in
      let same_specs = register-specs options.tools [] tools [] specs done in
      rw e₄ (
        sort_specs-IsSorted specs,
        subst (Perm (sort_specs specs)) same_specs (sort_specs-Perm specs),
      )
