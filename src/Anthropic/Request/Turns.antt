-- ===== src/Anthropic/Request/Turns.antt =====
-- The roles of the turns that are sent.
use neural_plus.Prelude.{
  Bytes, lit, same, ◌≡◌, refl, sym, ap, subst, true, false, Bool-cases, inl, inr, ◌⊎◌, Option, none,
  some, List, [], ◌∷◌, ◌++◌,
}
use neural_plus.Outcome.{ok, >>=-eq-ok}
use neural_plus.Json.{JsonValue, elements, elements_of, find_member, put_member, less}
use neural_plus.Types.Message.{Message}
use neural_plus.Anthropic.Request.{
  turn, extend_turn, append_anthropic_turn, turn_of, append_some, append_anthropic_history,
}

-- The turn of a role with some blocks.
pub record IsTurn (m : JsonValue) (role : Bytes) : Type 0 where
  pub blocks : List JsonValue
  pub shape : m ≡ turn role blocks

-- Turns that begin with the role, each of another role than the one before it.
pub data Alternates : Bytes → List JsonValue → Type 0 where
  last_turn : (m : JsonValue) (role : Bytes) → IsTurn m role → Alternates role (m ∷ [])
  next_turn :
      (m : JsonValue) (role other : Bytes) (ms : List JsonValue)
      → IsTurn m role
      → same role other ≡ false
      → Alternates other ms
      → Alternates role (m ∷ ms)

elements-elements_of : (vs : List JsonValue) → elements (elements_of vs) ≡ vs
elements-elements_of [] = refl
elements-elements_of (v ∷ vs) = ap (λ t. v ∷ t) (elements-elements_of vs)

extend_turn-same :
    (first role : Bytes) (old blocks : List JsonValue)
    → same first role ≡ true
    → extend_turn (turn first old) role blocks ≡ turn first (old ++ blocks) ∷ []
unfolding extend_turn turn lit less same find_member put_member
extend_turn-same first role old blocks h = rw (h, elements-elements_of old) refl

extend_turn-other :
    (first role : Bytes) (old blocks : List JsonValue)
    → same first role ≡ false
    → extend_turn (turn first old) role blocks ≡ turn first old ∷ turn role blocks ∷ []
unfolding extend_turn turn lit less same find_member put_member
extend_turn-other first role old blocks h = rw h refl

extended-Alternates :
    (r role : Bytes) (m : JsonValue) (blocks : List JsonValue)
    → IsTurn m r
    → Alternates r (extend_turn m role blocks)
extended-Alternates r role m blocks it =
    subst (λ t. Alternates r (extend_turn t role blocks)) (sym it.shape)
      (elim (Bool-cases (same r role)) [
        | inl e ↦ subst (Alternates r) (sym (extend_turn-same r role it.blocks blocks e)) (
            last_turn (turn r (it.blocks ++ blocks)) r
              (record { blocks = it.blocks ++ blocks; shape = refl }))
        | inr e ↦ subst (Alternates r) (sym (extend_turn-other r role it.blocks blocks e)) (
            next_turn (turn r it.blocks) r role (turn role blocks ∷ [])
              (record { blocks = it.blocks; shape = refl }) e
              (last_turn (turn role blocks) role (record { blocks = blocks; shape = refl })))
      ])

append_anthropic_turn-Alternates :
    (r role : Bytes) (ms : List JsonValue) (blocks : List JsonValue)
    → Alternates r ms
    → Alternates r (append_anthropic_turn ms role blocks)
unfolding append_anthropic_turn
append_anthropic_turn-Alternates r role ms blocks (last_turn m _ it) =
    extended-Alternates r role m blocks it
append_anthropic_turn-Alternates r role ms blocks (next_turn m _ other _ it ne (last_turn n _ jt)) =
    next_turn m r other (extend_turn n role blocks) it ne
      (extended-Alternates other role n blocks jt)
append_anthropic_turn-Alternates r role ms blocks
      (next_turn m _ other _ it ne (next_turn n _ o ns jt nf a)) =
    next_turn m r other (append_anthropic_turn (n ∷ ns) role blocks) it ne
      (append_anthropic_turn-Alternates other role (n ∷ ns) blocks (next_turn n other o ns jt nf a))

-- No turns, or turns that alternate.
abbrev pub Alternating : List JsonValue → Type 0
Alternating turns = (turns ≡ []) ⊎ ((role : Bytes) × Alternates role turns)

append_some-Alternating :
    (turns : List JsonValue) (added : Option (Bytes × List JsonValue))
    → Alternating turns
    → Alternating (append_some turns added)
unfolding append_anthropic_turn
append_some-Alternating turns none h = h
append_some-Alternating turns (some (role, blocks)) (inl e) =
    rw e (inr (role, last_turn (turn role blocks) role (record { blocks = blocks; shape = refl })))
append_some-Alternating turns (some (role, blocks)) (inr (r, a)) =
    inr (r, append_anthropic_turn-Alternates r role turns blocks a)

append_anthropic_history-Alternating :
    (turns : List JsonValue) (ms : List Message) (result : List JsonValue)
    → Alternating turns
    → append_anthropic_history turns ms ≡ ok result
    → Alternating result
unfolding append_anthropic_history
append_anthropic_history-Alternating turns [] result h e =
    let q : turns ≡ result = cc in subst Alternating q h
append_anthropic_history-Alternating turns (m ∷ ms) result h e =
    let (added, f, k) =
      >>=-eq-ok (turn_of m) (λ added. append_anthropic_history (append_some turns added) ms) e in
    append_anthropic_history-Alternating (append_some turns added) ms result
      (append_some-Alternating turns added h) k

-- The turns that are sent for a history alternate: each one has a role and its blocks, and two that
-- follow one another have different roles.
pub history-Alternating :
    (messages : List Message) (turns : List JsonValue)
    → append_anthropic_history [] messages ≡ ok turns
    → (turns ≡ []) ⊎ ((role : Bytes) × Alternates role turns)
history-Alternating messages turns e =
    append_anthropic_history-Alternating [] messages turns (inl refl) e
