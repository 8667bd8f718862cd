-- ===== src/Session/Cache.antt =====
-- `SessionState` of include/neuralplus/session.hpp: the typed cache of a session. A `std::any` is a value
-- of `V`, and `type_of` tells the type it was stored at, which is what `any_cast` compares. Every
-- operation takes the cache mutex, so it is one atomic step.
pub mod Laws
use neural_plus.Prelude.{
  ℕ, Bytes, same, ◌==◌, Bool, Option, none, some, List, [], ◌∷◌, is_some, if◌then◌else◌,
}
use neural_plus.Outcome.{Result, ok, err, Error, bad_any_cast}

-- `std::unordered_map<std::string, std::any>`; nothing reads its order.
abbrev pub Cache : Type 0 → Type 0
Cache V = List (Bytes × V)

module _ {V : Type 0} where
  unfoldable pub lookup : Bytes → Cache V → Option V
  lookup key [] = none
  lookup key ((k, v) ∷ c) = if same k key then some v else lookup key c

  -- `values_[key] = value`.
  unfoldable pub store : Bytes → V → Cache V → Cache V
  store key v [] = (key, v) ∷ []
  store key v ((k, w) ∷ c) = if same k key then (key, v) ∷ c else (k, w) ∷ store key v c

  unfoldable pub erase : Bytes → Cache V → Cache V
  erase key [] = []
  erase key ((k, v) ∷ c) = let rest = erase key c in if same k key then rest else (k, v) ∷ rest

  unfoldable pub clear : Cache V → Cache V
  clear c = []

  unfoldable pub contains : Bytes → Cache V → Bool
  contains key c = is_some (lookup key c)

  unfoldable pub set : Bytes → V → Cache V → Cache V
  set = store

module _ {V : Type 0} (type_of : V → ℕ) where
  unfoldable pub get : ℕ → Bytes → Cache V → Result (Option V)
  get t key c = elim (lookup key c) [
    | none ↦ ok none
    | some v ↦ if type_of v == t then ok (some v) else err bad_any_cast
  ]

-- Values of a type `T` in the cache: `make` stores one, and `any_cast` has a value where the pointer is not
-- null.
module _ {V T : Type 0} (make : T → V) (any_cast : V → Option T) where
  abbrev update_result : Bytes → Cache V → Result T × T → Result T × Cache V
  update_result key c (ok value, changed) = (ok value, store key (make value) c)
  update_result key c (err e, changed) = (err e, store key (make changed) c)

  abbrev update_present : Bytes → (T → Result T × T) → Cache V → V → Result T × Cache V
  update_present key update_function c v = elim (any_cast v) [
    | none ↦ (err bad_any_cast, c)
    | some current ↦ update_result key c (update_function current)
  ]

  -- The callback takes `*current` by reference: it throws or returns, and leaves some value in `*current`,
  -- which the returned one then replaces. `try_emplace` comes first, so that the initial value, or
  -- what the callback made of it, stays where the callback throws.
  unfoldable pub update : Bytes → T → (T → Result T × T) → Cache V → Result T × Cache V
  unfolding lookup store
  update key initial update_function c = elim (lookup key c) [
    | none ↦ update_present key update_function (store key (make initial) c) (make initial)
    | some v ↦ update_present key update_function c v
  ]
