-- ===== src/Session/Cache/Laws.antt =====
-- What a tool sees of the cache, key by key.
use neural_plus.Prelude.{
  ℕ, Bytes, same, same_iff, same_self, ◌==◌, not, ◌||◌, ◌&&◌, ◌≡◌, refl, Option, none, some, [],
  ◌∷◌, Option-cases, inl, inr, arith, if◌then◌else◌,
}
use neural_plus.Outcome.{Result, ok, err, bad_any_cast}
use neural_plus.Session.Cache.{
  Cache, lookup, store, erase, clear, contains, set, get, update, update_result, update_present,
}

module _ {V : Type 0} where
  pub lookup-store :
      (k j : Bytes) (v : V) (c : Cache V)
      → lookup j (store k v c) ≡ (if same k j then some v else lookup j c)
  unfolding lookup store
  lookup-store k j v [] = refl
  lookup-store k j v ((i, w) ∷ c) =
      ground (arith, same_iff k j, same_iff i k, same_iff i j, lookup-store k j v c)

  pub lookup-erase :
      (k j : Bytes) (c : Cache V) → lookup j (erase k c) ≡ (if same k j then none else lookup j c)
  unfolding lookup erase
  lookup-erase k j [] = ground arith
  lookup-erase k j ((i, w) ∷ c) =
      ground (arith, same_iff k j, same_iff i k, same_iff i j, lookup-erase k j c)

module _ {V : Type 0} (type_of : V → ℕ) where
  -- After `set`, the key holds the value at its own type and throws at every other type. After
  -- `erase` the key reads as absent. `contains` says the same, and after both every other key reads
  -- as before. After `clear` every key reads as absent.
  pub cache_laws :
      (key : Bytes) (v : V) (c : Cache V) (t : ℕ) (other : Bytes)
      → (get type_of t other (set key v c) ≡ (
          if same key other
          then (if type_of v == t then ok (some v) else err bad_any_cast)
          else get type_of t other c))
        × (get type_of t other (erase key c)
            ≡ (if same key other then ok none else get type_of t other c))
        × (contains other (set key v c) ≡ (same key other || contains other c))
        × (contains other (erase key c) ≡ (not (same key other) && contains other c))
        × (get type_of t other (clear c) ≡ ok none)
  unfolding get set contains clear
  cache_laws key v c t other = (
    ground (arith, lookup-store key other v c),
    ground (arith, lookup-erase key other c),
    ground (arith, lookup-store key other v c),
    ground (arith, lookup-erase key other c),
    unfold lookup in refl,
  )

abbrev pub current_or : {V : Type 0} → Option V → V → V
current_or none initial = initial
current_or (some v) initial = v

-- What the callback leaves: its result, or where it throws what it made of `*current`.
abbrev pub left_value : {T : Type 0} → Result T × T → T
left_value (ok value, changed) = value
left_value (err e, changed) = changed

module _ {V T : Type 0} (make : T → V) (any_cast : V → Option T) where
  -- What `update` gives, and what it leaves under its key, by the value that was current.
  abbrev pub updated_result : (T → Result T × T) → V → Result T
  updated_result update_function v = elim (any_cast v) [
    | none ↦ err bad_any_cast
    | some current ↦ (update_function current).0
  ]

  abbrev pub updated_value : (T → Result T × T) → V → V
  updated_value update_function v = elim (any_cast v) [
    | none ↦ v
    | some current ↦ make (left_value (update_function current))
  ]

  update_result_lem :
      (key other : Bytes) (c : Cache V) (p : Result T × T)
      → ((update_result make any_cast key c p).0 ≡ p.0)
        × (lookup other (update_result make any_cast key c p).1
            ≡ (if same key other then some (make (left_value p)) else lookup other c))
  update_result_lem key other c (ok value, changed) = (refl, lookup-store key other (make value) c)
  update_result_lem key other c (err e, changed) = (refl, lookup-store key other (make changed) c)

  update_present_lem :
      (key other : Bytes) (update_function : T → Result T × T) (c : Cache V) (v : V)
      → lookup key c ≡ some v
      → ((update_present make any_cast key update_function c v).0
          ≡ updated_result update_function v)
        × (lookup other (update_present make any_cast key update_function c v).1
            ≡ (if same key other then some (updated_value update_function v) else lookup other c))
  update_present_lem key other update_function c v h = elim (Option-cases (any_cast v)) [
    | inl e ↦
        rw (e, update_present, updated_result, updated_value)
          (refl, ground (arith, same_iff key other))
    | inr (current, e) ↦
        rw (e, update_present, updated_result, updated_value)
          (update_result_lem key other c (update_function current))
  ]

  -- `update` of a key at a type, with the value that is there or else the initial one as the current value. A
  -- current value of another type throws and stays. Otherwise the callback runs on the current value:
  -- what it returns is returned and stored; where it throws, its error is thrown, and what it has left in
  -- the current value stays under the key, also if the key was absent. Every other key reads as before.
  pub update_lem :
      (key other : Bytes) (initial : T) (update_function : T → Result T × T) (c : Cache V)
      → ((update make any_cast key initial update_function c).0
          ≡ updated_result update_function (current_or (lookup key c) (make initial)))
        × (lookup other (update make any_cast key initial update_function c).1 ≡ (
            if same key other
            then some (updated_value update_function (current_or (lookup key c) (make initial)))
            else lookup other c))
  unfolding update
  update_lem key other initial update_function c = elim (Option-cases (lookup key c)) [
    | inr (v, e) ↦ rw (e, update) (update_present_lem key other update_function c v e)
    | inl e ↦
        let (first, found) =
          update_present_lem key other update_function (store key (make initial) c) (make initial)
            (ground (arith, lookup-store key key (make initial) c, same_self key)) in
        rw (e, update) (first, ground (arith, found, lookup-store key other (make initial) c))
  ]
