-- ===== src/Prelude/Search.antt =====
-- Searching in texts, and ASCII letters without their case.
use Prim.Native.Nat.{ℕ}
use mathlib.Core.Bool.{Bool, true, false, ◌&&◌, ◌||◌}
use mathlib.Core.Option.{Option, none, some}
use mathlib.Core.List.{[], ◌∷◌, reverse}
use neural_plus.Prelude.Tests.{◌==◌}
use neural_plus.Prelude.Text.{Bytes}

-- Whether `text` begins with `start`.
unfoldable pub starts_with : (start text : Bytes) → Bool
starts_with [] text = true
starts_with (a ∷ start) [] = false
starts_with (a ∷ start) (b ∷ text) = a == b && starts_with start text

-- `text.find(part) != std::string::npos`.
unfoldable pub includes : (part text : Bytes) → Bool
unfolding starts_with
includes part [] = starts_with part []
includes part (b ∷ text) = starts_with part (b ∷ text) || includes part text

unfoldable pub ends_with : (end text : Bytes) → Bool
unfolding starts_with
ends_with end text = starts_with (reverse end) (reverse text)

-- `text.find(c)`: what stands before and after the first `c`.
unfoldable pub split_at : ℕ → Bytes → Option (Bytes × Bytes)
split_at c [] = none
split_at c (b ∷ text) = elim (b == c) [
  | true ↦ some ([], text)
  | false ↦ elim (split_at c text) [ none ↦ none | some (before, after) ↦ some (b ∷ before, after) ]
]

unfoldable pub drop_while : (ℕ → Bool) → Bytes → Bytes
drop_while p [] = []
drop_while p (b ∷ text) = elim (p b) [ true ↦ drop_while p text | false ↦ b ∷ text ]

unfoldable pub take_until : (ℕ → Bool) → Bytes → Bytes
take_until p [] = []
take_until p (b ∷ text) = elim (p b) [ true ↦ [] | false ↦ b ∷ take_until p text ]
