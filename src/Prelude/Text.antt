-- ===== src/Prelude/Text.antt =====
-- `std::string` as its bytes: literals, equality, decimal printing.
use Prim.Native.Nat.{ℕ, zero, suc, ◌+◌, ◌/◌, ◌%◌}
use Prim.Native.Char.{code}
use Prim.Native.String.{String}
use mathlib.Core.Path.{◌≡◌, refl}
use mathlib.Core.Logic.{◌↔◌}
use mathlib.Core.Bool.{Bool, true, false, ◌&&◌}
use mathlib.Core.List.{List, [], ◌∷◌, ◌++◌}
use native.Mathlib.Omega.{arith}
use neural_plus.Prelude.Tests.{ltb, ◌==◌, if◌then◌else◌}

abbrev pub Bytes : Type 0
Bytes = List ℕ

-- A literal of the source: its ASCII codes.
unfoldable pub lit : String → Bytes
lit String.[] = []
lit (String.◌∷◌ c s) = code c ∷ lit s

-- `operator==` of two strings.
unfoldable pub same : Bytes → Bytes → Bool
same [] [] = true
same [] (b ∷ bs) = false
same (a ∷ as') [] = false
same (a ∷ as') (b ∷ bs) = a == b && same as' bs

pub same→eq : (s t : Bytes) → same s t ≡ true → s ≡ t
unfolding same
same→eq [] [] h = refl
same→eq [] (b ∷ bs) h = cc
same→eq (a ∷ s) [] h = cc
same→eq (a ∷ s) (b ∷ t) h = ground (arith, same→eq s t)

pub same_self : (s : Bytes) → same s s ≡ true
unfolding same
same_self [] = refl
same_self (a ∷ s) = ground (arith, same_self s)

pub same_iff : (s t : Bytes) → (same s t ≡ true) ↔ (s ≡ t)
same_iff s t = (same→eq s t, λ e. rw e (same_self t))

-- `std::to_string` of an unsigned number: at most one digit for each unit of fuel, and `n < n + 1`.
digits : ℕ → ℕ → Bytes
digits zero n = []
digits (suc f) n =
    let rest = digits f (n / 10) ++ (48 + n % 10) ∷ [] in if ltb n 10 then (48 + n) ∷ [] else rest

unfoldable pub to_string : ℕ → Bytes
unfolding digits
to_string n = digits (n + 1) n
