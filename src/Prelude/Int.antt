-- ===== src/Prelude/Int.antt =====
-- The signed machine integers of the program (`int`, `std::int64_t`, counts of milliseconds).
use Prim.Native.Nat.{ℕ}

-- `negsuc n` is -(n + 1).
pub data ℤ : Type 0 where
  pos : ℕ → ℤ
  negsuc : ℕ → ℤ
