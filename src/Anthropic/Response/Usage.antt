-- ===== src/Anthropic/Response/Usage.antt =====
-- The token counts of a response.
use neural_plus.Prelude.{ℕ, Option, none, some}

abbrev pub count : Option ℕ → ℕ
count none = 0
count (some n) = n
