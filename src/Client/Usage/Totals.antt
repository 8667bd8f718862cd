-- ===== src/Client/Usage/Totals.antt =====
-- The usage that a generation reports, against the sum over its rounds.
use neural_plus.Prelude.{
  ℕ, ◌+◌, ◌≤◌, ◌≡◌, refl, Bool, true, false, Option, none, some, List, [], ◌∷◌, arith, map, sym,
  ◌∙◌,
}
use neural_plus.Outcome.{Result, ok, ◌>>=◌, >>=-eq-ok}
use neural_plus.Types.Records.{TokenUsage, no_usage}
use neural_plus.Client.Usage.{size_max, add_count, add_usage}

pub data Field : Type 0 where
  input output total cached creation reasoning : Field

abbrev pub field_of : Field → TokenUsage → Option ℕ
field_of input u = u.input_tokens
field_of output u = u.output_tokens
field_of total u = u.total_tokens
field_of cached u = u.cached_input_tokens
field_of creation u = u.cache_creation_input_tokens
field_of reasoning u = u.reasoning_tokens

-- The calls that the rounds of one generation make, from the usage before the round.
unfoldable pub add_rounds : TokenUsage → List TokenUsage → Bool → Result TokenUsage
add_rounds sum [] first_value = ok sum
add_rounds sum (u ∷ us) first_value = do
  next ← add_usage sum u first_value
  add_rounds next us false

abbrev pub plus : Option ℕ → Option ℕ → Option ℕ
plus (some a) (some b) = some (a + b)
plus _ none = none
plus none (some b) = none

-- The sum of counts that are all reported, and no value if one is missing.
abbrev pub sum_reported : List (Option ℕ) → Option ℕ
sum_reported [] = some 0
sum_reported (v ∷ vs) = plus v (sum_reported vs)

abbrev pub or_zero : Option ℕ → ℕ
or_zero none = 0
or_zero (some n) = n

abbrev pub sum_present : List (Option ℕ) → ℕ
sum_present [] = 0
sum_present (v ∷ vs) = or_zero v + sum_present vs

add_usage-field :
    (t u r : TokenUsage) (b : Bool)
    → add_usage t u b ≡ ok r
    → (k : Field) → add_count (field_of k t) (field_of k u) b ≡ ok (field_of k r)
unfolding add_usage
add_usage-field t u r b h input = ground arith
add_usage-field t u r b h output = ground arith
add_usage-field t u r b h total = ground arith
add_usage-field t u r b h cached = ground arith
add_usage-field t u r b h creation = ground arith
add_usage-field t u r b h reasoning = ground arith

add_count-first : (a v : Option ℕ) → add_count a v true ≡ ok v
unfolding add_count
add_count-first a none = refl
add_count-first a (some v) = refl

add_count-ok :
    (a v r : Option ℕ)
    → add_count a v false ≡ ok r
    → (r ≡ plus a v) × (or_zero a ≤ size_max → or_zero r ≤ size_max)
unfolding add_count
add_count-ok a none r h = ground arith
add_count-ok none (some v) r h = ground arith
add_count-ok (some a) (some v) r h = ground arith

plus_assoc : (a b c : Option ℕ) → plus (plus a b) c ≡ plus a (plus b c)
plus_assoc (some a) (some b) (some c) = ground arith
plus_assoc (some a) none (some c) = refl
plus_assoc none (some b) (some c) = refl
plus_assoc none none (some c) = refl
plus_assoc (some a) (some b) none = refl
plus_assoc (some a) none none = refl
plus_assoc none (some b) none = refl
plus_assoc none none none = refl

plus-zero : (a : Option ℕ) → plus a (some 0) ≡ a
plus-zero none = refl
plus-zero (some a) = ground arith

zero-plus : (a : Option ℕ) → plus (some 0) a ≡ a
zero-plus none = refl
zero-plus (some a) = ground arith

add_rounds-ok :
    (s r : TokenUsage) (us : List TokenUsage)
    → add_rounds s us false ≡ ok r
    → (k : Field)
    → (field_of k r ≡ plus (field_of k s) (sum_reported (map (field_of k) us)))
      × (or_zero (field_of k s) ≤ size_max → or_zero (field_of k r) ≤ size_max)
unfolding add_rounds
add_rounds-ok s r [] h k = let e : s ≡ r = cc in rw (← e) (sym (plus-zero _), λ b. b)
add_rounds-ok s r (u ∷ us) h k =
    let (next, added, rest) = >>=-eq-ok (add_usage s u false) (λ n. add_rounds n us false) h in
    let (sum, bound) = add_rounds-ok next r us rest k in
    let (step, step_bound) = add_count-ok _ _ _ (add_usage-field s u next false added k) in
    (sum ∙ rw step (plus_assoc _ _ _), λ b. bound (step_bound b))

-- When the usages of one or more rounds are added without an error, each of the six counts is the sum
-- over the rounds if every round gave that count, and no value if some round gave none; where the
-- first round's count fits `std::size_t`, so does the result.
pub usage_totals :
    (u r : TokenUsage) (us : List TokenUsage) (k : Field)
    → or_zero (field_of k u) ≤ size_max
    → add_rounds no_usage (u ∷ us) true ≡ ok r
    → (field_of k r ≡ sum_reported (map (field_of k) (u ∷ us)))
      × (or_zero (field_of k r) ≤ size_max)
unfolding add_rounds
usage_totals u r us k fits h =
    let (first, added, rest) =
      >>=-eq-ok (add_usage no_usage u true) (λ n. add_rounds n us false) h in
    let (sum, bound) = add_rounds-ok first r us rest k in
    let e : field_of k u ≡ field_of k first =
      some_ok (sym (add_count-first _ _) ∙ add_usage-field no_usage u first true added k) in
    (rw e sum, bound (rw (← e) fits))
  where
    some_ok : {a b : Option ℕ} → ok a ≡ ok b → a ≡ b
    some_ok p = cc

add_count-total :
    (a v : Option ℕ)
    → or_zero a + or_zero v ≤ size_max
    → (r : Option ℕ) × (add_count a v false ≡ ok r) × (or_zero r ≤ or_zero a + or_zero v)
unfolding add_count
add_count-total a none h = (none, refl, ground arith)
add_count-total none (some v) h = (none, refl, ground arith)
add_count-total (some a) (some v) h = (some (a + v), ground arith, ground arith)

abbrev Room : TokenUsage → ℕ → Field → Type 0
Room t n k = or_zero (field_of k t) + n ≤ size_max

add_usage-total :
    (t u : TokenUsage)
    → ((k : Field) → Room t (or_zero (field_of k u)) k)
    → (r : TokenUsage) × (add_usage t u false ≡ ok r)
      × ((k : Field) → or_zero (field_of k r) ≤ or_zero (field_of k t) + or_zero (field_of k u))
unfolding add_usage
add_usage-total t u h =
    let (a, ea, la) = add_count-total t.input_tokens u.input_tokens (h input) in
    let (b, eb, lb) = add_count-total t.output_tokens u.output_tokens (h output) in
    let (c, ec, lc) = add_count-total t.total_tokens u.total_tokens (h total) in
    let (d, ed, ld) = add_count-total t.cached_input_tokens u.cached_input_tokens (h cached) in
    let (e, ee, le) =
      add_count-total t.cache_creation_input_tokens u.cache_creation_input_tokens (h creation) in
    let (f, ef, lf) = add_count-total t.reasoning_tokens u.reasoning_tokens (h reasoning) in
    (
      record {
        input_tokens = a;
        output_tokens = b;
        total_tokens = c;
        cached_input_tokens = d;
        cache_creation_input_tokens = e;
        reasoning_tokens = f;
      },
      rw (ea, eb, ec, ed, ee, ef),
      elim [ input ↦ la | output ↦ lb | total ↦ lc | cached ↦ ld | creation ↦ le | reasoning ↦ lf ],
    )

add_rounds-total :
    (t : TokenUsage) (us : List TokenUsage)
    → ((k : Field) → Room t (sum_present (map (field_of k) us)) k)
    → (r : TokenUsage) × (add_rounds t us false ≡ ok r)
unfolding add_rounds
add_rounds-total t [] h = (t, refl)
add_rounds-total t (u ∷ us) h =
    let (next, e, bound) = add_usage-total t u (λ k. omega (arith, h k)) in
    let (r, p) = add_rounds-total next us (λ k. omega (arith, h k, bound k)) in (r, rw e p)

-- The sum of the rounds is never refused by mistake: where each of the six counts, summed over the
-- rounds that gave it, fits `std::size_t`, adding the usages throws nothing.
pub usage_totals_accepted :
    (u : TokenUsage) (us : List TokenUsage)
    → ((k : Field) → sum_present (map (field_of k) (u ∷ us)) ≤ size_max)
    → (r : TokenUsage) × (add_rounds no_usage (u ∷ us) true ≡ ok r)
unfolding add_rounds add_usage
usage_totals_accepted u us h = let (r, p) = add_rounds-total u us h in (r, simp add_count-first p)
