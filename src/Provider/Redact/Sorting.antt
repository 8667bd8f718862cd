-- ===== src/Provider/Redact/Sorting.antt =====
-- The secrets sorted by their length: the same ones, the longest first.
use neural_plus.Prelude.{
  ◌≤◌, Bytes, sym, subst, Bool-cases, inl, inr, ◌↔◌, List, [], ◌∷◌, length, ltb, arith, All,
}
use mathlib.Core.List.{Memᴰ}
use mathlib.Core.List.Memᴰ
use neural_plus.Provider.Redact.{SensitiveValues, insert_longer, longest_first}

-- Every value is at most as long as those before it.
abbrev pub Sorted : SensitiveValues → Type 0
Sorted [] = Unit
Sorted (v ∷ values) = All (λ w. length w ≤ length v) values × Sorted values

pub All-Memᴰ : (P : Bytes → Type 0) (xs : List Bytes) (x : Bytes) → All P xs → Memᴰ x xs → P x
All-Memᴰ P [] x h m = absurd (Memᴰ.not-nil m)
All-Memᴰ P (y ∷ xs) x (p, h) (Memᴰ.head e) = subst P (sym e) p
All-Memᴰ P (y ∷ xs) x (p, h) (Memᴰ.tail m) = All-Memᴰ P xs x h m

All-weaken :
    (P Q : Bytes → Type 0) (xs : List Bytes) → ((x : Bytes) → P x → Q x) → All P xs → All Q xs
All-weaken P Q [] f h = tt
All-weaken P Q (x ∷ xs) f (p, h) = (f x p, All-weaken P Q xs f h)

insert_longer-All :
    (P : Bytes → Type 0) (v : Bytes) (values : SensitiveValues)
    → P v
    → All P values
    → All P (insert_longer v values)
unfolding insert_longer
insert_longer-All P v [] p h = (p, tt)
insert_longer-All P v (w ∷ values) p (q, h) = elim (Bool-cases (ltb (length v) (length w))) [
  | inl e ↦ rw e (q, insert_longer-All P v values p h)
  | inr e ↦ rw e (p, (q, h))
]

insert_longer-Sorted :
    (v : Bytes) (values : SensitiveValues) → Sorted values → Sorted (insert_longer v values)
unfolding insert_longer
insert_longer-Sorted v [] h = (tt, tt)
insert_longer-Sorted v (w ∷ values) (a, h) = elim (Bool-cases (ltb (length v) (length w))) [
  | inl e ↦
      let shorter : length v ≤ length w = ground arith in
      rw e (
        insert_longer-All (λ x. length x ≤ length w) v values shorter a,
        insert_longer-Sorted v values h,
      )
  | inr e ↦
      let longer : length w ≤ length v = ground arith in
      rw e (
        (
          longer,
          All-weaken (λ x. length x ≤ length w) (λ x. length x ≤ length v) values
              (λ x k. omega arith) a,
        ),
        (a, h),
      )
]

pub longest_first-Sorted : (values : SensitiveValues) → Sorted (longest_first values)
unfolding longest_first
longest_first-Sorted [] = tt
longest_first-Sorted (v ∷ values) =
    insert_longer-Sorted v (longest_first values) (longest_first-Sorted values)

insert_longer-Memᴰ :
    (v x : Bytes) (values : SensitiveValues) → Memᴰ x (insert_longer v values) ↔ Memᴰ x (v ∷ values)
unfolding insert_longer
insert_longer-Memᴰ v x [] = (λ m. m, λ m. m)
insert_longer-Memᴰ v x (w ∷ values) =
    let ih = insert_longer-Memᴰ v x values in
    elim (Bool-cases (ltb (length v) (length w))) [
      | inl e ↦ rw e (
        λ m. elim m [
          | Memᴰ.head q ↦ Memᴰ.tail (Memᴰ.head q)
          | Memᴰ.tail k ↦ elim (ih.0 k) [
            | Memᴰ.head q ↦ Memᴰ.head q
            | Memᴰ.tail l ↦ Memᴰ.tail (Memᴰ.tail l)
          ]
        ],
        λ m. elim m [
          | Memᴰ.head q ↦ Memᴰ.tail (ih.1 (Memᴰ.head q))
          | Memᴰ.tail k ↦ elim k [
            | Memᴰ.head q ↦ Memᴰ.head q
            | Memᴰ.tail l ↦ Memᴰ.tail (ih.1 (Memᴰ.tail l))
          ]
        ],
      )
      | inr e ↦ rw e (λ m. m, λ m. m)
    ]

pub longest_first-Memᴰ :
    (x : Bytes) (values : SensitiveValues) → Memᴰ x (longest_first values) ↔ Memᴰ x values
unfolding longest_first
longest_first-Memᴰ x [] = (λ m. m, λ m. m)
longest_first-Memᴰ x (v ∷ values) =
    let ih = longest_first-Memᴰ x values in
    let inserted = insert_longer-Memᴰ v x (longest_first values) in
    (
      λ m. elim (inserted.0 m) [ Memᴰ.head q ↦ Memᴰ.head q | Memᴰ.tail k ↦ Memᴰ.tail (ih.0 k) ],
      λ m. inserted.1 (elim m [ Memᴰ.head q ↦ Memᴰ.head q | Memᴰ.tail k ↦ Memᴰ.tail (ih.1 k) ]),
    )
