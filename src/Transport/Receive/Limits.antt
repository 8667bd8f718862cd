-- ===== src/Transport/Receive/Limits.antt =====
-- The callbacks keep what they store within the limits, and store all that they take.
use neural_plus.Prelude.{
  ℕ, zero, suc, ◌+◌, ◌≤◌, Bytes, ◌≡◌, Bool, false, Bool-cases, inl, inr, Option, none, some, List,
  [], ◌∷◌, ◌++◌, reverse, length, length-append, take, ◌==◌, arith, split_at, drop_while,
}
use mathlib.Core.List.{reverse_aux}
use neural_plus.Transport.{HttpHeader}
use neural_plus.Transport.Check.{trim_ascii, is_space}
use neural_plus.Transport.Receive.{
  BodyWriteContext, HeaderWriteContext, Delivery, callback_bytes, over_limit, byte_count,
  write_body, write_header, parse_header,
}

-- The bytes of the names and values of headers.
abbrev pub header_bytes : List HttpHeader → ℕ
header_bytes [] = 0
header_bytes (h ∷ hs) = length h.name + length h.value + header_bytes hs

header_bytes-append :
    (hs gs : List HttpHeader) → header_bytes (hs ++ gs) ≡ header_bytes hs + header_bytes gs
header_bytes-append [] gs = omega arith
header_bytes-append (h ∷ hs) gs = omega (arith, header_bytes-append hs gs)

length-take : (n : ℕ) (text : Bytes) → length (take n text) ≤ n
length-take zero text = omega arith
length-take (suc n) [] = omega arith
length-take (suc n) (b ∷ text) = omega (arith, length-take n text)

length-drop_while : (p : ℕ → Bool) (text : Bytes) → length (drop_while p text) ≤ length text
unfolding drop_while
length-drop_while p [] = omega arith
length-drop_while p (b ∷ text) = elim (Bool-cases (p b)) [
  | inl e ↦ rw (e, drop_while) (omega (arith, length-drop_while p text))
  | inr e ↦ rw (e, drop_while) (omega arith)
]

-- The size of a text that was split.
abbrev split_length : Option (Bytes × Bytes) → ℕ
split_length none = 0
split_length (some (before, after)) = suc (length before + length after)

split_length-split_at : (c : ℕ) (text : Bytes) → split_length (split_at c text) ≤ length text
unfolding split_at
split_length-split_at c [] = omega arith
split_length-split_at c (b ∷ text) = elim (Bool-cases (b == c)) [
  | inl e ↦ rw (e, split_at) (omega arith)
  | inr e ↦ rw (e, split_at) (longer (split_at c text) (split_length-split_at c text))
]
  where
    longer :
        (o : Option (Bytes × Bytes))
        → split_length o ≤ length text
        → split_length (elim o [ none ↦ none | some (x, y) ↦ some (b ∷ x, y) ]) ≤ length (b ∷ text)
    longer none h = omega arith
    longer (some (x, y)) h = omega arith

length-reverse_aux :
    (text done : Bytes) → length (reverse_aux text done) ≡ length text + length done
length-reverse_aux [] done = omega arith
length-reverse_aux (b ∷ text) done = omega (arith, length-reverse_aux text (b ∷ done))

length-reverse : (text : Bytes) → length (reverse text) ≡ length text
length-reverse text = omega (arith, length-reverse_aux text [])

length-trim_ascii : (text : Bytes) → length (trim_ascii text) ≤ length text
unfolding trim_ascii
length-trim_ascii text =
    let outer = length-drop_while is_space (reverse (drop_while is_space text)) in
    let inner = length-drop_while is_space text in
    let r = length-reverse (drop_while is_space (reverse (drop_while is_space text))) in
    let q = length-reverse (drop_while is_space text) in omega arith

header_bytes-parse_header : (line : Bytes) → header_bytes (parse_header line) ≤ length line
unfolding parse_header
header_bytes-parse_header line = go (split_at b':' line) (split_length-split_at b':' line)
  where
    go :
        (o : Option (Bytes × Bytes))
        → split_length o ≤ length line
        → header_bytes (elim o [
          | none ↦ []
          | some (name, value) ↦
              record { name = trim_ascii name; value = trim_ascii value; sensitive = false } ∷ []
        ])
          ≤ length line
    go none h = omega arith
    go (some (x, y)) h = omega (arith, length-trim_ascii x, length-trim_ascii y)

abbrev pub BodyWithin : ℕ → BodyWriteContext → Type 0
BodyWithin limit context = (context.limit ≡ limit) × (length context.body ≤ limit)

abbrev pub HeadersWithin : ℕ → HeaderWriteContext → Type 0
HeadersWithin limit context =
    (context.limit ≡ limit)
    × (header_bytes context.headers ≤ context.received)
    × (context.received ≤ limit)

over_limit-false :
    (bytes : Option ℕ) (limit used : ℕ)
    → used ≤ limit
    → over_limit bytes limit used ≡ false
    → used + byte_count bytes ≤ limit
over_limit-false none limit used u h = cc
over_limit-false (some bytes) limit used u h = ground arith

pub write_body-BodyWithin :
    (limit : ℕ) (d : Delivery) (context : BodyWriteContext)
    → BodyWithin limit context
    → BodyWithin limit (write_body d context).1
unfolding write_body
write_body-BodyWithin limit d context (l, h) =
    let bytes = callback_bytes d.item_size d.item_count in
    elim (Bool-cases (over_limit bytes context.limit (length context.body))) [
      | inl e ↦ rw e (l, h)
      | inr e ↦ rw e (
        l,
        let room =
              over_limit-false bytes context.limit (length context.body) (omega (arith, l, h)) e in
            let t = length-take (byte_count bytes) d.buffer in
            let a = length-append context.body (take (byte_count bytes) d.buffer) in omega arith,
      )
    ]

pub write_header-HeadersWithin :
    (limit : ℕ) (d : Delivery) (context : HeaderWriteContext)
    → HeadersWithin limit context
    → HeadersWithin limit (write_header d context).1
unfolding write_header
write_header-HeadersWithin limit d context (l, h, k) =
    let bytes = callback_bytes d.item_size d.item_count in
    let line = take (byte_count bytes) d.buffer in
    elim (Bool-cases (over_limit bytes context.limit context.received)) [
      | inl e ↦ rw e (l, h, k)
      | inr e ↦ rw e (
        l,
        (let t = length-take (byte_count bytes) d.buffer in
            let p = header_bytes-parse_header line in
            let a = header_bytes-append context.headers (parse_header line) in omega arith),
        (let room = over_limit-false bytes context.limit context.received (omega (arith, l, k)) e in
            omega arith),
      )
    ]
