-- ===== src/Transport/Receive/Whole.antt =====
-- A part is stored whole or refused, by what was stored before and the limit alone.
use neural_plus.Prelude.{
  ◌+◌, ◌≤◌, ◌<◌, Bytes, ◌≡◌, refl, ap, true, some, [], ◌∷◌, ◌++◌, length, take, arith,
}
use neural_plus.Transport.Receive.{
  BodyWriteContext, HeaderWriteContext, Delivery, callback_bytes, write_body, write_header,
  parse_header,
}
use neural_plus.Client.Usage.{size_max}

-- What libcurl documents of a call: the size of an item is one, and the buffer holds the items.
abbrev pub Documented : Delivery → Type 0
Documented d = (d.item_size ≡ 1) × (d.item_count ≡ length d.buffer) × (length d.buffer ≤ size_max)

take-all : (text : Bytes) → take (length text) text ≡ text
take-all [] = refl
take-all (b ∷ text) = ap (λ t. b ∷ t) (take-all text)

callback_bytes-Documented :
    (d : Delivery) → Documented d → callback_bytes d.item_size d.item_count ≡ some (length d.buffer)
unfolding callback_bytes
callback_bytes-Documented d (i, c, m) = rw (i, c) (ground arith)

pub write_body-fits :
    (d : Delivery) (context : BodyWriteContext)
    → Documented d
    → length context.body + length d.buffer ≤ context.limit
    → write_body d context ≡ (length d.buffer, record context { body = context.body ++ d.buffer })
unfolding write_body
write_body-fits d context h k = rw (callback_bytes-Documented d h, take-all d.buffer) (ground arith)

pub write_body-over :
    (d : Delivery) (context : BodyWriteContext)
    → Documented d
    → context.limit < length context.body + length d.buffer
    → length context.body ≤ context.limit
    → write_body d context ≡ (0, record context { limit_exceeded = true })
unfolding write_body
write_body-over d context h k l = rw (callback_bytes-Documented d h) (ground arith)

pub write_header-fits :
    (d : Delivery) (context : HeaderWriteContext)
    → Documented d
    → context.received + length d.buffer ≤ context.limit
    → write_header d context ≡ (
      length d.buffer,
      record context {
        received = context.received + length d.buffer;
        headers = context.headers ++ parse_header d.buffer;
      },
    )
unfolding write_header
write_header-fits d context h k =
    rw (callback_bytes-Documented d h, take-all d.buffer) (ground arith)

pub write_header-over :
    (d : Delivery) (context : HeaderWriteContext)
    → Documented d
    → context.limit < context.received + length d.buffer
    → context.received ≤ context.limit
    → write_header d context ≡ (0, record context { limit_exceeded = true })
unfolding write_header
write_header-over d context h k l = rw (callback_bytes-Documented d h) (ground arith)
