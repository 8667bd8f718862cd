-- ===== src/Transport/Receive.antt =====
-- The two callbacks of src/transport.cpp that libcurl hands the parts of a response to. Memory
-- exhaustion is left out, and `write_failed` with it.
pub mod Limits
pub mod Whole
pub mod Lines
use neural_plus.Prelude.{
  ℕ, ◌+◌, ◌-◌, ◌*◌, ◌/◌, ◌^◌, min, Bytes, Bool, true, false, not, ◌&&◌, ◌||◌, Option, none, some,
  List, [], ◌∷◌, ◌++◌, take, length, ltb, ◌==◌, if◌then◌else◌, split_at,
}
use neural_plus.Transport.{HttpHeader}
use neural_plus.Transport.Check.{trim_ascii}
use neural_plus.Client.Usage.{size_max}

pub record BodyWriteContext : Type 0 where
  pub body : Bytes
  pub limit : ℕ
  pub limit_exceeded : Bool

pub record HeaderWriteContext : Type 0 where
  pub headers : List HttpHeader
  pub limit : ℕ
  pub received : ℕ
  pub limit_exceeded : Bool

-- What libcurl passes: a buffer, and the size and the number of the items in it.
pub record Delivery : Type 0 where
  pub buffer : Bytes
  pub item_size : ℕ
  pub item_count : ℕ

unfoldable pub callback_bytes : ℕ → ℕ → Option ℕ
callback_bytes item_size item_count =
    if not (item_size == 0) && ltb (size_max / item_size) item_count
    then none
    else some (item_size * item_count)

-- `*bytes > limit - min(used, limit)`, or no number of bytes at all.
abbrev pub over_limit : Option ℕ → (limit used : ℕ) → Bool
over_limit none limit used = true
over_limit (some bytes) limit used = ltb (limit - min used limit) bytes

abbrev pub byte_count : Option ℕ → ℕ
byte_count none = 0
byte_count (some bytes) = bytes

-- The returned number tells libcurl whether the part was taken.
unfoldable pub write_body : Delivery → BodyWriteContext → ℕ × BodyWriteContext
unfolding callback_bytes
write_body d context =
    let bytes = callback_bytes d.item_size d.item_count in
    if over_limit bytes context.limit (length context.body)
    then (0, record context { limit_exceeded = true })
    else (
      byte_count bytes,
      record context { body = context.body ++ take (byte_count bytes) d.buffer },
    )

-- The header of one line; a line without a colon is none.
unfoldable pub parse_header : Bytes → List HttpHeader
unfolding split_at
parse_header line = elim (split_at b':' line) [
  | none ↦ []
  | some (name, value) ↦
      record { name = trim_ascii name; value = trim_ascii value; sensitive = false } ∷ []
]

unfoldable pub write_header : Delivery → HeaderWriteContext → ℕ × HeaderWriteContext
unfolding callback_bytes parse_header
write_header d context =
    let bytes = callback_bytes d.item_size d.item_count in
    if over_limit bytes context.limit context.received
    then (0, record context { limit_exceeded = true })
    else (
      byte_count bytes,
      record context {
        received = context.received + byte_count bytes;
        headers = context.headers ++ parse_header (take (byte_count bytes) d.buffer);
      },
    )
