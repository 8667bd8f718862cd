-- ===== src/Session.antt =====
-- `Session` of include/neuralplus/session.hpp and src/session.cpp: the history, the system instruction
-- and the lease flag. Every operation takes the history mutex, so it is one atomic step; the cache
-- that `state()` hands out is in `Session.Cache`.
pub mod Cache
pub mod Exclusion
use neural_plus.Prelude.{
  ℕ, ◌+◌, ◌%◌, ◌^◌, Bytes, lit, to_string, ◌++◌, Bool, true, false, not, Option, none, some, List,
  [], ◌∷◌, any, is_empty, if◌then◌else◌,
}
use neural_plus.Outcome.{
  Result, ok, err, Error, session_in_use_error, invalid_argument, logic_error, throw_if, ◌>>=◌,
  ◌>>◌,
}
use neural_plus.Types.Enums.{Role, system}
use neural_plus.Types.Message.{Message}

pub record Session : Type 0 where
  pub id : Bytes
  pub system_message : Option Bytes
  pub messages : List Message
  pub active : Bool

pub record SessionOptions : Type 0 where
  pub id : Bytes
  pub system_message : Option Bytes
  pub messages : List Message

abbrev pub is_system : Message → Bool
is_system m = elim m.role [ Role.system ↦ true | _ ↦ false ]

abbrev pub is_empty_text : Option Bytes → Bool
is_empty_text none = false
is_empty_text (some s) = is_empty s

-- `next_id.fetch_add(1)` of a 64-bit counter, shared by `make_session_id` and `make_run_id`, each with
-- a counter of its own: the text, and the counter after it.
unfoldable pub next_id : Bytes → ℕ → Bytes × ℕ
next_id label counter = (label ++ to_string counter, (counter + 1) % 2 ^ 64)

unfoldable pub make_session_id : ℕ → Bytes × ℕ
unfolding next_id lit
make_session_id counter = next_id (lit "session-") counter

unfoldable pub require_idle : Bool → Result (Unit {0})
require_idle active = throw_if active (session_in_use_error (lit "session is already in use"))

-- The checks of the constructor, over the initialised members.
unfoldable pub construct_with : Bytes → SessionOptions → Result Session
construct_with id options = do
  throw_if (is_empty_text options.system_message)
      (invalid_argument (lit "system message must not be empty"))
  throw_if (any is_system options.messages) (
      invalid_argument (
        lit
          "restored messages must not contain a system message; use SessionOptions::system_message"))
  ok (record {
    id = id;
    system_message = options.system_message;
    messages = options.messages;
    active = false;
  })

-- The constructor, with the counter of session ids before and after it. The counter moves on only if
-- an id is generated, and then also where the constructor throws.
unfoldable pub construct : ℕ → SessionOptions → Result Session × ℕ
unfolding construct_with
construct counter options =
    if is_empty options.id
    then (construct_with (make_session_id counter).0 options, (make_session_id counter).1)
    else (construct_with options.id options, counter)

unfoldable pub set_system : Bytes → Session → Result Session
unfolding require_idle
set_system message s = do
  throw_if (is_empty message) (invalid_argument (lit "system message must not be empty"))
  require_idle s.active
  throw_if (not (is_empty s.messages))
      (logic_error (lit "system message cannot change after conversation history begins"))
  ok (record s { system_message = some message })

unfoldable pub append : Message → Session → Result Session
unfolding require_idle
append message s = do
  throw_if (is_system message)
      (invalid_argument (lit "append does not accept system messages; use set_system"))
  require_idle s.active
  ok (record s { messages = s.messages ++ message ∷ [] })

unfoldable pub clear_messages : Session → Result Session
unfolding require_idle
clear_messages s = do require_idle s.active; ok (record s { messages = [] })

-- `compare_exchange_strong(false, true)`; the result stands for the session that is leased.
unfoldable pub acquire : Session → Result Session
acquire s =
    if s.active
    then err (session_in_use_error (lit "session is already in use"))
    else ok (record s { active = true })

unfoldable pub release : Session → Session
release s = record s { active = false }

unfoldable pub append_from_client : Message → Session → Result Session
append_from_client message s = do
  throw_if (is_system message)
      (invalid_argument (lit "client transcript must not contain system messages"))
  ok (record s { messages = s.messages ++ message ∷ [] })
