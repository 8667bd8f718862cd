-- ===== src/Provider/History.antt =====
-- The system instruction of a request, as every provider client puts it together.
use neural_plus.Prelude.{
  Bytes, lit, Option, none, some, List, [], ◌∷◌, ◌++◌, is_empty, if◌then◌else◌,
}
use neural_plus.Types.Enums.{Role}
use neural_plus.Types.Message.{Message, message_text}

-- The system texts of the messages after the one so far, each on a line of its own.
unfoldable pub system_lines : List Message → Bytes → Bytes
unfolding message_text
system_lines [] system = system
system_lines (m ∷ ms) system = system_lines ms (elim m.role [
  | Role.system ↦
      (if is_empty (message_text m)
        then system
        else if is_empty system
        then message_text m
        else system ++ (lit "\n" ++ message_text m))
  | _ ↦ system
])

abbrev pub text_or_empty : Option Bytes → Bytes
text_or_empty none = []
text_or_empty (some text) = text
