-- ===== src/Types/Message.antt =====
-- `ToolCall` and `Message` of include/neuralplus/types.hpp, with the factories of src/types.cpp.
use neural_plus.Prelude.{Bytes, lit, Bool, false, List, [], ◌∷◌, ◌++◌, is_empty, if◌then◌else◌}
use neural_plus.Outcome.{Result, ok, ◌>>◌}
use neural_plus.Json.{JsonValue}
use neural_plus.Types.Enums.{Role, ContentType}
use neural_plus.Types.Content.{Content, require_non_empty, empty_object}
use neural_plus.Types.Content

pub record ToolCall : Type 0 where
  pub id : Bytes
  pub name : Bytes
  pub arguments : JsonValue
  pub raw_arguments : Bytes
  pub arguments_valid : Bool
  pub provider_metadata : JsonValue

pub record Message : Type 0 where
  pub role : Role
  pub contents : List Content
  pub tool_calls : List ToolCall
  pub tool_call_id : Bytes
  pub tool_name : Bytes
  pub tool_error : Bool
  pub provider_metadata : JsonValue

-- The private constructor, with the default member initialisers.
unfoldable pub of_role : Role → Message
of_role role = record {
  role = role;
  contents = [];
  tool_calls = [];
  tool_call_id = [];
  tool_name = [];
  tool_error = false;
  provider_metadata = empty_object;
}

unfoldable pub append_text_content : List Content → Bytes → List Content
append_text_content contents text =
    if is_empty text then contents else contents ++ (Content.text text ∷ [])

unfoldable pub system : Bytes → Result Message
unfolding of_role require_non_empty
system text = do
  require_non_empty text (lit "system message")
  ok (record (of_role Role.system) { contents = Content.text text ∷ [] })

unfoldable pub user_text : Bytes → Message
unfolding of_role append_text_content
user_text text = record (of_role Role.user) { contents = append_text_content [] text }

unfoldable pub user : List Content → Message
unfolding of_role
user contents = record (of_role Role.user) { contents = contents }

unfoldable pub assistant_text : Bytes → List ToolCall → Message
unfolding of_role append_text_content
assistant_text text tool_calls = record (of_role Role.assistant) {
  contents = append_text_content [] text;
  tool_calls = tool_calls;
}

unfoldable pub assistant : List Content → List ToolCall → Message
unfolding of_role
assistant contents tool_calls = record (of_role Role.assistant) {
  contents = contents;
  tool_calls = tool_calls;
}

unfoldable pub tool : Bytes → Bytes → List Content → Bool → Result Message
unfolding of_role require_non_empty
tool call_id tool_name contents is_error = do
  require_non_empty call_id (lit "tool call id")
  require_non_empty tool_name (lit "tool name")
  ok (record (of_role Role.tool) {
    contents = contents;
    tool_call_id = call_id;
    tool_name = tool_name;
    tool_error = is_error;
  })

-- `dump` of the JSON library is a parameter.
unfoldable pub tool_json : (JsonValue → Bytes) → Bytes → Bytes → JsonValue → Bool → Result Message
unfolding tool
tool_json dump call_id tool_name value is_error =
    tool call_id tool_name (Content.text (dump value) ∷ []) is_error

-- The loop of `Message::text` and of `output_text` in src/client.cpp: the text parts joined.
unfoldable pub join_text : List Content → Bytes
join_text [] = []
join_text (c ∷ cs) =
    let rest = join_text cs in elim c.type [ ContentType.text ↦ c.value ++ rest | _ ↦ rest ]

unfoldable pub message_text : Message → Bytes
unfolding join_text
message_text m = join_text m.contents

unfoldable pub set_provider_metadata : JsonValue → Message → Message
set_provider_metadata metadata m = record m { provider_metadata = metadata }
