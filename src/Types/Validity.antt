-- ===== src/Types/Validity.antt =====
-- What a `Content` or a `Message` that comes from a factory of src/types.cpp looks like.
use neural_plus.Prelude.{
  ℕ, Bytes, ◌≡◌, refl, ◌≢◌, ◌⊎◌, Bool, true, false, List, [], ◌∷◌, append-nil, arith, ap, lit,
  is_empty, if◌then◌else◌,
}
use neural_plus.Outcome.{ok, err, invalid_argument}
use neural_plus.Outcome
use neural_plus.Json.{JsonValue, is_object}
use neural_plus.Types.Enums.{ContentType, ContentSource, Role}
use neural_plus.Types.Content
use neural_plus.Types.Content.{Content, empty_object}
use neural_plus.Types.Message
use neural_plus.Types.Message.{Message, ToolCall, message_text}

-- A content that some call of a factory returned.
pub data Made (c : Content) : Type 0 where
  by_text : (v : Bytes) → c ≡ Content.text v → Made c
  by_image_url : (u m : Bytes) (o : JsonValue) → Content.image_url u m o ≡ ok c → Made c
  by_image_bytes :
      (b : List ℕ) (m : Bytes) (o : JsonValue) → Content.image_bytes b m o ≡ ok c → Made c
  by_audio_url : (u m : Bytes) (o : JsonValue) → Content.audio_url u m o ≡ ok c → Made c
  by_audio_bytes :
      (b : List ℕ) (m : Bytes) (o : JsonValue) → Content.audio_bytes b m o ≡ ok c → Made c
  by_file_url : (u m f : Bytes) (o : JsonValue) → Content.file_url u m f o ≡ ok c → Made c
  by_file_bytes :
      (b : List ℕ) (m f : Bytes) (o : JsonValue) → Content.file_bytes b m f o ≡ ok c → Made c
  by_extension : (p : Bytes) (d : JsonValue) → Content.extension p d ≡ ok c → Made c

-- The fields that go with the storage form are filled, and those of the other forms are empty. Only a
-- file has a name.
abbrev pub Fits : ContentSource → Content → Type 0
Fits ContentSource.value c =
    (c.type ≡ ContentType.text)
    × (c.url ≡ [])
    × (c.bytes ≡ [])
    × (c.media_type ≡ [])
    × (c.filename ≡ [])
    × (c.provider ≡ [])
    × (c.options ≡ empty_object)
    × (c.provider_data ≡ empty_object)
Fits ContentSource.url c =
    (c.type ≢ ContentType.text)
    × (c.type ≢ ContentType.extension)
    × (c.url ≢ [])
    × (c.value ≡ [])
    × (c.bytes ≡ [])
    × ((c.type ≡ ContentType.file) ⊎ (c.filename ≡ []))
    × (c.provider ≡ [])
    × (c.provider_data ≡ empty_object)
Fits ContentSource.bytes c =
    (c.type ≢ ContentType.text)
    × (c.type ≢ ContentType.extension)
    × (c.bytes ≢ [])
    × (c.media_type ≢ [])
    × (c.value ≡ [])
    × (c.url ≡ [])
    × ((c.type ≡ ContentType.file) ⊎ (c.filename ≡ []))
    × (c.provider ≡ [])
    × (c.provider_data ≡ empty_object)
Fits ContentSource.provider_data c =
    (c.type ≡ ContentType.extension)
    × (c.provider ≢ [])
    × (c.value ≡ [])
    × (c.url ≡ [])
    × (c.bytes ≡ [])
    × (c.media_type ≡ [])
    × (c.filename ≡ [])
    × (c.options ≡ empty_object)

pub record IsWellFormed (c : Content) : Type 0 where
  pub body : Fits c.source c
  pub options : is_object c.options ≡ true
  pub payload : is_object c.provider_data ≡ true

-- A part that a factory returned fits its storage form. A value is text and has nothing else: no URL,
-- bytes, media type, file name or provider, and empty options and provider data. A reference has a
-- URL, and inline data has bytes and a media type; both are neither text nor an extension, have a file
-- name only if they are files, and have no value, no provider and empty provider data, the one no
-- bytes and the other no URL. Provider data is an extension that names its provider, with no
-- value, URL, bytes, media type or file name, and with empty options. Both JSON fields are objects.
pub Made-IsWellFormed : (c : Content) → Made c → IsWellFormed c
unfolding Content.text Content.image_url Content.image_bytes Content.audio_url Content.audio_bytes
    Content.file_url Content.file_bytes Content.extension
Made-IsWellFormed c (by_text v e) = ground arith
Made-IsWellFormed c (by_image_url u m o e) = ground arith
Made-IsWellFormed c (by_image_bytes b m o e) = ground arith
Made-IsWellFormed c (by_audio_url u m o e) = ground arith
Made-IsWellFormed c (by_audio_bytes b m o e) = ground arith
Made-IsWellFormed c (by_file_url u m f o e) = ground arith
Made-IsWellFormed c (by_file_bytes b m f o e) = ground arith
Made-IsWellFormed c (by_extension p d e) = ground arith

-- A message that some factory returned.
pub data MadeMessage (m : Message) : Type 0 where
  by_system : (t : Bytes) → Message.system t ≡ ok m → MadeMessage m
  by_user_text : (t : Bytes) → m ≡ Message.user_text t → MadeMessage m
  by_user : (cs : List Content) → m ≡ Message.user cs → MadeMessage m
  by_assistant_text :
      (t : Bytes) (calls : List ToolCall) → m ≡ Message.assistant_text t calls → MadeMessage m
  by_assistant :
      (cs : List Content) (calls : List ToolCall) → m ≡ Message.assistant cs calls → MadeMessage m
  by_tool :
      (i n : Bytes) (cs : List Content) (e : Bool) → Message.tool i n cs e ≡ ok m → MadeMessage m

-- A message that is no tool result.
abbrev pub IsPlain : Message → Type 0
IsPlain m = (m.tool_call_id ≡ []) × (m.tool_name ≡ []) × (m.tool_error ≡ false)

-- The fields that only some roles use.
abbrev pub RoleShape : Role → Message → Type 0
RoleShape Role.system m = IsPlain m × (m.tool_calls ≡ []) × (m.contents ≢ [])
RoleShape Role.user m = IsPlain m × (m.tool_calls ≡ [])
RoleShape Role.assistant m = IsPlain m
RoleShape Role.tool m = (m.tool_calls ≡ []) × (m.tool_call_id ≢ []) × (m.tool_name ≢ [])

abbrev pub HasRoleShape : Message → Type 0
HasRoleShape m = RoleShape m.role m

-- Whatever factory made a message, only an assistant message asks for tool calls, a tool result names
-- its call and its tool, a message of another role has no call id, no tool name and no error mark,
-- and a system message has content.
pub MadeMessage-HasRoleShape : (m : Message) → MadeMessage m → HasRoleShape m
unfolding Message.system Message.user_text Message.user Message.assistant_text Message.assistant
    Message.tool
MadeMessage-HasRoleShape m (by_system t e) = ground arith
MadeMessage-HasRoleShape m (by_user_text t e) = ground arith
MadeMessage-HasRoleShape m (by_user cs e) = ground arith
MadeMessage-HasRoleShape m (by_assistant_text t calls e) = ground arith
MadeMessage-HasRoleShape m (by_assistant cs calls e) = ground arith
MadeMessage-HasRoleShape m (by_tool i n cs b e) = ground arith

join-append_text : (t : Bytes) → Message.join_text (Message.append_text_content [] t) ≡ t
unfolding Message.append_text_content Message.join_text Content.text
join-append_text [] = refl
join-append_text (b ∷ t) = append-nil (b ∷ t)

system_text :
    (t : Bytes)
    → Outcome.◌>>=◌ (Message.system t) (λ m. ok (message_text m)) ≡ (
        if is_empty t
        then err (invalid_argument (lit "system message must not be empty"))
        else ok t)
unfolding Message.system Content.text Message.join_text message_text Content.require_non_empty lit
system_text [] = refl
system_text (b ∷ t) = ap ok (append-nil (b ∷ t))

-- The text of a message made from a text is that text, the empty one included, for the user, the
-- assistant and the system role, except that the system message refuses the empty text.
text_round_trip :
    (t : Bytes) (calls : List ToolCall)
    → (message_text (Message.user_text t) ≡ t)
      × (message_text (Message.assistant_text t calls) ≡ t)
      × (Outcome.◌>>=◌ (Message.system t) (λ m. ok (message_text m)) ≡ (
          if is_empty t
          then err (invalid_argument (lit "system message must not be empty"))
          else ok t))
unfolding Message.user_text Message.assistant_text message_text
text_round_trip t calls = (join-append_text t, join-append_text t, system_text t)
