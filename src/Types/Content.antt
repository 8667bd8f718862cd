-- ===== src/Types/Content.antt =====
-- `Content` of include/neuralplus/types.hpp, with the factories of src/types.cpp. The constructor of
-- the class is private, so a value comes from one of the factories.
use neural_plus.Prelude.{ℕ, Bytes, lit, ◌++◌, not, List, [], is_empty}
use neural_plus.Outcome.{Result, ok, invalid_argument, throw_if, ◌>>◌}
use neural_plus.Json.{JsonValue, object, end, is_object}
use neural_plus.Types.Enums.{ContentType, ContentSource}

pub record Content : Type 0 where
  pub type : ContentType
  pub source : ContentSource
  pub value : Bytes
  pub url : Bytes
  pub bytes : List ℕ
  pub media_type : Bytes
  pub filename : Bytes
  pub provider : Bytes
  pub options : JsonValue
  pub provider_data : JsonValue

abbrev pub empty_object : JsonValue
empty_object = object end

unfoldable pub require_non_empty : Bytes → Bytes → Result (Unit {0})
require_non_empty value field =
    throw_if (is_empty value) (invalid_argument (field ++ lit " must not be empty"))

unfoldable pub require_object : JsonValue → Bytes → Result (Unit {0})
require_object value field =
    throw_if (not (is_object value)) (invalid_argument (field ++ lit " must be a JSON object"))

-- The private constructor, with the default member initialisers.
unfoldable pub blank : ContentType → ContentSource → Content
blank type source = record {
  type = type;
  source = source;
  value = [];
  url = [];
  bytes = [];
  media_type = [];
  filename = [];
  provider = [];
  options = empty_object;
  provider_data = empty_object;
}

unfoldable pub text : Bytes → Content
unfolding blank
text value = record (blank ContentType.text ContentSource.value) { value = value }

unfoldable pub image_url : Bytes → Bytes → JsonValue → Result Content
unfolding blank require_non_empty require_object
image_url url media_type options = do
  require_non_empty url (lit "image URL")
  require_object options (lit "image options")
  ok (record (blank ContentType.image ContentSource.url) {
    url = url;
    media_type = media_type;
    options = options;
  })

unfoldable pub image_bytes : List ℕ → Bytes → JsonValue → Result Content
unfolding blank require_non_empty require_object
image_bytes bytes media_type options = do
  throw_if (is_empty bytes) (invalid_argument (lit "image bytes must not be empty"))
  require_non_empty media_type (lit "image media type")
  require_object options (lit "image options")
  ok (record (blank ContentType.image ContentSource.bytes) {
    bytes = bytes;
    media_type = media_type;
    options = options;
  })

unfoldable pub audio_url : Bytes → Bytes → JsonValue → Result Content
unfolding blank require_non_empty require_object
audio_url url media_type options = do
  require_non_empty url (lit "audio URL")
  require_object options (lit "audio options")
  ok (record (blank ContentType.audio ContentSource.url) {
    url = url;
    media_type = media_type;
    options = options;
  })

unfoldable pub audio_bytes : List ℕ → Bytes → JsonValue → Result Content
unfolding blank require_non_empty require_object
audio_bytes bytes media_type options = do
  throw_if (is_empty bytes) (invalid_argument (lit "audio bytes must not be empty"))
  require_non_empty media_type (lit "audio media type")
  require_object options (lit "audio options")
  ok (record (blank ContentType.audio ContentSource.bytes) {
    bytes = bytes;
    media_type = media_type;
    options = options;
  })

unfoldable pub file_url : Bytes → Bytes → Bytes → JsonValue → Result Content
unfolding blank require_non_empty require_object
file_url url media_type filename options = do
  require_non_empty url (lit "file URL")
  require_object options (lit "file options")
  ok (record (blank ContentType.file ContentSource.url) {
    url = url;
    media_type = media_type;
    filename = filename;
    options = options;
  })

unfoldable pub file_bytes : List ℕ → Bytes → Bytes → JsonValue → Result Content
unfolding blank require_non_empty require_object
file_bytes bytes media_type filename options = do
  throw_if (is_empty bytes) (invalid_argument (lit "file bytes must not be empty"))
  require_non_empty media_type (lit "file media type")
  require_object options (lit "file options")
  ok (record (blank ContentType.file ContentSource.bytes) {
    bytes = bytes;
    media_type = media_type;
    filename = filename;
    options = options;
  })

unfoldable pub extension : Bytes → JsonValue → Result Content
unfolding blank require_non_empty require_object
extension provider provider_data = do
  require_non_empty provider (lit "extension provider")
  require_object provider_data (lit "extension provider data")
  ok (record (blank ContentType.extension ContentSource.provider_data) {
    provider = provider;
    provider_data = provider_data;
  })
