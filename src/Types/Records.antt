-- ===== src/Types/Records.antt =====
-- The plain structs of include/neuralplus/types.hpp. A `double` is its 64-bit pattern.
use neural_plus.Prelude.{ℕ, Bytes, Bool, true, false, Option, none, List, []}
use neural_plus.Json.{JsonValue}
use neural_plus.Types.Enums.{Provider, FinishReason}
use neural_plus.Types.Content.{empty_object}
use neural_plus.Types.Message.{Message}

pub record ToolSpec : Type 0 where
  pub name : Bytes
  pub description : Bytes
  pub input_schema : JsonValue
  pub provider_options : JsonValue

pub record ModelCapabilities : Type 0 where
  pub text_input : Bool
  pub text_output : Bool
  pub image_input : Bool
  pub image_output : Bool
  pub audio_input : Bool
  pub audio_output : Bool
  pub file_input : Bool
  pub file_output : Bool
  pub tools : Bool
  pub parallel_tool_calls : Bool

abbrev pub default_capabilities : ModelCapabilities
default_capabilities = record {
  text_input = true;
  text_output = true;
  image_input = false;
  image_output = false;
  audio_input = false;
  audio_output = false;
  file_input = false;
  file_output = false;
  tools = false;
  parallel_tool_calls = false;
}

pub record ModelDescriptor : Type 0 where
  pub provider : Provider
  pub id : Bytes
  pub display_name : Bytes
  pub capabilities : ModelCapabilities
  pub context_window : ℕ
  pub max_output_tokens : Option ℕ
  pub provider_options : JsonValue

abbrev pub default_model : ModelDescriptor
default_model = record {
  provider = Provider.custom;
  id = [];
  display_name = [];
  capabilities = default_capabilities;
  context_window = 0;
  max_output_tokens = none;
  provider_options = empty_object;
}

pub record GenerateOptions : Type 0 where
  pub temperature : Option ℕ
  pub max_output_tokens : Option ℕ
  pub provider_options : JsonValue

abbrev pub default_generate_options : GenerateOptions
default_generate_options = record {
  temperature = none;
  max_output_tokens = none;
  provider_options = empty_object;
}

pub record TokenUsage : Type 0 where
  pub input_tokens : Option ℕ
  pub output_tokens : Option ℕ
  pub total_tokens : Option ℕ
  pub cached_input_tokens : Option ℕ
  pub cache_creation_input_tokens : Option ℕ
  pub reasoning_tokens : Option ℕ

abbrev pub no_usage : TokenUsage
no_usage = record {
  input_tokens = none;
  output_tokens = none;
  total_tokens = none;
  cached_input_tokens = none;
  cache_creation_input_tokens = none;
  reasoning_tokens = none;
}

pub record AiRequest : Type 0 where
  pub session_id : Bytes
  pub run_id : Bytes
  pub system_message : Option Bytes
  pub messages : List Message
  pub tools : List ToolSpec
  pub options : GenerateOptions

pub record AiResponse : Type 0 where
  pub message : Message
  pub finish_reason : FinishReason
  pub usage : TokenUsage
  pub provider_request_id : Bytes
  pub provider_model : Bytes
  pub model_rounds : ℕ
  pub tool_calls : ℕ
  pub requires_continuation : Bool
  pub provider_metadata : JsonValue

-- `AiResponse(Message)`, with the default member initialisers.
unfoldable pub response_of : Message → AiResponse
response_of message = record {
  message = message;
  finish_reason = FinishReason.unknown;
  usage = no_usage;
  provider_request_id = [];
  provider_model = [];
  model_rounds = 1;
  tool_calls = 0;
  requires_continuation = false;
  provider_metadata = empty_object;
}
