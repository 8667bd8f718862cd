-- ===== src/Types/Enums.antt =====
-- The enumerations of include/neuralplus/types.hpp and their spellings (src/types.cpp).
use neural_plus.Prelude.{Bytes, lit}

pub data Provider : Type 0 where
  openai anthropic gemini openai_compatible custom : Provider

pub data Role : Type 0 where
  system user assistant tool : Role

pub data FinishReason : Type 0 where
  stop tool_calls length content_filter refusal error unknown : FinishReason

pub data ContentType : Type 0 where
  text image audio file extension : ContentType

pub data ContentSource : Type 0 where
  value url bytes provider_data : ContentSource

unfoldable pub provider_to_string : Provider → Bytes
unfolding lit
provider_to_string openai = lit "openai"
provider_to_string anthropic = lit "anthropic"
provider_to_string gemini = lit "gemini"
provider_to_string openai_compatible = lit "openai_compatible"
provider_to_string custom = lit "custom"

unfoldable pub role_to_string : Role → Bytes
unfolding lit
role_to_string system = lit "system"
role_to_string user = lit "user"
role_to_string assistant = lit "assistant"
role_to_string tool = lit "tool"

unfoldable pub finish_reason_to_string : FinishReason → Bytes
unfolding lit
finish_reason_to_string stop = lit "stop"
finish_reason_to_string tool_calls = lit "tool_calls"
finish_reason_to_string length = lit "length"
finish_reason_to_string content_filter = lit "content_filter"
finish_reason_to_string refusal = lit "refusal"
finish_reason_to_string error = lit "error"
finish_reason_to_string unknown = lit "unknown"
