-- ===== src/Models.antt =====
-- The model catalogue (include/neuralplus/models.hpp, src/models.cpp): configurations of known models.
use neural_plus.Prelude.{ℕ, Bytes, lit, true}
use neural_plus.Outcome.{Result, ok, ◌>>=◌}
use neural_plus.Types.Records.{ModelDescriptor}
use neural_plus.OpenAi.{OpenAiConfig, openai_config}
use neural_plus.Anthropic.{AnthropicConfig, anthropic_config}
use neural_plus.Gemini.{GeminiConfig, gemini_config}

-- The template function, on the model of a configuration.
unfoldable pub configure_text_vision_model : ModelDescriptor → Bytes → ℕ → ModelDescriptor
configure_text_vision_model model display_name context_window = record model {
  display_name = display_name;
  context_window = context_window;
  capabilities = record model.capabilities {
    text_input = true;
    text_output = true;
    image_input = true;
    tools = true;
    parallel_tool_calls = true;
  };
}

abbrev pub with_file_input : ModelDescriptor → ModelDescriptor
with_file_input model = record model {
  capabilities = record model.capabilities { file_input = true };
}

abbrev pub with_audio_input : ModelDescriptor → ModelDescriptor
with_audio_input model = record model {
  capabilities = record model.capabilities { audio_input = true };
}

unfoldable pub configure_openai : Bytes → Bytes → Result OpenAiConfig
unfolding openai_config configure_text_vision_model
configure_openai model_id display_name = do
  config ← openai_config model_id
  ok (record config {
    model = with_file_input (configure_text_vision_model config.model display_name 1050000);
  })

unfoldable pub configure_anthropic : Bytes → Bytes → ℕ → Result AnthropicConfig
unfolding anthropic_config configure_text_vision_model
configure_anthropic model_id display_name context_window = do
  config ← anthropic_config model_id
  ok (record config {
    model = with_file_input (configure_text_vision_model config.model display_name context_window);
  })

unfoldable pub configure_gemini : Bytes → Bytes → Result GeminiConfig
unfolding gemini_config configure_text_vision_model
configure_gemini model_id display_name = do
  config ← gemini_config model_id
  ok (record config {
    model =
        with_file_input
          (with_audio_input (configure_text_vision_model config.model display_name 1048576));
  })

unfoldable pub gpt_5_6_sol : Result OpenAiConfig
unfolding configure_openai lit
gpt_5_6_sol = configure_openai (lit "gpt-5.6-sol") (lit "GPT-5.6 Sol")

unfoldable pub gpt_5_6_terra : Result OpenAiConfig
unfolding configure_openai lit
gpt_5_6_terra = configure_openai (lit "gpt-5.6-terra") (lit "GPT-5.6 Terra")

unfoldable pub gpt_5_6_luna : Result OpenAiConfig
unfolding configure_openai lit
gpt_5_6_luna = configure_openai (lit "gpt-5.6-luna") (lit "GPT-5.6 Luna")

unfoldable pub claude_fable_5 : Result AnthropicConfig
unfolding configure_anthropic lit
claude_fable_5 = configure_anthropic (lit "claude-fable-5") (lit "Claude Fable 5") 1000000

unfoldable pub claude_opus_4_8 : Result AnthropicConfig
unfolding configure_anthropic lit
claude_opus_4_8 = configure_anthropic (lit "claude-opus-4-8") (lit "Claude Opus 4.8") 1000000

unfoldable pub claude_sonnet_5 : Result AnthropicConfig
unfolding configure_anthropic lit
claude_sonnet_5 = configure_anthropic (lit "claude-sonnet-5") (lit "Claude Sonnet 5") 1000000

unfoldable pub claude_haiku_4_5 : Result AnthropicConfig
unfolding configure_anthropic lit
claude_haiku_4_5 =
    configure_anthropic (lit "claude-haiku-4-5-20251001") (lit "Claude Haiku 4.5") 200000

unfoldable pub gemini_3_6_flash : Result GeminiConfig
unfolding configure_gemini lit
gemini_3_6_flash = configure_gemini (lit "gemini-3.6-flash") (lit "Gemini 3.6 Flash")

unfoldable pub gemini_3_5_flash : Result GeminiConfig
unfolding configure_gemini lit
gemini_3_5_flash = configure_gemini (lit "gemini-3.5-flash") (lit "Gemini 3.5 Flash")

unfoldable pub gemini_3_5_flash_lite : Result GeminiConfig
unfolding configure_gemini lit
gemini_3_5_flash_lite = configure_gemini (lit "gemini-3.5-flash-lite") (lit "Gemini 3.5 Flash-Lite")

unfoldable pub gemini_2_5_pro : Result GeminiConfig
unfolding configure_gemini lit
gemini_2_5_pro = configure_gemini (lit "gemini-2.5-pro") (lit "Gemini 2.5 Pro")
