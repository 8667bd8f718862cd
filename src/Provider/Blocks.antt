-- ===== src/Provider/Blocks.antt =====
-- What a block of a response gives: a content of the message (`contents.push_back`) or a tool call
-- (`calls.push_back`).
use neural_plus.Prelude.{List, [], ◌∷◌}
use neural_plus.Types.Content.{Content}
use neural_plus.Types.Message.{ToolCall}

pub data Block : Type 0 where
  content_block : Content → Block
  call_block : ToolCall → Block

abbrev pub contents_of : List Block → List Content
contents_of [] = []
contents_of (content_block c ∷ blocks) = c ∷ contents_of blocks
contents_of (call_block call ∷ blocks) = contents_of blocks

abbrev pub calls_of : List Block → List ToolCall
calls_of [] = []
calls_of (content_block c ∷ blocks) = calls_of blocks
calls_of (call_block call ∷ blocks) = call ∷ calls_of blocks
