-- ===== src/Llm/Anthropic.antt =====
-- core/llm.py: the reply of the Anthropic SDK.
use emma.Common.{Option, List, [], ◌∷◌, Text}
use emma.Llm.{ContentBlock, text_block, tool_use_block, LlmResponse}
use emma.Llm.Json.{Json, null, bool, int, float, str, arr, obj, Fields, end}

-- A content block of the SDK; its input is whatever JSON there was.
pub data RawBlock : Type 0 where
  raw_text : Text → RawBlock
  raw_tool_use : (id name : Text) → (input : Json) → RawBlock
  raw_other : RawBlock

-- `block.input if isinstance(block.input, dict) else {}`
abbrev pub dict_or_empty : Json → Fields
dict_or_empty (obj fields) = fields
dict_or_empty null = end
dict_or_empty (bool b) = end
dict_or_empty (int negative n) = end
dict_or_empty (float negative n fraction) = end
dict_or_empty (str text) = end
dict_or_empty (arr items) = end

unfoldable pub blocks_of : List RawBlock → List ContentBlock
blocks_of [] = []
blocks_of (raw_text t ∷ bs) = text_block t ∷ blocks_of bs
blocks_of (raw_tool_use id name input ∷ bs) =
    tool_use_block id name (dict_or_empty input) ∷ blocks_of bs
blocks_of (raw_other ∷ bs) = blocks_of bs

-- `_to_response`
unfoldable pub to_response : List RawBlock → Option Text → LlmResponse
unfolding blocks_of
to_response content stop_reason = record { blocks = blocks_of content; stop_reason = stop_reason }
