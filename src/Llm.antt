-- ===== src/Llm.antt =====
-- core/llm.py: what a reply is made of, the errors, and the values of the wire format. The retry
-- ladder and the translation between the dialects are in the modules below.
pub mod Json
pub mod Ladder
pub mod Groq
pub mod Anthropic
pub mod Clients
use emma.Common.{Float, ℕ, Bool, Option, List, [], ◌∷◌, Text, join, strip, map, Exc}
use Json.{Fields}

-- LLMUnavailableError, LLMQuotaExceededError with its `retry_after`, and any other exception that
-- a call may raise. A quota error is caught by the handlers of unavailability too.
pub data LlmError : Type 0 where
  unavailable : Text → LlmError
  quota_exceeded : Text → Option Float → LlmError
  other : Exc → LlmError

pub data ContentBlock : Type 0 where
  text_block : Text → ContentBlock
  tool_use_block : (id name : Text) → Fields → ContentBlock

pub record ToolUse : Type 0 where
  pub id : Text
  pub name : Text
  pub input : Fields

pub record LlmResponse : Type 0 where
  pub blocks : List ContentBlock
  pub stop_reason : Option Text

unfoldable pub texts_of : List ContentBlock → List Text
texts_of [] = []
texts_of (text_block t ∷ bs) = t ∷ texts_of bs
texts_of (tool_use_block id name input ∷ bs) = texts_of bs

unfoldable pub tool_uses_of : List ContentBlock → List ToolUse
tool_uses_of [] = []
tool_uses_of (text_block t ∷ bs) = tool_uses_of bs
tool_uses_of (tool_use_block id name input ∷ bs) =
    record { id = id; name = name; input = input } ∷ tool_uses_of bs

-- "\n\n"
abbrev pub blank_line : Text
blank_line = 10 ∷ 10 ∷ []

unfoldable pub text : LlmResponse → Text
text r = strip (join blank_line (texts_of r.blocks))

unfoldable pub tool_uses : LlmResponse → List ToolUse
tool_uses r = tool_uses_of r.blocks

-- A block of the wire format, a dictionary with its "type". `unknown` is any other type.
pub data WireBlock : Type 0 where
  wire_text : Text → WireBlock
  tool_use : (id name : Text) → Fields → WireBlock
  tool_result : (tool_use_id content : Text) → (is_error : Bool) → WireBlock
  unknown : WireBlock

pub data Content : Type 0 where
  prose : Text → Content
  blocks : List WireBlock → Content

pub data Role : Type 0 where
  user assistant : Role

-- `{"role": ..., "content": ...}`
pub record Message : Type 0 where
  pub role : Role
  pub content : Content

unfoldable pub wire_block : ContentBlock → WireBlock
wire_block (text_block t) = wire_text t
wire_block (tool_use_block id name input) = tool_use id name input

unfoldable pub to_assistant_message : LlmResponse → Message
unfolding wire_block
to_assistant_message r = record { role = assistant; content = blocks (map wire_block r.blocks) }
