-- ===== src/Llm/Groq.antt =====
-- core/llm.py: the translation between the router's messages and those of Groq.
-- `dumps` and `loads` are the json module's, over the values that tool arguments are.
use emma.Common.{
  Bool, true, false, Option, none, some, List, [], ◌∷◌, ◌++◌, Text, lit, text_eq, join, is_empty,
  map, if◌then◌else◌,
}
use emma.Llm.{
  ContentBlock, text_block, tool_use_block, LlmResponse, blank_line, WireBlock, wire_text, tool_use,
  tool_result, unknown, Content, prose, blocks, Role, user, assistant, Message,
}
use emma.Llm.Json.{Json, null, bool, int, float, str, arr, obj, Fields, end, field}
pub mod Replay
mod Tests

-- A call in the `tool_calls` of a message, its arguments as a JSON text.
pub record GroqCall : Type 0 where
  pub id : Text
  pub name : Text
  pub arguments : Text

-- The message of an assistant has no `tool_calls` where the list is empty.
pub data GroqMessage : Type 0 where
  system_message : Text → GroqMessage
  user_message : Text → GroqMessage
  assistant_message : (content : Option Text) → (tool_calls : List GroqCall) → GroqMessage
  tool_message : (tool_call_id content : Text) → GroqMessage

-- The texts of the text blocks.
unfoldable pub prose_of : List WireBlock → List Text
prose_of [] = []
prose_of (wire_text t ∷ bs) = t ∷ prose_of bs
prose_of (tool_use id name input ∷ bs) = prose_of bs
prose_of (tool_result id content e ∷ bs) = prose_of bs
prose_of (unknown ∷ bs) = prose_of bs

-- `_text_of` of a list of blocks
unfoldable pub text_of : List WireBlock → Text
unfolding prose_of
text_of bs = join blank_line (prose_of bs)

unfoldable pub calls_of : (Fields → Text) → List WireBlock → List GroqCall
calls_of dumps [] = []
calls_of dumps (wire_text t ∷ bs) = calls_of dumps bs
calls_of dumps (tool_use id name input ∷ bs) =
    record { id = id; name = name; arguments = dumps input } ∷ calls_of dumps bs
calls_of dumps (tool_result id content e ∷ bs) = calls_of dumps bs
calls_of dumps (unknown ∷ bs) = calls_of dumps bs

unfoldable pub results_of : List WireBlock → List GroqMessage
results_of [] = []
results_of (wire_text t ∷ bs) = results_of bs
results_of (tool_use id name input ∷ bs) = results_of bs
results_of (tool_result id content e ∷ bs) = tool_message id content ∷ results_of bs
results_of (unknown ∷ bs) = results_of bs

-- `text or None`
abbrev pub text_or_none : Text → Option Text
text_or_none [] = none
text_or_none (c ∷ cs) = some (c ∷ cs)

-- What the loop of `_to_groq_messages` appends for one message.
unfoldable pub to_groq_message : (Fields → Text) → Message → List GroqMessage
unfolding text_of calls_of results_of
to_groq_message dumps message = elim message.content [
  | prose text ↦ elim message.role [
    | user ↦ user_message text ∷ []
    | assistant ↦ assistant_message (some text) [] ∷ []
  ]
  | blocks bs ↦ elim message.role [
    | assistant ↦ assistant_message (text_or_none (text_of bs)) (calls_of dumps bs) ∷ []
    | user ↦
        results_of bs
        ++ (if is_empty (prose_of bs)
            then []
            else user_message (join blank_line (prose_of bs)) ∷ [])
  ]
]

unfoldable pub append_all : (Fields → Text) → List Message → List GroqMessage
unfolding to_groq_message
append_all dumps [] = []
append_all dumps (m ∷ ms) = to_groq_message dumps m ++ append_all dumps ms

unfoldable pub to_groq_messages : (Fields → Text) → Text → List Message → List GroqMessage
unfolding append_all
to_groq_messages dumps system messages = system_message system ∷ append_all dumps messages

-- A declaration of a tool, as Groq nests it.
pub record GroqTool : Type 0 where
  pub name : Text
  pub description : Text
  pub parameters : Fields

-- `tool.get("input_schema") or {...}`
abbrev pub schema_or_default : Fields → Fields
schema_or_default end =
    field (lit "type") (str (lit "object")) (field (lit "properties") (obj end) end)
schema_or_default (field key value fields) = field key value fields

-- `_to_groq_tools`, one declaration
unfoldable pub to_groq_tool : (name description : Text) → (input_schema : Fields) → GroqTool
to_groq_tool name description input_schema = record {
  name = name;
  description = description;
  parameters = schema_or_default input_schema;
}

-- A reply of the SDK.
pub record RawCall : Type 0 where
  pub id : Text
  pub name : Text
  pub arguments : Option Text

pub record GroqReply : Type 0 where
  pub content : Option Text
  pub tool_calls : Option (List RawCall)

abbrev pub text_blocks : Option Text → List ContentBlock
text_blocks none = []
text_blocks (some []) = []
text_blocks (some (c ∷ cs)) = text_block (c ∷ cs) ∷ []

-- `call.function.arguments or "{}"`
abbrev pub raw_arguments : Option Text → Text
raw_arguments none = lit "{}"
raw_arguments (some []) = lit "{}"
raw_arguments (some (c ∷ cs)) = c ∷ cs

-- Arguments that are no JSON, or no dictionary, are none at all.
abbrev pub as_fields : Option Json → Fields
as_fields (some (obj fields)) = fields
as_fields (some null) = end
as_fields (some (bool b)) = end
as_fields (some (int negative n)) = end
as_fields (some (float negative n fraction)) = end
as_fields (some (str text)) = end
as_fields (some (arr items)) = end
as_fields none = end

unfoldable pub call_blocks : (Text → Option Json) → List RawCall → List ContentBlock
call_blocks loads [] = []
call_blocks loads (call ∷ calls) =
    tool_use_block call.id call.name (as_fields (loads (raw_arguments call.arguments)))
    ∷ call_blocks loads calls

abbrev pub calls_or_none : Option (List RawCall) → List RawCall
calls_or_none none = []
calls_or_none (some calls) = calls

abbrev pub or_empty_text : List ContentBlock → List ContentBlock
or_empty_text [] = text_block [] ∷ []
or_empty_text (b ∷ bs) = b ∷ bs

unfoldable pub stop_reason_of : Option Text → Option Text
stop_reason_of none = none
stop_reason_of (some reason) =
    if text_eq reason (lit "tool_calls") then some (lit "tool_use") else some reason

unfoldable pub from_groq_message : (Text → Option Json) → GroqReply → Option Text → LlmResponse
unfolding call_blocks stop_reason_of
from_groq_message loads message finish_reason = record {
  blocks =
      or_empty_text
        (text_blocks message.content ++ call_blocks loads (calls_or_none message.tool_calls));
  stop_reason = stop_reason_of finish_reason;
}
