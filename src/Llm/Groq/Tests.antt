-- ===== src/Llm/Groq/Tests.antt =====
-- The translation of core/llm.py at concrete inputs, and its theorem applied there.
use emma.Common.{◌≡◌, refl, true, Option, none, some, List, [], ◌∷◌, Text, lit, map}
use emma.Llm.{
  Message, user, assistant, blocks, wire_text, tool_use, tool_result, to_assistant_message,
}
use emma.Llm.Json.{Json, Fields, end, obj}
use emma.Llm.Groq.{
  GroqCall, user_message, assistant_message, tool_message, to_groq_message, text_or_none,
  from_groq_message,
}
use emma.Llm.Groq.Replay.{raw, to_groq_message-from_groq_message}

abbrev dumps : Fields → Text
dumps fields = lit "{}"

abbrev loads : Text → Option Json
loads text = some (obj end)

-- Results stand in messages of their own, in front of the prose.
results_first :
    to_groq_message dumps (record {
      role = user;
      content =
          blocks (wire_text (lit "e poi?") ∷ tool_result (lit "t1") (lit "le nove") true ∷ []);
    })
    ≡ tool_message (lit "t1") (lit "le nove") ∷ user_message (lit "e poi?") ∷ []
unfolding to_groq_message emma.Llm.Groq.results_of emma.Llm.Groq.prose_of emma.Common.join
results_first = refl

abbrev call : GroqCall
call = record { id = lit "t1"; name = lit "current_time"; arguments = lit "{}" }

to_groq_message-from_groq_message_example :
    to_groq_message dumps (
      to_assistant_message (
        from_groq_message loads
          (record { content = text_or_none (lit "vedo"); tool_calls = some (map raw (call ∷ [])) })
          (some (lit "tool_calls"))))
    ≡ assistant_message (text_or_none (lit "vedo")) (call ∷ []) ∷ []
unfolding lit
to_groq_message-from_groq_message_example =
    to_groq_message-from_groq_message dumps loads (lit "vedo") (call ∷ []) (some (lit "tool_calls"))
      ((end, refl, refl, refl), tt)
