-- ===== src/Llm/Groq/Replay.antt =====
-- A reply of Groq on its way through the router and back (core/llm.py).
use emma.Common.{
  ◌≡◌, refl, ap, ap₂, sym, ◌∙◌, false, Option, some, List, [], ◌∷◌, Text, join, is_empty, map, All,
}
use emma.Llm.{blank_line, wire_text, wire_block, to_assistant_message}
use emma.Llm.Json.{Json, obj, Fields}
use emma.Llm.Groq.{
  GroqCall, assistant_message, prose_of, text_of, calls_of, text_or_none, to_groq_message, RawCall,
  raw_arguments, as_fields, call_blocks, from_groq_message,
}

-- The call as the SDK gives it.
abbrev pub raw : GroqCall → RawCall
raw call = record { id = call.id; name = call.name; arguments = some call.arguments }

-- The arguments are the text that `dumps` writes of some dictionary, and `loads` reads it back.
abbrev pub IsDumped : (Fields → Text) → (Text → Option Json) → GroqCall → Type 0
IsDumped dumps loads call =
    (fields : Fields) × (call.arguments ≡ dumps fields)
    × (is_empty (dumps fields) ≡ false)
    × (loads (dumps fields) ≡ some (obj fields))

module _ (dumps : Fields → Text) (loads : Text → Option Json) where
  prose_of-calls : (calls : List RawCall) → prose_of (map wire_block (call_blocks loads calls)) ≡ []
  unfolding prose_of call_blocks wire_block
  prose_of-calls [] = refl
  prose_of-calls (call ∷ calls) = prose_of-calls calls

  raw_arguments-kept : (t : Text) → is_empty t ≡ false → raw_arguments (some t) ≡ t
  raw_arguments-kept [] h = cc
  raw_arguments-kept (c ∷ cs) h = refl

  read_back :
      (call : GroqCall)
      → IsDumped dumps loads call
      → dumps (as_fields (loads (raw_arguments (some call.arguments)))) ≡ call.arguments
  read_back call (fields, e, full, read) =
      ap (λ t. dumps (as_fields (loads (raw_arguments (some t))))) e
      ∙ ap (λ t. dumps (as_fields (loads t))) (raw_arguments-kept (dumps fields) full)
      ∙ ap (λ j. dumps (as_fields j)) read
      ∙ sym e

  calls_of-calls :
      (calls : List GroqCall)
      → All (IsDumped dumps loads) calls
      → calls_of dumps (map wire_block (call_blocks loads (map raw calls))) ≡ calls
  unfolding calls_of call_blocks wire_block
  calls_of-calls [] h = refl
  calls_of-calls (call ∷ calls) (dumped, h) =
      ap₂ ◌∷◌ (ap (λ a. record call { arguments = a }) (read_back call dumped))
        (calls_of-calls calls h)

  text_of-calls : (calls : List RawCall) → text_of (map wire_block (call_blocks loads calls)) ≡ []
  unfolding text_of join
  text_of-calls calls = ap (join blank_line) (prose_of-calls calls)

  text_of-text :
      (t : Text) (calls : List RawCall)
      → text_of (wire_text t ∷ map wire_block (call_blocks loads calls)) ≡ t
  unfolding text_of prose_of join
  text_of-text t calls = ap (λ ps. join blank_line (t ∷ ps)) (prose_of-calls calls)

  -- A reply of Groq goes back to it as it was: read into blocks, put into the conversation by the
  -- router and translated again, it is one assistant message with the same text, or none, and the
  -- same calls in the same order. The arguments of each call are a text that `dumps` writes of a
  -- dictionary and that `loads` reads back.
  pub to_groq_message-from_groq_message :
      (text : Text) (calls : List GroqCall) (finish_reason : Option Text)
      → All (IsDumped dumps loads) calls
      → to_groq_message dumps (
          to_assistant_message (
            from_groq_message loads
              (record { content = text_or_none text; tool_calls = some (map raw calls) })
              finish_reason))
        ≡ assistant_message (text_or_none text) calls ∷ []
  unfolding to_groq_message to_assistant_message from_groq_message wire_block call_blocks
  to_groq_message-from_groq_message [] [] finish_reason h =
      unfold text_of prose_of calls_of join in refl
  to_groq_message-from_groq_message [] (call ∷ calls) finish_reason h =
      ap₂ (λ t k. assistant_message (text_or_none t) k ∷ [])
        (text_of-calls (map raw (call ∷ calls))) (calls_of-calls (call ∷ calls) h)
  to_groq_message-from_groq_message (c ∷ cs) calls finish_reason h =
      ap₂ (λ t k. assistant_message (text_or_none t) k ∷ []) (text_of-text (c ∷ cs) (map raw calls))
        (unfold calls_of in calls_of-calls calls h)
