-- ===== src/Telegram/Tests.antt =====
-- The channel at concrete inputs, and its theorems applied there.
use emma.Common.{
  if◌then◌else◌, other_error, ℕ, ◌+◌, ◌≤◌, ◌<◌, ◌≡◌, refl, false, none, some, List, [], ◌∷◌, ◌++◌,
  Text, lit, Result, ok, err, Exc,
}
use mathlib.Core.Path.{subst}
use emma.Llm.{unavailable}
use emma.Retry.{default_max_attempts}
use emma.Router.{Router, AssistantRequest, AssistantResponse, Memory, no_turns}
use emma.Router.Handle.{Turn}
use emma.Telegram.{
  SendError, bad_request, timed_out, Chat, Identifier, Update, send, on_text_message, on_error,
  same_id,
}
use emma.Telegram.Split.Accepted.{is_accepted}
use emma.Telegram.Delivery.{stranger_ignored, calls-send}

-- A chat that keeps what it accepts.
abbrev open_chat : Chat (List Text)
open_chat = record {
  send_chat_action = λ c. (ok tt, c);
  reply_text =
      λ text c. if is_accepted text then (ok tt, c ++ (text ∷ [])) else (err bad_request, c);
  send_message = λ text c. (ok tt, c ++ (text ∷ []));
  sleep = λ seconds c. c;
}

abbrev person : ℕ → Identifier
person n = record { negative = false; size = n }

abbrev no_router : AssistantRequest → ℕ → Result Exc AssistantResponse × ℕ
no_router request t = (err (record { kind = other_error; message = lit "unused" }), t + 1)

abbrev from_stranger : Update
from_stranger = record {
  text = some (lit "ciao");
  user_id = some (person 8);
  chat_id = some (person 8);
}

stranger_ignored_example :
    (on_text_message open_chat (person 7) no_router from_stranger (0, []) ≡ (ok tt, (0, [])))
    × (on_error open_chat (person 7) no_router from_stranger [] ≡ [])
stranger_ignored_example =
    stranger_ignored open_chat (person 7) no_router 0 [] from_stranger (λ user e.
      let same : person 8 ≡ user = cc in subst (λ u. same_id u (person 7) ≡ false) same refl)

-- A call that times out every time, in a world that counts the calls.
abbrev timing_out : ℕ → Result SendError (Unit {0}) × ℕ
timing_out c = (err timed_out, c + 1)

abbrev counting : Chat ℕ
counting = record {
  send_chat_action = λ c. (ok tt, c);
  reply_text = λ text c. timing_out c;
  send_message = λ text c. timing_out c;
  sleep = λ seconds c. c;
}

calls-send_instance :
    (0 < (send counting timing_out 0).1)
    × ((send counting timing_out 0).1 ≤ 0 + default_max_attempts)
    × ((timing_out 0).0 ≡ err bad_request → send counting timing_out 0 ≡ (false, 0 + 1))
calls-send_instance = calls-send counting timing_out (λ c. c) (λ c. refl) (λ seconds c. refl) 0

-- A router whose model cannot be reached, over a store that remembers nothing.
abbrev unreachable : Router ℕ
unreachable = record {
  complete = λ system messages tools w. (err (unavailable (lit "down")), w);
  system_prompt = [];
  tools = [];
  context_providers = [];
  tool_gate = none;
  max_tool_iterations = 5;
  now = λ w. w;
}

abbrev forgetful : Memory ℕ
forgetful = record {
  get_history = λ conversation m. (ok [], m);
  append = λ conversation message m. (ok tt, m);
}

abbrev before : Turn ℕ ℕ
before = record { stats = no_turns; memory = 0; world = 0 }

abbrev from_user : Update
from_user = record {
  text = some (lit "ciao");
  user_id = some (person 7);
  chat_id = some (person 7);
}
