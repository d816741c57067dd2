-- ===== src/Router/Handle/Answers.antt =====
-- What a turn of core/router.py answers or raises.
use emma.Common.{
  Outcome-ok, Outcome-err, Float, finite, infinite, nan, is_finite, is_below, round_over, round_div,
  map_ok, Outcome, returns, raises, Result-cases, Bool-cases, inl, inr, ◌⊎◌, ◌∙◌, ap, true, ◌&&◌,
  not, ◌==◌, ◌^◌, ◌*◌, ℕ, suc, ◌-◌, ◌<◌, ◌≡◌, refl, sym, false, Option, none, some, List, [], ◌∷◌,
  ◌++◌, Text, lit, Dict, map, Result, ok, err, Exc, arith, is_empty,
}
use mathlib.Core.Path.{subst}
use emma.Llm.{LlmError, unavailable, quota_exceeded, other, LlmResponse, Message}
use emma.Llm.Ladder.Errors.{KeepsContract}
use emma.Router.{
  Router, Tool, Schema, Memory, AssistantRequest, AssistantResponse, degrade, quota_message,
  fallback_unavailable, fallback_quota, fallback_empty, fallback_too_many_steps,
}
use emma.Router.Tools.{switched_off, tool_schemas, system_prompt_now}
use emma.Router.Loop.{final_answer, rounds, run_agentic_loop}
use emma.Router.Loop.Outcome.{
  Outcome as LoopOutcome, ceiling, final, raised, run_agentic_loop-Outcome,
}
use emma.Router.Handle.{Turn, wire_message, user_message, history_or_none, catch_llm, handle}

final_answer-Speaks : (reply : LlmResponse) → is_empty (final_answer reply).text ≡ false
unfolding final_answer degrade fallback_empty lit
final_answer-Speaks reply = ground arith

said :
    (w : Float) (d : ℕ) (unit : Text)
    → Outcome
        (λ text. is_empty text ≡ false)
        (λ x. (v : Float) × (some w ≡ some v) × (is_finite v ≡ false))
        (map_ok
          (λ n. fallback_quota ++ (lit " Riprova fra circa " ++ (n ++ unit)))
          (round_over w d))
unfolding fallback_quota lit round_over
said (finite negative m k) d unit =
    elim (Bool-cases (negative && not (round_div m (2 ^ k * d) == 0))) [
      | inl e ↦ rw (round_over, e) (returns refl)
      | inr e ↦ rw (round_over, e) (returns refl)
    ]
said (infinite negative) d unit = raises (infinite negative, refl, refl)
said nan d unit = raises (nan, refl, refl)

-- The text for a spent quota is there, unless `round` raises.
quota_message-Outcome :
    (wait : Option Float)
    → Outcome
        (λ text. is_empty text ≡ false)
        (λ x. (w : Float) × (wait ≡ some w) × (is_finite w ≡ false))
        (quota_message wait)
unfolding quota_message fallback_quota lit round_over
quota_message-Outcome none = returns refl
quota_message-Outcome (some w) = elim (Bool-cases (is_below w 90)) [
  | inl e ↦ rw (quota_message, e) (said w 1 (lit " secondi."))
  | inr e ↦ rw (quota_message, e) (said w 60 (lit " minuti."))
]

-- What is raised is the ValueError or the OverflowError of rounding the advice of a quota error.
pub record Unroundable {W : Type 0} (r : Router W) : Type 0 where
  pub system : Text
  pub messages : List Message
  pub tools : Option (List Schema)
  pub world : W
  pub message : Text
  pub wait : Float
  pub raised_by :
      (r.complete system messages tools world).0 ≡ err (quota_exceeded message (some wait))
  pub no_number : is_finite wait ≡ false

-- The advice of a quota error, if there is any, is a number.
abbrev pub FiniteAdvice : {B : Type 0} → Result LlmError B → Type 0
FiniteAdvice (ok b) = Unit
FiniteAdvice (err (quota_exceeded m none)) = Unit
FiniteAdvice (err (quota_exceeded m (some wait))) = is_finite wait ≡ true
FiniteAdvice (err (unavailable m)) = Unit
FiniteAdvice (err (other x)) = Unit

module _ {W : Type 0} (r : Router W) (by_name : Dict (Tool W))
    (contract : (system : Text) (messages : List Message) (tools : Option (List Schema)) (w : W)
      → KeepsContract (r.complete system messages tools w).0) where
  -- What the `except` clauses make of the end of the loop.
  abbrev Caught : Result LlmError AssistantResponse → Type 0
  Caught o = Outcome (λ answer. is_empty answer.text ≡ false) (λ x. Unroundable r) (catch_llm o)

  catch-Caught : {o : Result LlmError AssistantResponse} → LoopOutcome r o → Caught o
  unfolding degrade fallback_too_many_steps fallback_unavailable lit catch_llm
  catch-Caught ceiling = returns refl
  catch-Caught (final reply) = returns (final_answer-Speaks reply)
  catch-Caught (raised (unavailable m) system messages tools w e) = returns refl
  catch-Caught (raised (other x) system messages tools w e) =
      absurd ((rw e at (contract system messages tools w)) tt)
  catch-Caught (raised (quota_exceeded m wait) system messages tools w e) =
      degraded (quota_message wait) (quota_message-Outcome wait)
    where
      degraded :
          (text : Result Exc Text)
          → Outcome
              (λ t. is_empty t ≡ false)
              (λ x. (v : Float) × (wait ≡ some v) × (is_finite v ≡ false))
              text
          → Outcome
              (λ answer. is_empty answer.text ≡ false)
              (λ x. Unroundable r)
              (map_ok (degrade (lit "quota_exhausted")) text)
      degraded _ (returns h) = returns h
      degraded _ (raises (v, same, n)) = raises (record {
        system = system;
        messages = messages;
        tools = tools;
        world = w;
        message = m;
        wait = v;
        raised_by = e ∙ ap (λ x. err (quota_exceeded m x)) same;
        no_number = n;
      })

  module _ {M : Type 0} (store : Memory M) (request : AssistantRequest) (t : Turn W M) where
    -- How the loop of the turn ends.
    abbrev ended : Result LlmError AssistantResponse
    ended =
        let history = (history_or_none (store.get_history request.conversation_id t.memory)).0 in
        let messages = map wire_message history ++ (user_message request.text ∷ []) in
        (run_agentic_loop r by_name messages t.world).0

    ended-Caught : Caught ended
    ended-Caught = catch-Caught (run_agentic_loop-Outcome r by_name _ t.world)

    -- If the model raises nothing but the two errors of its interface, a turn goes one of two ways,
    -- whatever the store, the tools, the gate and the context providers raise. Either it returns an
    -- answer with some text in it; or the model has raised a quota error whose advice is an infinity
    -- or nan, and the turn raises and is not counted.
    pub handle_answers :
        ((answer : AssistantResponse) × ((handle r by_name store request t).0 ≡ ok answer)
          × (is_empty answer.text ≡ false))
        ⊎ (Unroundable r
            × ((x : Exc) × ((handle r by_name store request t).0 ≡ err x)
                × ((handle r by_name store request t).1.stats ≡ t.stats)))
    unfolding handle
    handle_answers = elim (Result-cases (catch_llm ended)) [
      | inl (answer, e) ↦ inl (answer, rw (e, handle) refl, Outcome-ok ended-Caught answer e)
      | inr (x, e) ↦
          inr (Outcome-err ended-Caught x e, (x, rw (e, handle) refl, rw (e, handle) refl))
    ]

    -- With advice that is a number, if there is any, the turn answers.
    pub handle_answers-finite :
        ((system : Text) (messages : List Message) (tools : Option (List Schema)) (w : W)
          → FiniteAdvice (r.complete system messages tools w).0)
        → (answer : AssistantResponse) × ((handle r by_name store request t).0 ≡ ok answer)
          × (is_empty answer.text ≡ false)
    handle_answers-finite advice = elim handle_answers [
      | inl answered ↦ answered
      | inr (u, (x, e, s)) ↦
          let h = rw u.raised_by at (advice u.system u.messages u.tools u.world) in
          let bad : true ≡ false = sym h ∙ u.no_number in cc
    ]

module _ {W : Type 0} (r : Router W) (by_name : Dict (Tool W)) (x : Exc)
    (raises : (system : Text) (messages : List Message) (tools : Option (List Schema)) (w : W)
      → (r.complete system messages tools w).0 ≡ err (other x)) where
  rounds_escape :
      (left : ℕ) (system : Text) (messages : List Message) (w : W)
      → (rounds r by_name (suc left) system messages w).0 ≡ err (other x)
  unfolding rounds
  rounds_escape left system messages w =
      let (off, w') = switched_off r w in
      let e : (r.complete system messages (tool_schemas r off) w').0 ≡ err (other x) =
        raises system messages (tool_schemas r off) w' in
      rw (e, rounds) refl

  loop_escapes :
      (messages : List Message) (w : W)
      → 0 < r.max_tool_iterations
      → (run_agentic_loop r by_name messages w).0 ≡ err (other x)
  unfolding run_agentic_loop
  loop_escapes messages w h =
      let left = r.max_tool_iterations - 1 in
      let (system, w') = system_prompt_now r w in
      let e : r.max_tool_iterations ≡ suc left = omega arith in
      subst (λ n. (rounds r by_name n system messages w').0 ≡ err (other x)) (sym e)
        (rounds_escape left system messages w')

  -- If the model raises an exception that is not an error of its interface at every call, and one
  -- call is allowed, that exception leaves the handler and the turn is not counted.
  pub handle_escapes :
      {M : Type 0} (store : Memory M) (request : AssistantRequest) (t : Turn W M)
      → 0 < r.max_tool_iterations
      → ((handle r by_name store request t).0 ≡ err x)
        × ((handle r by_name store request t).1.stats ≡ t.stats)
  unfolding handle catch_llm
  handle_escapes store request t h =
      let (history, m) = history_or_none (store.get_history request.conversation_id t.memory) in
      let messages = map wire_message history ++ (user_message request.text ∷ []) in
      let e = loop_escapes messages t.world h in (rw (e, handle) refl, rw (e, handle) refl)
