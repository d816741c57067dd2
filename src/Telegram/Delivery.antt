-- ===== src/Telegram/Delivery.antt =====
-- What adapters/telegram.py sends: whom it answers, how often it tries, and what arrives.
use emma.Common.{
  ℕ, zero, suc, ◌+◌, ◌≤◌, ◌<◌, ◌≡◌, refl, ◌∙◌, inl, inr, false, Option, none, some, Text, is_empty,
  Result, ok, err, Exc, arith, Bool-cases, Option-cases,
}
use emma.Retry.{default_max_attempts, pause_before_retry}
use emma.Router.{Router, AssistantRequest, AssistantResponse}
use emma.Telegram.{
  SendError, bad_request, timed_out, network_error, other, Chat, Identifier, Update, same_id, pause,
  send_from, send, on_text_message, on_error,
}

module _ {C T : Type 0} (chat : Chat C) (allowed : Identifier)
    (turn : AssistantRequest → T → Result Exc AssistantResponse × T) (t : T) (c : C) where
  message_ignored :
      (text : Option Text) (user_id chat_id : Option Identifier)
      → ((user : Identifier) → user_id ≡ some user → same_id user allowed ≡ false)
      → on_text_message chat allowed turn
          (record { text = text; user_id = user_id; chat_id = chat_id })
          (t, c)
        ≡ (ok tt, (t, c))
  unfolding on_text_message
  message_ignored none user_id chat_id h = refl
  message_ignored (some text) none chat_id h = refl
  message_ignored (some text) (some user) none h = refl
  message_ignored (some text) (some user) (some id) h = elim (Bool-cases (is_empty text)) [
    | inl e ↦ rw e refl
    | inr e ↦ rw (e, h user refl) refl
  ]

  error_ignored :
      (text : Option Text) (user_id chat_id : Option Identifier)
      → ((user : Identifier) → user_id ≡ some user → same_id user allowed ≡ false)
      → on_error chat allowed turn (record { text = text; user_id = user_id; chat_id = chat_id }) c
        ≡ c
  unfolding on_error
  error_ignored text user_id none h = refl
  error_ignored text none (some id) h = refl
  error_ignored text (some user) (some id) h = rw (h user refl) refl

  -- The whitelist: an update from anybody but the one allowed user, or from nobody, leaves the
  -- router's state and the chat untouched, in the handler of messages and in the handler of errors.
  pub stranger_ignored :
      (update : Update)
      → ((user : Identifier) → update.user_id ≡ some user → same_id user allowed ≡ false)
      → (on_text_message chat allowed turn update (t, c) ≡ (ok tt, (t, c)))
        × (on_error chat allowed turn update c ≡ c)
  stranger_ignored update h = (
    message_ignored update.text update.user_id update.chat_id h,
    error_ignored update.text update.user_id update.chat_id h,
  )

-- How many calls `_send` makes, for a world that counts them.
module _ {C : Type 0} (chat : Chat C) (call : C → Result SendError (Unit {0}) × C) (calls : C → ℕ)
    (counted : (c : C) → calls (call c).1 ≡ calls c + 1)
    (asleep : (seconds : ℕ) (c : C) → calls (chat.sleep seconds c) ≡ calls c) where
  calls-pause : (attempt : ℕ) (c : C) → calls (pause chat attempt c) ≡ calls c
  unfolding pause
  calls-pause attempt c = elim (Option-cases (pause_before_retry attempt default_max_attempts 1)) [
    | inl e ↦ rw (pause, e) refl
    | inr (seconds, e) ↦ rw (pause, e) (asleep seconds c)
  ]

  -- One attempt, given what the next ones do.
  calls-attempt :
      (left attempt : ℕ) (c : C) (outcome : Result SendError (Unit {0}))
      → (call c).0 ≡ outcome
      → (let c' = pause chat attempt (call c).1 in
          (calls c' ≤ calls (send_from chat call left (attempt + 1) c').1)
          × (calls (send_from chat call left (attempt + 1) c').1 ≤ calls c' + left))
      → (calls c < calls (send_from chat call (suc left) attempt c).1)
        × (calls (send_from chat call (suc left) attempt c).1 ≤ calls c + suc left)
  unfolding send_from
  calls-attempt left attempt c (ok u) e ih =
      rw (send_from, e) (omega (arith, counted c), omega (arith, counted c))
  calls-attempt left attempt c (err bad_request) e ih =
      rw (send_from, e) (omega (arith, counted c), omega (arith, counted c))
  calls-attempt left attempt c (err (other x)) e ih =
      rw (send_from, e) (omega (arith, counted c), omega (arith, counted c))
  calls-attempt left attempt c (err timed_out) e ih =
      let paused : calls (pause chat attempt (call c).1) ≡ calls c + 1 =
        calls-pause attempt (call c).1 ∙ counted c in
      rw (send_from, e) (omega (arith, paused, ih.0), omega (arith, paused, ih.1))
  calls-attempt left attempt c (err network_error) e ih =
      let paused : calls (pause chat attempt (call c).1) ≡ calls c + 1 =
        calls-pause attempt (call c).1 ∙ counted c in
      rw (send_from, e) (omega (arith, paused, ih.0), omega (arith, paused, ih.1))

  calls-send_from :
      (left attempt : ℕ) (c : C)
      → (calls c ≤ calls (send_from chat call left attempt c).1)
        × (calls (send_from chat call left attempt c).1 ≤ calls c + left)
  unfolding send_from
  calls-send_from zero attempt c = (omega arith, omega arith)
  calls-send_from (suc left) attempt c =
      let (more, most) =
        calls-attempt left attempt c (call c).0 refl
          (calls-send_from left (attempt + 1) (pause chat attempt (call c).1)) in
      (omega (arith, more), most)

  -- `_send` calls Telegram once at least, and three times at most, whatever it answers; a message
  -- that is rejected as bad is not sent again.
  pub calls-send :
      (c : C)
      → (calls c < calls (send chat call c).1)
        × (calls (send chat call c).1 ≤ calls c + default_max_attempts)
        × ((call c).0 ≡ err bad_request → send chat call c ≡ (false, (call c).1))
  unfolding send
  calls-send c =
      let (more, most) =
        calls-attempt 2 1 c (call c).0 refl (calls-send_from 2 2 (pause chat 1 (call c).1)) in
      (more, most, λ e. unfold send_from in rw e refl)
