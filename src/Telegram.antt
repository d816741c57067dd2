-- ===== src/Telegram.antt =====
-- adapters/telegram.py: the channel. What Telegram does is a record of functions of the chat's
-- world; `sleep` lets the whole seconds of a pause go by. The router is a function of its own
-- state, as Router.Handle.handle is.
use emma.Common.{
  ℕ, zero, suc, ◌+◌, Bool, true, false, Option, none, some, List, [], ◌∷◌, ◌++◌, Text, lit, decimal,
  is_empty, Result, ok, err, Exc, ◌==◌, if◌then◌else◌,
}
use emma.Retry.{default_max_attempts, pause_before_retry}
use emma.Router.{AssistantRequest, AssistantResponse}
use emma.Telegram.Split.{max_message_length, split_message}
pub mod Split
pub mod Delivery
pub mod Lifecycle
mod Tests

-- What a call to Telegram raises, as the clauses of `_send` tell it apart.
pub data SendError : Type 0 where
  bad_request : SendError
  timed_out : SendError
  network_error : SendError
  other : Exc → SendError

pub record Chat (C : Type 0) : Type 0 where
  pub send_chat_action : C → Result Exc (Unit {0}) × C
  pub reply_text : Text → C → Result SendError (Unit {0}) × C
  pub send_message : Text → C → Result SendError (Unit {0}) × C
  pub sleep : ℕ → C → C

-- An identifier: a chat's may be negative.
pub record Identifier : Type 0 where
  pub negative : Bool
  pub size : ℕ

unfoldable pub str_id : Identifier → Text
str_id i = if i.negative then lit "-" ++ decimal i.size else decimal i.size

abbrev pub same_id : Identifier → Identifier → Bool
same_id i j = elim i.negative [
  | true ↦ elim j.negative [ true ↦ i.size == j.size | false ↦ false ]
  | false ↦ elim j.negative [ true ↦ false | false ↦ i.size == j.size ]
]

-- `text` is none where there is no message, or one without a text.
pub record Update : Type 0 where
  pub text : Option Text
  pub user_id : Option Identifier
  pub chat_id : Option Identifier

unfoldable pub fallback_internal : Text
fallback_internal =
    lit
      "Ho avuto un problema interno e non sono riuscita a rispondere. L'errore e' stato registrato."

module _ {C : Type 0} (chat : Chat C) where
  -- DEFAULT_BACKOFF_SECONDS is one second.
  unfoldable pub pause : ℕ → C → C
  pause attempt c = elim (pause_before_retry attempt default_max_attempts 1) [
    | none ↦ c
    | some seconds ↦ chat.sleep seconds c
  ]

  -- The attempts that are left of `_send`.
  unfoldable pub send_from :
      (call : C → Result SendError (Unit {0}) × C) → (left attempt : ℕ) → C → Bool × C
  unfolding pause
  send_from call zero attempt c = (false, c)
  send_from call (suc left) attempt c =
      let (outcome, c') = call c in
      elim outcome [
        | ok _ ↦ (true, c')
        | err bad_request ↦ (false, c')
        | err timed_out ↦ send_from call left (attempt + 1) (pause attempt c')
        | err network_error ↦ send_from call left (attempt + 1) (pause attempt c')
        | err (other x) ↦ (false, c')
      ]

  unfoldable pub send : (call : C → Result SendError (Unit {0}) × C) → C → Bool × C
  unfolding send_from
  send call c = send_from call default_max_attempts 1 c

  -- The loop over the chunks, with the number of those delivered.
  unfoldable pub deliver : List Text → C → ℕ × C
  unfolding send
  deliver [] c = (0, c)
  deliver (chunk ∷ chunks) c =
      let (sent, c') = send (chat.reply_text chunk) c in
      let (delivered, c'') = deliver chunks c' in (if sent then delivered + 1 else delivered, c'')

  module _ {T : Type 0} (allowed_user_id : Identifier)
      (handle : AssistantRequest → T → Result Exc AssistantResponse × T) where
    -- `_on_text_message` behind the whitelist
    unfoldable pub answer_message :
        Text → Identifier → Identifier → T × C → Result Exc (Unit {0}) × (T × C)
    unfolding deliver
    answer_message text user_id chat_id (t, c) =
        let c' = (chat.send_chat_action c).1 in
        let (response, t') =
          handle
            (record { text = text; user_id = str_id user_id; conversation_id = str_id chat_id })
            t in
        elim response [
          | err x ↦ (err x, (t', c'))
          | ok answer ↦ (ok tt, (t', (deliver (split_message max_message_length answer.text) c').1))
        ]

    -- `_on_text_message`
    unfoldable pub on_text_message : Update → T × C → Result Exc (Unit {0}) × (T × C)
    unfolding answer_message
    on_text_message update s = elim update.text [
      | none ↦ (ok tt, s)
      | some text ↦ elim update.user_id [
        | none ↦ (ok tt, s)
        | some user_id ↦ elim update.chat_id [
          | none ↦ (ok tt, s)
          | some chat_id ↦
              if is_empty text
              then (ok tt, s)
              else if same_id user_id allowed_user_id
              then answer_message text user_id chat_id s
              else (ok tt, s)
        ]
      ]
    ]

    -- `_on_error`
    unfoldable pub on_error : Update → C → C
    unfolding send
    on_error update c = elim update.chat_id [
      | none ↦ c
      | some chat_id ↦ elim update.user_id [
        | none ↦ c
        | some user_id ↦
            if same_id user_id allowed_user_id
            then (send (chat.send_message fallback_internal) c).1
            else c
      ]
    ]
