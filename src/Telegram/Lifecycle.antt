-- ===== src/Telegram/Lifecycle.antt =====
-- The start and the stop of adapters/telegram.py. The library's application is given as functions of its world.
use emma.Common.{
  Bool, false, Option, none, some, List, [], ◌∷◌, ◌++◌, lit, Result, ok, err, Exc, runtime_error,
  Step, attempt_all, if◌then◌else◌,
}

pub record Application (W : Type 0) : Type 0 where
  -- `updater.running`, or none where the application has no updater.
  pub updater_running : W → Option Bool
  pub running : W → Bool
  pub initialize : W → Result Exc (Unit {0}) × W
  pub start : W → Result Exc (Unit {0}) × W
  pub start_polling : W → Result Exc (Unit {0}) × W
  pub stop_polling : W → Result Exc (Unit {0}) × W
  pub stop : W → Result Exc (Unit {0}) × W
  pub shutdown : W → Result Exc (Unit {0}) × W

abbrev pub no_updater : Exc
no_updater = record {
  kind = runtime_error;
  message = lit "the Telegram application was built without an updater";
}

-- `await call()`, and what follows it if it returns.
abbrev pub after :
    {W : Type 0}
    → Result Exc (Unit {0}) × W
    → (W → Result Exc (Unit {0}) × W)
    → Result Exc (Unit {0}) × W
after (err e, w) next = (err e, w)
after (ok _, w) next = next w

module _ {W : Type 0} (app : Application W) where
  -- `TelegramAdapter.start`
  unfoldable pub start_adapter : W → Result Exc (Unit {0}) × W
  start_adapter w = after (app.initialize w) (λ v. after (app.start v) (λ u.
      elim (app.updater_running u) [
        | none ↦ (err no_updater, u)
        | some running ↦ app.start_polling u
      ]))

  -- `is_listening`
  unfoldable pub is_listening : W → Bool
  is_listening w = elim (app.updater_running w) [ none ↦ false | some running ↦ running ]

  -- The steps that `stop` makes a list of.
  unfoldable pub stop_steps : W → List (Step W)
  unfolding is_listening
  stop_steps w =
      (if is_listening w then (lit "polling", app.stop_polling) ∷ [] else [])
      ++ ((if app.running w then (lit "application", app.stop) ∷ [] else [])
          ++ ((lit "resources", app.shutdown) ∷ []))

  -- `TelegramAdapter.stop`: it never raises.
  unfoldable pub stop_adapter : W → Result Exc (Unit {0}) × W
  unfolding stop_steps
  stop_adapter w = (ok tt, attempt_all (stop_steps w) w)
