-- ===== src/App/Health.antt =====
-- The health endpoint of main.py, with `TurnStats.summary` of core/router.py. Times are in ticks, before they are rounded.
use emma.Common.{
  ℕ, ◌-◌, Bool, Option, none, some, List, ◌++◌, Text, lit, text_eq, length, Result, ok, err, Exc,
  ◌&&◌, if◌then◌else◌,
}
use emma.Memory.{StoredMessage}
use emma.Router.{TurnStats}
use emma.Version.{Summary}

abbrev pub health_probe_conversation : Text
health_probe_conversation = lit "__health__"

pub record StatsSummary : Type 0 where
  pub turns : ℕ
  pub degraded_turns : ℕ
  pub last_degraded_reason : Option Text
  pub ticks_since_degraded : Option ℕ

-- `TurnStats.summary`
unfoldable pub stats_summary : TurnStats → ℕ → StatsSummary
stats_summary s now = record {
  turns = s.turns;
  degraded_turns = s.degraded;
  last_degraded_reason = s.last_reason;
  ticks_since_degraded = elim s.last_at [ none ↦ none | some at ↦ some (now - at) ];
}

-- The response: its status code, and the fields of its body.
pub record Report : Type 0 where
  pub status_code : ℕ
  pub status : Text
  pub store : Text
  pub modified_since_deploy : ℕ
  pub telegram : Text
  pub model : Text
  pub provider : Text
  pub version : Summary
  pub uptime : ℕ
  pub stats : StatsSummary

-- What the endpoint reads besides the store.
pub record Process : Type 0 where
  pub drifted_files : List Text
  pub active_model : Text
  pub llm_provider : Text
  pub version : Result Exc Summary
  pub started_at : ℕ
  pub stats : TurnStats

-- `store`: `class_name` is `type(exc).__name__`.
unfoldable pub store_verdict : (Exc → Text) → Result Exc (List StoredMessage) → Text
store_verdict class_name (ok history) = lit "ok"
store_verdict class_name (err e) = lit "unavailable: " ++ class_name e

-- The body and the code.
unfoldable pub report_of :
    (Exc → Text) → Result Exc (List StoredMessage) → Bool → Process → ℕ → Summary → Report
unfolding store_verdict stats_summary
report_of class_name probe listening process now version =
    let store = store_verdict class_name probe in
    let healthy = text_eq store (lit "ok") && listening in
    record {
      status_code = if healthy then 200 else 503;
      status = if healthy then lit "ok" else lit "degraded";
      store = store;
      modified_since_deploy = length process.drifted_files;
      telegram = if listening then lit "listening" else lit "not polling";
      model = process.active_model;
      provider = process.llm_provider;
      version = version;
      uptime = now - process.started_at;
      stats = stats_summary process.stats now;
    }

-- `health` on what the probe of the store answers.
unfoldable pub health :
    (Exc → Text) → Result Exc (List StoredMessage) → Bool → Process → ℕ → Result Exc Report
unfolding report_of
health class_name probe listening process now = elim process.version [
  | err e ↦ err e
  | ok version ↦ ok (report_of class_name probe listening process now version)
]
