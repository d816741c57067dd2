-- ===== src/Llm/Ladder/Laws.antt =====
-- How often the ladder of core/llm.py calls, and how long it sleeps, however it ends.
use emma.Common.{
  Float, ℕ, zero, suc, ◌+◌, ◌-◌, ◌≤◌, ◌<◌, ◌++◌, ◌≡◌, refl, sym, Option, none, some, List, [], ◌∷◌,
  Text, Result, ok, err, arith, ltb, false, Result-cases, ◌⊎◌, inl, inr,
}
use mathlib.Core.Path.{subst}
use emma.Retry.{pause_before_retry, remaining_backoff}
use emma.Retry.Laws.{remaining_backoff-step}
use emma.Llm.{LlmError}
use emma.Llm.Ladder.{
  SdkError, Failure, Event, called, slept, Env, RetryLadder, Verdict, give_up, retry, classify,
  note_pause, make_call, exhausted, run_from, run,
}

pub calls : List Event → ℕ
calls [] = 0
calls (called ∷ es) = calls es + 1
calls (slept t ∷ es) = calls es

pub total_slept : List Event → ℕ
total_slept [] = 0
total_slept (called ∷ es) = total_slept es
total_slept (slept t ∷ es) = t + total_slept es

calls-append : (es fs : List Event) → calls (es ++ fs) ≡ calls es + calls fs
unfolding calls
calls-append [] fs = omega arith
calls-append (called ∷ es) fs = omega (arith, calls-append es fs)
calls-append (slept t ∷ es) fs = calls-append es fs

total_slept-append : (es fs : List Event) → total_slept (es ++ fs) ≡ total_slept es + total_slept fs
unfolding total_slept
total_slept-append [] fs = omega arith
total_slept-append (called ∷ es) fs = total_slept-append es fs
total_slept-append (slept t ∷ es) fs = omega (arith, total_slept-append es fs)

module _ {W : Type 0} where
  calls-note_pause : (p : Option ℕ) (env : Env W) → calls (note_pause p env).trace ≡ calls env.trace
  unfolding calls
  calls-note_pause none env = refl
  calls-note_pause (some t) env = omega (arith, calls-append env.trace (slept t ∷ []))

  total_slept-note_pause :
      (p : Option ℕ) (env : Env W)
      → total_slept (note_pause p env).trace ≡ total_slept env.trace + emma.Retry.slept p
  unfolding total_slept
  total_slept-note_pause none env = omega arith
  total_slept-note_pause (some t) env = omega (arith, total_slept-append env.trace (slept t ∷ []))

-- The attempt that a result arrived on is `k`.
abbrev pub ArrivedOn : {A : Type 0} → Result LlmError (A × ℕ) → ℕ → Type 0
ArrivedOn (ok (a, j)) k = j ≡ k
ArrivedOn (err e) k = Unit

-- What the rounds from `attempt` on do, `k` the last attempt made.
pub record Rounds {W A : Type 0} (ladder : RetryLadder) (attempt : ℕ) (env : Env W)
    (out : Result LlmError (A × ℕ) × Env W) (k : ℕ) : Type 0 where
  pub from : attempt ≤ k
  pub bound : k ≤ ladder.max_attempts
  pub called : calls out.1.trace + attempt ≡ calls env.trace + k + 1
  pub paused :
      total_slept out.1.trace + remaining_backoff k ladder.max_attempts ladder.backoff_seconds
      ≡ total_slept env.trace + remaining_backoff attempt ladder.max_attempts ladder.backoff_seconds
  pub arrived : ArrivedOn out.0 k

Verdict-cases :
    (v : Verdict) → ((e : LlmError) × (v ≡ give_up e)) ⊎ ((exc : SdkError) × (v ≡ retry exc))
Verdict-cases (give_up e) = inl (e, refl)
Verdict-cases (retry exc) = inr (exc, refl)

module _ (float_of : Text → Option Float) {W A : Type 0} (call : W → Result Failure A × W)
    (ladder : RetryLadder) where
  -- The last round made: it returned, gave up, or was the last there was.
  stop :
      (attempt : ℕ) (env : Env W) (r : Result LlmError (A × ℕ))
      → attempt ≤ ladder.max_attempts
      → ArrivedOn r attempt
      → Rounds ladder attempt env (r, (make_call call env).1) attempt
  unfolding calls total_slept
  stop attempt env r h a = record {
    from = omega arith;
    bound = h;
    called = omega (arith, calls-append env.trace (called ∷ []));
    paused = omega (arith, total_slept-append env.trace (called ∷ []));
    arrived = a;
  }

  -- A retry is the pause and then the rounds from the next attempt on.
  go_on :
      (attempt k : ℕ) (env : Env W) (r : Result LlmError (A × ℕ) × Env W)
      → Rounds ladder
          (attempt + 1)
          (note_pause
            (pause_before_retry attempt ladder.max_attempts ladder.backoff_seconds)
            (make_call call env).1)
          r
          k
      → Rounds ladder attempt env r k
  unfolding calls total_slept
  go_on attempt k env r ih =
      let max = ladder.max_attempts in
      let base = ladder.backoff_seconds in
      let env' = (make_call call env).1 in
      let p = pause_before_retry attempt max base in
      record {
        from = omega (arith, ih.from);
        bound = ih.bound;
        called =
            omega (arith, ih.called, calls-note_pause p env', calls-append env.trace (called ∷ []));
        paused = omega (
          arith,
          ih.paused,
          total_slept-note_pause p env',
          total_slept-append env.trace (called ∷ []),
          remaining_backoff-step attempt max base,
        );
        arrived = ih.arrived;
      }

  -- What a retry of the failure `exc` goes on to do.
  abbrev after_retry : ℕ → ℕ → SdkError → Env W → Result LlmError (A × ℕ) × Env W
  after_retry left attempt exc env = run_from float_of call ladder left (attempt + 1) (some exc) (
      note_pause (pause_before_retry attempt ladder.max_attempts ladder.backoff_seconds)
        (make_call call env).1)

  round :
      (left attempt : ℕ) (last : Option SdkError) (env : Env W)
      → attempt ≤ ladder.max_attempts
      → ((exc : SdkError)
          → (k : ℕ) × Rounds ladder attempt env (after_retry left attempt exc env) k)
      → (k : ℕ) × Rounds ladder attempt env
          (run_from float_of call ladder (suc left) attempt last env)
          k
  unfolding run_from
  round left attempt last env h go = elim (Result-cases (call env.world).0) [
    | inl (a, e) ↦ (attempt, rw (e, run_from) (stop attempt env (ok (a, attempt)) h refl))
    | inr (f, e) ↦ elim (Verdict-cases (classify float_of ladder attempt f)) [
      | inl (x, g) ↦ (attempt, rw (e, run_from) (rw g (stop attempt env (err x) h tt)))
      | inr (x, g) ↦ rw (e, run_from) (rw g (go x))
    ]
  ]

  -- Behind the last attempt there is no pause.
  last_round :
      (attempt : ℕ) (exc : SdkError) (env : Env W)
      → attempt ≡ ladder.max_attempts
      → Rounds ladder attempt env (after_retry zero attempt exc env) attempt
  unfolding run_from pause_before_retry
  last_round attempt exc env h =
      let e : ltb attempt ladder.max_attempts ≡ false = ground arith in
      rw e (stop attempt env (err (exhausted float_of ladder (some exc))) (omega arith) tt)

  run_from-Rounds :
      (left attempt : ℕ) (last : Option SdkError) (env : Env W)
      → attempt + left ≡ ladder.max_attempts
      → (k : ℕ) × Rounds ladder attempt env
          (run_from float_of call ladder (suc left) attempt last env)
          k
  run_from-Rounds zero attempt last env h =
      round zero attempt last env (omega arith)
        (λ exc. (attempt, last_round attempt exc env (omega arith)))
  run_from-Rounds (suc left) attempt last env h =
      round (suc left) attempt last env (omega arith) (λ exc.
        let env' =
          note_pause (pause_before_retry attempt ladder.max_attempts ladder.backoff_seconds)
            (make_call call env).1 in
        let (k, ih) = run_from-Rounds left (attempt + 1) (some exc) env' (omega arith) in
        (k, go_on attempt k env (after_retry (suc left) attempt exc env) ih))

  -- With one attempt at least allowed, and however a run ends, there is a last attempt k, from 1
  -- to the ceiling, such that exactly k calls are made, a success is reported as arriving on
  -- attempt k, and the time slept together with what `remaining_backoff` gives for k is what it
  -- gives for the first attempt.
  pub run-Rounds :
      (env : Env W)
      → 0 < ladder.max_attempts
      → (k : ℕ) × Rounds ladder 1 env (run float_of call ladder env) k
  unfolding run
  run-Rounds env h =
      let left = ladder.max_attempts - 1 in
      let e : ladder.max_attempts ≡ suc left = omega arith in
      subst (λ n. (k : ℕ) × Rounds ladder 1 env (run_from float_of call ladder n 1 none env) k)
        (sym e) (run_from-Rounds left 1 none env (omega arith))
