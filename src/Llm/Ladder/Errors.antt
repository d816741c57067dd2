-- ===== src/Llm/Ladder/Errors.antt =====
-- Which error the ladder of core/llm.py ends with.
use emma.Common.{
  Float, exceeds, false, ℕ, zero, suc, ◌+◌, ◌≤◌, ◌<◌, ◌-◌, ◌≡◌, ◌≢◌, ◌∙◌, refl, ap, sym, Option,
  none, some, Text, Result, ok, err, Result-cases, Option-cases, arith, ◌⊎◌, inl, inr, Exc,
}
use mathlib.Core.Path.{subst}
use emma.Retry.{pause_before_retry, remaining_backoff}
use emma.Llm.{LlmError, unavailable, quota_exceeded, other}
use emma.Llm.Ladder.{
  SdkError, connection_error, rate_limit_error, status_error, root_error, Failure, sdk, foreign,
  Env, RetryLadder, Verdict, give_up, retry, classify, note_pause, make_call, check_rate_limit,
  retry_after_seconds, status_code, http_too_many_requests, exhausted, run_from, run,
}

-- The failures that a later attempt may cure: the connection, a server's fault, and a rate limit
-- that asks for no more than the pauses left, or that names no time.
abbrev pub IsTransient : (Text → Option Float) → RetryLadder → ℕ → Failure → Type 0
IsTransient float_of ladder attempt (sdk (connection_error m)) = Unit
IsTransient float_of ladder attempt (sdk (rate_limit_error s h m)) =
    (wait : Float)
    → retry_after_seconds float_of (rate_limit_error s h m) ≡ some wait
    → exceeds wait (remaining_backoff attempt ladder.max_attempts ladder.backoff_seconds) ≡ false
IsTransient float_of ladder attempt (sdk (status_error s h m)) = 500 ≤ s
IsTransient float_of ladder attempt (sdk (root_error m)) = ⊥
IsTransient float_of ladder attempt (foreign e) = ⊥

-- The error is the one that a caller reads as a rate limit.
abbrev pub IsQuota : LlmError → Type 0
IsQuota (quota_exceeded m wait) = Unit
IsQuota (unavailable m) = ⊥
IsQuota (other e) = ⊥

abbrev pub IsForeign : LlmError → Type 0
IsForeign (other e) = Unit
IsForeign (quota_exceeded m wait) = ⊥
IsForeign (unavailable m) = ⊥

abbrev Retries : Verdict → Type 0
Retries (retry exc) = Unit
Retries (give_up e) = ⊥

Verdict-cases :
    (v : Verdict) → ((e : LlmError) × (v ≡ give_up e)) ⊎ ((exc : SdkError) × (v ≡ retry exc))
Verdict-cases (give_up e) = inl (e, refl)
Verdict-cases (retry exc) = inr (exc, refl)

module _ (float_of : Text → Option Float) (ladder : RetryLadder) (attempt : ℕ) where
  retry_of_transient :
      (f : Failure)
      → IsTransient float_of ladder attempt f
      → Retries (classify float_of ladder attempt f)
  unfolding classify check_rate_limit
  retry_of_transient (sdk (connection_error m)) h = tt
  retry_of_transient (sdk (rate_limit_error s h m)) t =
      elim (Option-cases (retry_after_seconds float_of (rate_limit_error s h m))) [
        | inl e ↦ rw (e, Retries, classify, check_rate_limit) tt
        | inr (wait, e) ↦ rw (e, Retries, classify, check_rate_limit) (ground (arith, t wait e))
      ]
  retry_of_transient (sdk (status_error s h m)) t = ground arith
  retry_of_transient (sdk (root_error m)) t = absurd t
  retry_of_transient (foreign e) t = absurd t

  IsTransient-of_retry :
      (f : Failure)
      → Retries (classify float_of ladder attempt f)
      → IsTransient float_of ladder attempt f
  unfolding classify check_rate_limit
  IsTransient-of_retry (sdk (connection_error m)) h = tt
  IsTransient-of_retry (sdk (rate_limit_error s h m)) t = λ wait e. ground arith
  IsTransient-of_retry (sdk (status_error s h m)) t = ground arith
  IsTransient-of_retry (sdk (root_error m)) t = ground arith
  IsTransient-of_retry (foreign e) t = ground arith

  classify-retry :
      (f : Failure) (exc : SdkError) → classify float_of ladder attempt f ≡ retry exc → f ≡ sdk exc
  unfolding classify check_rate_limit
  classify-retry (sdk (connection_error m)) exc e = ground arith
  classify-retry (sdk (rate_limit_error s h m)) exc e = ground arith
  classify-retry (sdk (status_error s h m)) exc e = ground arith
  classify-retry (sdk (root_error m)) exc e = ground arith
  classify-retry (foreign x) exc e = ground arith

-- A round that fails ends the run at once, with no pause, if the failure is not transient;
-- otherwise it pauses and goes on with the attempts that are left.
pub retry_iff_IsTransient :
    (float_of : Text → Option Float) {W A : Type 0} (call : W → Result Failure A × W)
    (ladder : RetryLadder) (left attempt : ℕ) (last : Option SdkError) (env : Env W) (f : Failure)
    → (call env.world).0 ≡ err f
    → ((¬ IsTransient float_of ladder attempt f)
        → (e : LlmError) × (run_from float_of call ladder (suc left) attempt last env
            ≡ (err e, (make_call call env).1)))
      × (IsTransient float_of ladder attempt f
          → (exc : SdkError) × (f ≡ sdk exc)
            × (run_from float_of call ladder (suc left) attempt last env
                ≡ run_from float_of call ladder left (attempt + 1) (some exc) (
                    note_pause
                      (pause_before_retry attempt ladder.max_attempts ladder.backoff_seconds)
                      (make_call call env).1)))
unfolding run_from
retry_iff_IsTransient float_of call ladder left attempt last env f e = (
  λ n. elim (Verdict-cases (classify float_of ladder attempt f)) [
    | inl (x, g) ↦ (x, rw (e, run_from) (rw g refl))
    | inr (x, g) ↦ absurd (n (IsTransient-of_retry float_of ladder attempt f (rw g tt)))
  ],
  λ t. elim (Verdict-cases (classify float_of ladder attempt f)) [
    | inl (x, g) ↦ absurd (rw g at (retry_of_transient float_of ladder attempt f t))
    | inr (x, g) ↦ (x, classify-retry float_of ladder attempt f x g, rw (e, run_from) (rw g refl))
  ],
)

-- The outcome is an error that reads as a rate limit.
abbrev pub EndsInQuota : {B : Type 0} → Result LlmError B → Type 0
EndsInQuota (ok b) = ⊥
EndsInQuota (err e) = IsQuota e

-- The outcome is a value, or one of the two errors that the interface promises.
abbrev pub KeepsContract : {B : Type 0} → Result LlmError B → Type 0
KeepsContract (ok b) = Unit
KeepsContract (err e) = ¬ (IsForeign e)

module _ (float_of : Text → Option Float) {W A : Type 0} (call : W → Result Failure A × W)
    (ladder : RetryLadder) where
  abbrev Limited : W → Type 0
  Limited w =
      (h : Option Text) × (m : Text) × ((call w).0
        ≡ err (sdk (rate_limit_error http_too_many_requests h m)))

  IsQuota-of_give_up :
      (attempt : ℕ) (h : Option Text) (m : Text) (e : LlmError)
      → classify float_of ladder attempt (sdk (rate_limit_error http_too_many_requests h m))
        ≡ give_up e
      → IsQuota e
  unfolding classify check_rate_limit
  IsQuota-of_give_up attempt h m (quota_exceeded n wait) g = tt
  IsQuota-of_give_up attempt h m (unavailable n) g = ground arith
  IsQuota-of_give_up attempt h m (other x) g = ground arith

  quota_round :
      (left attempt : ℕ) (last : Option SdkError) (env : Env W)
      → Limited env.world
      → ((h : Option Text) (m : Text) (env' : Env W)
          → EndsInQuota
              (run_from float_of call ladder left
                (attempt + 1)
                (some (rate_limit_error http_too_many_requests h m))
                env').0)
      → EndsInQuota (run_from float_of call ladder (suc left) attempt last env).0
  unfolding run_from
  quota_round left attempt last env (h, m, e) go =
      elim (Verdict-cases
        (classify float_of ladder attempt (sdk (rate_limit_error http_too_many_requests h m)))) [
          | inl (x, g) ↦ rw (e, run_from, EndsInQuota) (rw g (IsQuota-of_give_up attempt h m x g))
          | inr (x, g) ↦
              let same : x ≡ rate_limit_error http_too_many_requests h m = cc (
                classify-retry float_of ladder attempt
                  (sdk (rate_limit_error http_too_many_requests h m)) x g) in
              rw (e, run_from, EndsInQuota) (rw g (rw same (go h m _)))
        ]

  module _ (limited : (w : W) → Limited w) where
    quota_from :
        (left attempt : ℕ) (h : Option Text) (m : Text) (env : Env W)
        → EndsInQuota
            (run_from float_of call ladder left attempt
              (some (rate_limit_error http_too_many_requests h m))
              env).0
    unfolding run_from exhausted status_code
    quota_from zero attempt h m env = tt
    quota_from (suc left) attempt h m env =
        quota_round left attempt (some (rate_limit_error http_too_many_requests h m)) env
          (limited env.world) (λ h' m' env'. quota_from left (attempt + 1) h' m' env')

    -- If every call is answered by a rate limit (HTTP 429) and one attempt at least is allowed,
    -- the run ends in the quota error, be it because the wait asked for is too long or because the
    -- attempts ran out.
    pub limited-EndsInQuota :
        (env : Env W) → 0 < ladder.max_attempts → EndsInQuota (run float_of call ladder env).0
    unfolding run
    limited-EndsInQuota env h =
        let left = ladder.max_attempts - 1 in
        let e : ladder.max_attempts ≡ suc left = omega arith in
        subst (λ n. EndsInQuota (run_from float_of call ladder n 1 none env).0) (sym e)
          (quota_round left 1 none env (limited env.world)
            (λ h' m' env'. quota_from left 2 h' m' env'))

  module _ (sdk_only : (w : W) (x : Exc) → (call w).0 ≢ err (foreign x)) where
    contract_of_give_up :
        (attempt : ℕ) (f : Failure) (e : LlmError)
        → classify float_of ladder attempt f ≡ give_up e
        → ((x : Exc) → f ≢ foreign x)
        → ¬ (IsForeign e)
    unfolding classify check_rate_limit
    contract_of_give_up attempt f (quota_exceeded m w) g n = λ z. z
    contract_of_give_up attempt f (unavailable m) g n = λ z. z
    contract_of_give_up attempt (foreign x) (other y) g n = absurd (n x refl)
    contract_of_give_up attempt (sdk (connection_error m)) (other y) g n = cc
    contract_of_give_up attempt (sdk (rate_limit_error s h m)) (other y) g n = ground arith
    contract_of_give_up attempt (sdk (status_error s h m)) (other y) g n = ground arith
    contract_of_give_up attempt (sdk (root_error m)) (other y) g n = cc

    contract_exhausted : (last : Option SdkError) → ¬ (IsForeign (exhausted float_of ladder last))
    unfolding exhausted
    contract_exhausted none = λ z. z
    contract_exhausted (some exc) = λ z. ground arith

    contract_from :
        (left attempt : ℕ) (last : Option SdkError) (env : Env W)
        → KeepsContract (run_from float_of call ladder left attempt last env).0
    unfolding run_from
    contract_from zero attempt last env = contract_exhausted last
    contract_from (suc left) attempt last env = elim (Result-cases (call env.world).0) [
      | inl (a, e) ↦ rw (e, run_from, KeepsContract) tt
      | inr (f, e) ↦ elim (Verdict-cases (classify float_of ladder attempt f)) [
        | inl (x, g) ↦
            rw (e, run_from, KeepsContract)
              (rw g
                (contract_of_give_up attempt f x g (λ y p. sdk_only env.world y (e ∙ ap err p))))
        | inr (x, g) ↦
            rw (e, run_from, KeepsContract) (rw g (contract_from left (attempt + 1) (some x) _))
      ]
    ]

    -- If the SDK raises nothing but its own errors, a run returns or raises one of the two errors
    -- that the interface promises.
    pub run-KeepsContract : (env : Env W) → KeepsContract (run float_of call ladder env).0
    unfolding run
    run-KeepsContract env = contract_from ladder.max_attempts 1 none env
