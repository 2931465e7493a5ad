-- ===== src/Sdk/Retry/Runs.antt =====
-- What a run of `withRetry` looks like, and that there is one.
use mathlib.Core.Path.{subst}
use native.Mathlib.Decide.{dec_lt}
use native.Mathlib.Numerals.{add-one}
use swift_remit.Prelude.{
  ℕ, zero, suc, ◌+◌, ◌*◌, ◌^◌, ◌≤◌, ◌<◌, ◌≡◌, refl, ◌⊎◌, inl, inr, true, false, some, List, [], ◌∷◌,
  ◌++◌, arith, Bool-cases,
}
use swift_remit.Prelude.Dict.{Text}
use swift_remit.Prelude.Result.{Result, ok, err, Result-cases}
use swift_remit.Sdk.Retry.{
  is_transient_error, Run, gives_up, with_retry_from, with_retry, RetryPolicy, or_default,
  with_retry_policy,
}

-- The delays before the calls numbered 1 to n: each is the one before, times the factor.
abbrev pub backoff : ℕ → ℕ → ℕ → List ℕ
backoff delay factor zero = []
backoff delay factor (suc n) = backoff delay factor n ++ (delay * factor ^ n) ∷ []

backoff-succ :
    (delay factor n : ℕ)
    → backoff delay factor (n + 1) ≡ backoff delay factor n ++ (delay * factor ^ n) ∷ []
backoff-succ delay factor n = rw add-one refl

module _ {A : Type 0} (fn : ℕ → Result Text A) (retries delay_ms factor : ℕ) where
  -- The call failed with an error that is worth another try.
  abbrev pub FailedTransiently : ℕ → Type 0
  FailedTransiently i = (e : Text) × (fn i ≡ err e) × (is_transient_error e ≡ true)

  -- The result of the last call was final: a value, an error that no retry mends, or an error
  -- with no retry left.
  abbrev pub IsFinal : ℕ → Result Text A → Type 0
  IsFinal i (ok a) = Unit
  IsFinal i (err e) = (is_transient_error e ≡ false) ⊎ (i ≡ retries)

  pub record IsRun (r : Run A) : Type 0 where
    pub last : ℕ
    pub calls_eq : r.calls ≡ suc last
    pub within : last ≤ retries
    pub result_eq : fn last ≡ r.result
    pub final : IsFinal last r.result
    pub before : (i : ℕ) → i < last → FailedTransiently i
    pub delays_eq : r.delays ≡ backoff delay_ms factor last

  stopped :
      (attempt : ℕ) (res : Result Text A)
      → attempt ≤ retries
      → fn attempt ≡ res
      → IsFinal attempt res
      → ((i : ℕ) → i < attempt → FailedTransiently i)
      → IsRun
          (record { result = res; calls = attempt + 1; delays = backoff delay_ms factor attempt })
  stopped attempt res fits e f before = record {
    last = attempt;
    calls_eq = omega arith;
    within = fits;
    result_eq = e;
    final = f;
    before = before;
    delays_eq = refl;
  }

  one_more :
      (attempt : ℕ) (e : Text)
      → fn attempt ≡ err e
      → is_transient_error e ≡ true
      → ((i : ℕ) → i < attempt → FailedTransiently i)
      → (i : ℕ) → i < attempt + 1
      → FailedTransiently i
  one_more attempt e failed goes before i h = elim (dec_lt i attempt) [
    | yes earlier ↦ before i earlier
    | no now ↦ subst FailedTransiently (omega arith) (e, failed, goes)
  ]

  -- From the round numbered `attempt` on, with fuel for the rounds that are left.
  with_retry_from_lem :
      (fuel attempt : ℕ)
      → attempt + fuel ≡ retries + 1
      → 0 < fuel
      → ((i : ℕ) → i < attempt → FailedTransiently i)
      → (r : Run A) × (with_retry_from fn retries delay_ms factor fuel attempt
            (backoff delay_ms factor attempt)
          ≡ some r)
        × IsRun r
  unfolding with_retry_from
  with_retry_from_lem zero attempt sum h before = absurd (omega arith)
  with_retry_from_lem (suc fuel) attempt sum h before = elim (Result-cases (fn attempt)) [
    | inl (a, e) ↦
        (_, rw (e, with_retry_from) refl, stopped attempt (ok a) (omega arith) e tt before)
    | inr (x, e) ↦ elim (Bool-cases (gives_up attempt retries x)) [
      | inl stop ↦ (
        _,
        rw (e, with_retry_from, stop) refl,
        stopped attempt (err x) (omega arith) e (ground arith) before,
      )
      | inr go ↦
          rw (e, with_retry_from, go, ← backoff-succ delay_ms factor attempt)
            (with_retry_from_lem fuel (attempt + 1) (omega arith) (ground arith)
              (one_more attempt x e (ground arith) before))
    ]
  ]

-- `withRetry` always ends within its `retries + 1` rounds, and does what it should. Some call, at
-- most the one numbered `retries`, was the last, and its result is returned: a value, an error that
-- is not transient, or the error of the last round. Each earlier call failed with a transient error,
-- and the delay after the call numbered i is `delayMs * backoffFactor ^ i`.
pub with_retry_total :
    {A : Type 0} (fn : ℕ → Result Text A) (retries delay_ms factor : ℕ)
    → (r : Run A) × (with_retry fn retries delay_ms factor ≡ some r)
      × IsRun fn retries delay_ms factor r
unfolding with_retry
with_retry_total fn retries delay_ms factor =
    with_retry_from_lem fn retries delay_ms factor (retries + 1) 0 (omega arith) (omega arith)
      (λ i h. absurd (omega arith))

-- With no policy delay or factor the defaults are used, and a policy's own values win.
pub with_retry_policy_total :
    {A : Type 0} (fn : ℕ → Result Text A) (p : RetryPolicy) (delay factor : ℕ)
    → (r : Run A) × (with_retry_policy fn p delay factor ≡ some r)
      × IsRun fn p.retries (or_default p.delay_ms delay) (or_default p.backoff_factor factor) r
unfolding with_retry_policy
with_retry_policy_total fn p delay factor =
    with_retry_total fn p.retries (or_default p.delay_ms delay) (or_default p.backoff_factor factor)
