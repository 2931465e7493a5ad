-- ===== src/Sdk/Retry.antt =====
-- `sdk/src/retry.ts`. The function that is retried is the list of what its calls return, as a
-- function of the call's number; a delay is the argument of `setTimeout`.
pub mod Runs
use swift_remit.Prelude.{
  ℕ, zero, suc, ◌+◌, ◌*◌, ◌^◌, Bool, true, false, not, ◌&&◌, ◌||◌, Option, none, some, List, [],
  ◌∷◌, ◌++◌, ◌==◌, leb, if◌then◌else◌,
}
use swift_remit.Prelude.Dict.{Text}
use swift_remit.Prelude.Strings.{text, starts_with}
use swift_remit.Prelude.Result.{Result, ok, err}

-- `t.includes(p)`
includes : Text → Text → Bool
includes p [] = starts_with p []
includes p (c ∷ t) = starts_with p (c ∷ t) || includes p t

-- `isTransientError`, on the message of the error.
unfoldable pub is_transient_error : Text → Bool
unfolding includes
is_transient_error msg =
    includes (text "429") msg
    || includes (text "503") msg
    || includes (text "ECONNRESET") msg
    || includes (text "ECONNREFUSED") msg
    || includes (text "ETIMEDOUT") msg
    || includes (text "network") msg
    || includes (text "timeout") msg
    || includes (text "timed out") msg

-- What a call of `withRetry` did: its result, the calls of `fn`, and the delays between them.
pub record Run (A : Type 0) : Type 0 where
  pub result : Result Text A
  pub calls : ℕ
  pub delays : List ℕ

-- The tests of the `catch` block: whether the error is thrown on.
abbrev pub gives_up : ℕ → ℕ → Text → Bool
gives_up attempt retries e = leb retries attempt || not (is_transient_error e)

module _ {A : Type 0} where
  -- The `while (true)` with fuel; `none` means that the fuel ran out.
  unfoldable pub with_retry_from : (ℕ → Result Text A) → ℕ → ℕ → ℕ → ℕ → ℕ → List ℕ → Option (Run A)
  with_retry_from fn retries delay_ms factor zero attempt slept = none
  with_retry_from fn retries delay_ms factor (suc fuel) attempt slept =
      let again =
        with_retry_from fn retries delay_ms factor fuel (attempt + 1)
          (slept ++ (delay_ms * factor ^ attempt) ∷ []) in
      elim (fn attempt) [
        | ok a ↦ some (record { result = ok a; calls = attempt + 1; delays = slept })
        | err e ↦
            if gives_up attempt retries e
            then some (record { result = err e; calls = attempt + 1; delays = slept })
            else again
      ]

  -- `withRetry`. A call makes at most `retries + 1` rounds.
  unfoldable pub with_retry : (ℕ → Result Text A) → ℕ → ℕ → ℕ → Option (Run A)
  unfolding with_retry_from
  with_retry fn retries delay_ms factor =
      with_retry_from fn retries delay_ms factor (retries + 1) 0 []

-- `RetryPolicy`, and the defaults of `withRetryPolicy`.
pub record RetryPolicy : Type 0 where
  pub retries : ℕ
  pub delay_ms : Option ℕ
  pub backoff_factor : Option ℕ

abbrev pub or_default : Option ℕ → ℕ → ℕ
or_default none d = d
or_default (some n) d = n

unfoldable pub with_retry_policy :
    {A : Type 0} → (ℕ → Result Text A) → RetryPolicy → ℕ → ℕ → Option (Run A)
unfolding with_retry
with_retry_policy fn policy default_delay default_factor =
    with_retry fn policy.retries (or_default policy.delay_ms default_delay)
      (or_default policy.backoff_factor default_factor)
