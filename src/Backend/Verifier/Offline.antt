-- ===== src/Backend/Verifier/Offline.antt =====
-- Requests of `backend/src/verifier.ts` that fail.
use swift_remit.Prelude.{ℕ, ◌+◌, ◌≡◌, refl, ◌∙◌, ap, inl, inr, false, some}
use swift_remit.Prelude.Int.{pos}
use swift_remit.Prelude.Dict.{Text, text_eq, lookup}
use swift_remit.Prelude.Strings.{text}
use swift_remit.Backend.Verifier.Caching.{after_insert}
use swift_remit.Prelude.Result.{Result, ok, err, Result-cases}
use swift_remit.Backend.Verifier.{
  VerificationResult, Cache, suspicious, assess, cache_key, negative_cache_ttl_ms, status_of,
  ttl_of, verify_fresh,
}
use swift_remit.Backend.Verifier.Checks.{
  World, no_details, counted, retry_from, retry_request, source, check_stellar_expert,
  check_stellar_toml, check_trustlines, check_transaction_history,
}

abbrev pub or_again : {A : Type 0} → Result Text A → Result Text A → Result Text A
or_again (ok a) s = ok a
or_again (err e) s = s

-- The answer to a request is that of the first attempt that succeeds, of three, or else the error of the
-- third.
pub retry_request_lem :
    {A : Type 0} (send : ℕ → Result Text A)
    → retry_request send ≡ or_again (send 0) (or_again (send 1) (send 2))
unfolding retry_request retry_from
retry_request_lem send = elim (Result-cases (send 0)) [
  | inl (a, e) ↦ rw e refl
  | inr (x, e) ↦ elim (Result-cases (send 1)) [
    | inl (a, f) ↦ rw (e, f) refl
    | inr (y, f) ↦ elim (Result-cases (send 2)) [
      | inl (a, g) ↦ rw (e, f, g) refl
      | inr (z, g) ↦ rw (e, f, g) refl
    ]
  ]
]

-- Every attempt fails.
abbrev pub Fails : {A : Type 0} → (ℕ → Result Text A) → Type 0
Fails send = (i : ℕ) → (e : Text) × (send i ≡ err e)

retry_request-Fails :
    {A : Type 0} (send : ℕ → Result Text A) → Fails send → (e : Text) × (retry_request send ≡ err e)
retry_request-Fails send h =
    let (x, e) = h 0 in
    let (y, f) = h 1 in let (z, g) = h 2 in (z, retry_request_lem send ∙ rw (e, f, g) refl)

check_stellar_expert-Fails :
    (w : World)
    → Fails w.expert_answer
    → check_stellar_expert w ≡ source (text "Stellar Expert") false 0 no_details
unfolding check_stellar_expert
check_stellar_expert-Fails w h =
    let (e, failed) = retry_request-Fails w.expert_answer h in rw failed refl

check_stellar_toml-Fails :
    (w : World)
    → Fails w.account_answer
    → check_stellar_toml w ≡ source (text "Stellar TOML") false 0 no_details
unfolding check_stellar_toml
check_stellar_toml-Fails w h =
    let (e, failed) = retry_request-Fails w.account_answer h in rw failed refl

check_trustlines-Fails :
    (w : World)
    → Fails w.assets_answer
    → check_trustlines w ≡ source (text "Trustline Analysis") false 0 (counted (some (pos 0)))
unfolding check_trustlines
check_trustlines-Fails w h =
    let (e, failed) = retry_request-Fails w.assets_answer h in rw failed refl

check_transaction_history-Fails :
    (w : World)
    → Fails w.transactions_answer
    → check_transaction_history w ≡ source (text "Transaction History") false 0 no_details
unfolding check_transaction_history
check_transaction_history-Fails w h =
    let (e, failed) = retry_request-Fails w.transactions_answer h in rw failed refl

-- The result of four checks that failed.
abbrev failed_result : Text → Text → VerificationResult
failed_result code issuer =
    assess code issuer (source (text "Stellar Expert") false 0 no_details)
      (source (text "Stellar TOML") false 0 no_details)
      (source (text "Trustline Analysis") false 0 (counted (some (pos 0))))
      (source (text "Transaction History") false 0 no_details)

fresh_result :
    (w : World) (code issuer : Text) (cache : Cache)
    → check_stellar_expert w ≡ source (text "Stellar Expert") false 0 no_details
    → check_stellar_toml w ≡ source (text "Stellar TOML") false 0 no_details
    → check_trustlines w ≡ source (text "Trustline Analysis") false 0 (counted (some (pos 0)))
    → check_transaction_history w ≡ source (text "Transaction History") false 0 no_details
    → (verify_fresh w code issuer cache).0 ≡ failed_result code issuer
unfolding verify_fresh
fresh_result w code issuer cache e f g h = rw (e, f, g, h) refl

-- When no request is answered, a new result has no score and is suspicious, and it is kept for five minutes
-- only.
pub verify_fresh_offline :
    (w : World) (code issuer : Text) (cache : Cache)
    → Fails w.expert_answer
    → Fails w.account_answer
    → Fails w.assets_answer
    → Fails w.transactions_answer
    → ((verify_fresh w code issuer cache).0.status ≡ suspicious)
      × ((verify_fresh w code issuer cache).0.reputation_score ≡ 0)
      × ((verify_fresh w code issuer cache).0.has_toml ≡ false)
      × (lookup (cache_key code issuer) (verify_fresh w code issuer cache).1
          ≡ some (record {
            result = (verify_fresh w code issuer cache).0;
            expires_at = w.ended_at + negative_cache_ttl_ms;
          }))
unfolding assess source status_of ttl_of
verify_fresh_offline w code issuer cache expert account assets transactions =
    let e = check_stellar_expert-Fails w expert in
    let f = check_stellar_toml-Fails w account in
    let g = check_trustlines-Fails w assets in
    let h = check_transaction_history-Fails w transactions in
    let result = fresh_result w code issuer cache e f g h in
    let suspected = ap (λ (r : VerificationResult). r.status) result in
    (
      suspected,
      ap (λ (r : VerificationResult). r.reputation_score) result,
      ap (λ (r : VerificationResult). r.has_toml) result,
      after_insert w code issuer cache ∙ rw suspected refl,
    )
