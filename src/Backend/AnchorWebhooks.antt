-- ===== src/Backend/AnchorWebhooks.antt =====
-- `WebhookHandler.handleWebhook` (`backend/src/webhook-handler.ts`) with `WebhookVerifier`
-- (`backend/src/webhook-verifier.ts`), `WebhookLogger` (`backend/src/webhook-logger.ts`) and
-- `recordWebhookNonce` (`backend/src/database.ts`). The cryptography, the reading of dates, and which
-- statements the database refuses are parameters, in `World`; a statement that is refused has written
-- nothing, and the request is answered with an internal error. The statement that reads an
-- anchor does not select `home_domain`, so the check of its stellar.toml is never made. The handlers of
-- the events work on a store `S`, and are the parameter `route`.
use swift_remit.Prelude.{
  ℕ, suc, ◌+◌, ◌-◌, ◌*◌, Bool, true, false, not, ◌&&◌, ◌||◌, Option, none, some, List, [], ◌∷◌,
  ◌++◌, filter, length, leb, ltb, if◌then◌else◌, ◌==◌ as same_number,
}
use swift_remit.Prelude.Dict.{Text, text_eq, ◌==◌, contains, add, Dict, lookup, has, insert}
use swift_remit.Prelude.Strings.{text}
use swift_remit.Prelude.Result.{Result, ok, err, ⊤, Action}
unfoldable pub use swift_remit.Backend.AnchorWebhooks.Requests.*
use swift_remit.Backend.Kyc.{pair_eq}
pub mod Requests
pub mod Authentic
pub mod Nonces
pub mod Replays
pub mod Routes
pub mod Disputes
mod Tests

-- The anchors, `webhook_processed_nonces`, the nonces in memory, the two logs, and the rest.
pub record Handler (S : Type 0) : Type 0 where
  pub anchors : Dict Text Anchor
  pub nonces : Dict (Text × Text) ℕ
  pub processed_nonces : List Text
  pub logs : List LogRow
  pub suspicious : List SuspiciousActivity
  pub store : S

-- The seconds that a nonce is kept, in milliseconds.
abbrev pub nonce_ttl : ℕ
nonce_ttl = 86400 * 1000

-- `purgeExpiredWebhookNonces`
unfoldable pub purge_expired_nonces : ℕ → Dict (Text × Text) ℕ → Dict (Text × Text) ℕ
purge_expired_nonces now nonces = filter (λ n. leb now n.1) nonces

unfoldable pub count_logs : (LogRow → Bool) → List LogRow → ℕ
count_logs p rows = length (filter p rows)

-- `checkSuspiciousPatterns`
unfoldable pub check_suspicious_patterns : ℕ → Text → Text → List LogRow → List Text
unfolding count_logs
check_suspicious_patterns now anchor transaction rows =
    (if ltb 3 (
        count_logs
          (λ (r : LogRow).
            r.anchor_id == anchor
            && r.transaction_id == transaction
            && ltb now (r.received_at + 5 * 60 * 1000))
          rows)
      then text "Multiple webhooks for same transaction" ∷ []
      else [])
    ++ (if ltb 10 (
          count_logs
            (λ (r : LogRow).
              r.anchor_id == anchor && not r.verified && ltb now (r.received_at + 60 * 60 * 1000))
            rows)
        then text "High rate of failed verifications" ∷ []
        else [])

-- `reasons.join(', ')`
unfoldable pub joined : List Text → Text
joined [] = []
joined (r ∷ []) = r
joined (r ∷ s ∷ rs) = r ++ text ", " ++ joined (s ∷ rs)

unfoldable pub or_unknown : Option Text → Text
unfolding truthy
or_unknown t = elim (truthy t) [ none ↦ text "unknown" | some s ↦ s ]

-- `transaction_id || remittance_id || 'unknown'`
unfoldable pub correlation_of : {V : Type 0} → Request V → Text
unfolding truthy or_unknown
correlation_of q = elim (truthy q.transaction_id) [ none ↦ or_unknown q.remittance_id | some t ↦ t ]

-- All four headers.
unfoldable pub headers_of : {V : Type 0} → Request V → Option Headers
unfolding truthy
headers_of q = elim (truthy q.signature) [
  | none ↦ none
  | some signature ↦ elim (truthy q.timestamp) [
    | none ↦ none
    | some timestamp ↦ elim (truthy q.nonce) [
      | none ↦ none
      | some nonce ↦ elim (truthy q.anchor_id) [
        | none ↦ none
        | some anchor_id ↦ some (record {
          signature = signature;
          timestamp = timestamp;
          nonce = nonce;
          anchor_id = anchor_id;
        })
      ]
    ]
  ]
]

unfoldable pub response_of : RouteError → Response
response_of (webhook_auth_error why) = forbidden why
response_of (other_error why) = internal_error

module _ {S : Type 0} where
  -- `logSuspicious`: whether the row was taken, and the log.
  unfoldable pub log_suspicious : World → Text → Text → Option Text → Handler S → Bool × Handler S
  unfolding or_unknown
  log_suspicious w anchor reason webhook s =
      let row : SuspiciousActivity = record {
        webhook_id = or_unknown webhook;
        anchor_id = anchor;
        reason = reason;
        timestamp = w.now;
      } in
      if w.refuses_suspicious row
      then (false, s)
      else (true, record s { suspicious = s.suspicious ++ row ∷ [] })

  -- A refusal is logged first; when the log refuses the row, the answer is an internal error.
  unfoldable pub refuse : World → Text → Text → Response → Handler S → Response × Handler S
  unfolding log_suspicious
  refuse w anchor reason response s =
      let (taken, t) = log_suspicious w anchor reason none s in
      (if taken then response else internal_error, t)

module _ {S V : Type 0} where
  -- From the `switch` on.
  unfoldable pub run_route :
      (V → Text → ℕ → Action S RouteError ⊤)
      → World
      → Request V
      → Text
      → Handler S
      → Response × Handler S
  unfolding response_of
  run_route route w q anchor s = elim q.event [
    | none ↦ (unknown_event, s)
    | some v ↦
        let (r, store) = route v anchor w.now s.store in
        (elim r [ ok done ↦ processed | err e ↦ response_of e ], record s { store = store })
  ]

  -- Suspicious reasons are logged, and the event is handled all the same.
  unfoldable pub note_reasons :
      (V → Text → ℕ → Action S RouteError ⊤)
      → World
      → Request V
      → Text
      → List Text
      → Handler S
      → Response × Handler S
  unfolding joined log_suspicious run_route
  note_reasons route w q anchor [] s = run_route route w q anchor s
  note_reasons route w q anchor (r ∷ rs) s =
      let (taken, t) = log_suspicious w anchor (joined (r ∷ rs)) (some w.webhook_id) s in
      elim taken [ true ↦ run_route route w q anchor t | false ↦ (internal_error, t) ]

  -- From `logWebhook` on.
  unfoldable pub process :
      (V → Text → ℕ → Action S RouteError ⊤)
      → World
      → Request V
      → Text
      → Handler S
      → Response × Handler S
  unfolding correlation_of check_suspicious_patterns note_reasons
  process route w q anchor s =
      let row : LogRow = record {
        anchor_id = anchor;
        transaction_id = correlation_of q;
        verified = true;
        received_at = w.now;
      } in
      let logged = record s { logs = s.logs ++ row ∷ [] } in
      if w.refuses_query log_webhook
      then (internal_error, s)
      else if w.refuses_query read_patterns
      then (internal_error, logged)
      else note_reasons route w q anchor
          (check_suspicious_patterns w.now anchor (correlation_of q) (s.logs ++ row ∷ [])) logged

  -- From the guard in memory on.
  unfoldable pub check_signature :
      (V → Text → ℕ → Action S RouteError ⊤)
      → World
      → Request V
      → Headers
      → Anchor
      → Handler S
      → Response × Handler S
  unfolding refuse signature_valid process
  check_signature route w q h a s =
      if contains h.nonce s.processed_nonces
      then refuse w h.anchor_id (text "Duplicate nonce (replay attack)") invalid_nonce s
      else let noted = record s { processed_nonces = add h.nonce s.processed_nonces } in
        if signature_valid w q.raw_body h.signature a
        then process route w q h.anchor_id noted
        else refuse w h.anchor_id (text "Invalid signature") invalid_signature noted

  -- `handleWebhook`
  unfoldable pub handle_webhook :
      (V → Text → ℕ → Action S RouteError ⊤) → World → Request V → Handler S → Response × Handler S
  unfolding headers_of validate_timestamp refuse check_signature
  handle_webhook route w q s = elim (headers_of q) [
    | none ↦ (missing_headers, s)
    | some h ↦
        if w.refuses_query select_anchor
        then (internal_error, s)
        else elim (lookup h.anchor_id s.anchors) [
          | none ↦ (anchor_not_found, s)
          | some a ↦
              if not (validate_timestamp w h.timestamp)
              then refuse w h.anchor_id (text "Invalid timestamp") invalid_timestamp s
              else if w.refuses_query record_nonce
              then (internal_error, s)
              else if has (h.nonce, h.anchor_id) s.nonces
              then (duplicate, s)
              else check_signature route w q h a
                  (record s { nonces = insert (h.nonce, h.anchor_id) (w.now + nonce_ttl) s.nonces })
        ]
  ]
