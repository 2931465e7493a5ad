-- ===== src/Backend/AnchorWebhooks/Disputes.antt =====
-- `handleDisputeRaised` and `handleDisputeResolved` (`backend/src/webhook-handler.ts`). The statuses `failed`
-- and `disputed` are not of the union `TransactionStatus`, so the column is a text here, as it is in the
-- table. Whether the audit log takes a row is a parameter: an error of it is caught.
use swift_remit.Prelude.{
  ℕ, ◌+◌, ◌*◌, ◌≡◌, ◌≤◌, refl, sym, ap, ◌∙◌, ◌⊎◌, ◌↔◌, inl, inr, Bool, true, false, not, ◌&&◌, ◌||◌,
  Option, none, some, List, [], ◌∷◌, ◌++◌, leb, arith, if◌then◌else◌, Bool-cases, Option-cases,
}
use swift_remit.Prelude.Dict.{
  Text, text_eq, text_beq_iff, ◌==◌, contains, Dict, lookup, insert, lookup-insert,
}
use swift_remit.Prelude.Strings.{text}
use swift_remit.Prelude.Result.{Result, ok, err, ⊤, Action}
use swift_remit.Backend.AnchorWebhooks.{RouteError, webhook_auth_error, other_error, truthy}
pub mod Moves

-- The columns of `transactions` that these handlers use.
pub record StatusRow : Type 0 where
  pub status : Option Text
  pub updated_at : ℕ

-- A row of `dispute_audit_log`.
pub data AuditRow : Type 0 where
  raised : Text → Option Text → Option Text → AuditRow
  resolved : Text → Text → Option Bool → Option Text → AuditRow

pub record DisputeDb : Type 0 where
  pub transactions : Dict Text StatusRow
  pub audit : List AuditRow

-- The body of `dispute_raised`. A time is missing where it is NaN.
pub record RaisedPayload : Type 0 where
  pub transaction_id : Option Text
  pub remittance_id : Option Text
  pub failed_at : Option (Option ℕ)
  pub sender : Option Text
  pub evidence_hash : Option Text

-- The body of `dispute_resolved`.
pub record ResolvedPayload : Type 0 where
  pub admin_id : Option Text
  pub transaction_id : Option Text
  pub remittance_id : Option Text
  pub resolution : Option Text
  pub admin : Option Text
  pub in_favour_of_sender : Option Bool
  pub resulting_status : Option Text

abbrev pub disputed : Text
disputed = text "disputed"

-- `transaction_id || remittance_id`
unfoldable pub dispute_id : Option Text → Option Text → Option Text
unfolding truthy
dispute_id transaction remittance = elim (truthy transaction) [
  | none ↦ truthy remittance
  | some t ↦ some t
]

-- `result.rows[0]?.status`, where a missing or empty one counts as no transaction.
unfoldable pub current_status : Text → DisputeDb → Option Text
unfolding truthy
current_status i db = elim (lookup i db.transactions) [ none ↦ none | some r ↦ truthy r.status ]

-- `Date.now() - failedAt.getTime() > windowMs` does not hold.
unfoldable pub in_dispute_window : ℕ → Option (Option ℕ) → Bool
in_dispute_window now none = true
in_dispute_window now (some none) = true
in_dispute_window now (some (some t)) = leb now (t + 7 * 24 * 3600 * 1000)

-- The UPDATE of the status.
unfoldable pub set_dispute_status : Text → Text → ℕ → DisputeDb → DisputeDb
set_dispute_status i status now db = elim (lookup i db.transactions) [
  | none ↦ db
  | some r ↦ record db {
    transactions = insert i (record { status = some status; updated_at = now }) db.transactions;
  }
]

-- `resolution === 'sender' ? 'refunded' : 'completed'`
unfoldable pub resolution_status : Option Text → Text
resolution_status none = text "completed"
resolution_status (some r) = if r == text "sender" then text "refunded" else text "completed"

-- `admin || admin_id`
unfoldable pub admin_or : Text → Option Text → Text
unfolding truthy
admin_or admin_id admin = elim (truthy admin) [ none ↦ admin_id | some a ↦ a ]

module _ (takes : AuditRow → Bool) where
  unfoldable pub log_dispute : AuditRow → DisputeDb → DisputeDb
  log_dispute row db = if takes row then record db { audit = db.audit ++ row ∷ [] } else db

  -- `handleDisputeRaised`
  unfoldable pub handle_dispute_raised : RaisedPayload → ℕ → Action DisputeDb RouteError ⊤
  unfolding dispute_id current_status in_dispute_window set_dispute_status log_dispute
  handle_dispute_raised p now db = elim (dispute_id p.transaction_id p.remittance_id) [
    | none ↦ (err (other_error (text "Missing transaction_id in dispute_raised payload")), db)
    | some i ↦ elim (current_status i db) [
      | none ↦ (err (other_error (text "Transaction not found")), db)
      | some status ↦
          if not (contains status (text "failed" ∷ text "error" ∷ []))
          then (err (other_error (text "Cannot raise dispute on transaction in state")), db)
          else if not (in_dispute_window now p.failed_at)
          then (err (other_error (text "Dispute window has expired (>7 days since failure)")), db)
          else (
            ok tt,
            log_dispute (raised i p.sender p.evidence_hash) (set_dispute_status i disputed now db),
          )
    ]
  ]

  -- `handleDisputeResolved`
  unfoldable pub handle_dispute_resolved : ResolvedPayload → ℕ → Action DisputeDb RouteError ⊤
  unfolding truthy dispute_id current_status set_dispute_status log_dispute resolution_status
      admin_or
  handle_dispute_resolved p now db = elim (truthy p.admin_id) [
    | none ↦ (err (webhook_auth_error (text "Admin ID required for dispute resolution")), db)
    | some admin_id ↦ elim (dispute_id p.transaction_id p.remittance_id) [
      | none ↦ (err (other_error (text "Missing transaction_id in dispute_resolved payload")), db)
      | some i ↦ elim (current_status i db) [
        | none ↦ (err (other_error (text "Transaction not found")), db)
        | some status ↦
            if not (status == disputed)
            then (err (other_error (text "Cannot resolve dispute on transaction in state")), db)
            else (
              ok tt,
              log_dispute
                  (resolved i (admin_or admin_id p.admin) p.in_favour_of_sender p.resulting_status)
                  (set_dispute_status i (resolution_status p.resolution) now db),
            )
      ]
    ]
  ]
