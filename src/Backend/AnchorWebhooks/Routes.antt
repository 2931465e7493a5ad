-- ===== src/Backend/AnchorWebhooks/Routes.antt =====
-- The handlers of deposits, withdrawals and KYC updates (`backend/src/webhook-handler.ts`), which work on the
-- tables of the transaction state manager and of the KYC records. The other events are a parameter.
-- An update is one whose status is of the union `TransactionStatus`.
use swift_remit.Prelude.{
  ℕ, ◌≡◌, refl, ◌↔◌, inl, inr, not, Option, none, some, if◌then◌else◌, Bool-cases, Option-cases,
}
use swift_remit.Prelude.Dict.{Text, text_eq, lookup}
use swift_remit.Prelude.Strings.{text}
use swift_remit.Prelude.Result.{Result, ok, err, ⊤, Action, Result-cases}
use swift_remit.Backend.Kyc.{KycStatus, KycLevel, KycRecord, KycDb, upsert}
use swift_remit.Backend.Transactions
use swift_remit.Backend.Transactions.{
  TransactionUpdate, TransactionKind, TransactionKind-discrete, same_kind, deposit, withdrawal,
  KycState, KycUpdate, Row, Tables, Statement, select_current, select_row, validate_transition,
  update_transaction_state, update_kyc_status,
}
use swift_remit.Backend.Transactions.Updates.{select_row-lookup, update_cases}
use swift_remit.Backend.AnchorWebhooks.{RouteError, other_error, truthy}

-- The two stores that the handlers write.
pub record Stores : Type 0 where
  pub tables : Tables
  pub kyc : KycDb

-- The body of a KYC update.
pub record KycPayload : Type 0 where
  pub transaction_id : Text
  pub kyc_status : KycState
  pub kyc_fields : Option Text
  pub rejection_reason : Option Text
  pub user_id : Option Text
  pub anchor_id : Option Text
  pub kyc_level : Option KycLevel
  pub verified_at : Option ℕ
  pub expires_at : Option ℕ

-- `event_type` with its body.
pub data Event (O : Type 0) : Type 0 where
  deposit_update withdrawal_update : TransactionUpdate → Event O
  kyc_update : KycPayload → Event O
  other_event : O → Event O

-- The status that the KYC store takes.
unfoldable pub stored_status : KycState → KycStatus
stored_status Transactions.pending = KycStatus.pending
stored_status Transactions.approved = KycStatus.approved
stored_status Transactions.rejected = KycStatus.rejected

module _ (refuses : Statement → Option Text) where
  -- What follows the SELECT of the current status.
  unfoldable pub apply_update :
      TransactionUpdate → TransactionKind → ℕ → Tables → Result RouteError ⊤ × Tables
  unfolding update_transaction_state
  apply_update u kind now t =
      let (r, after) = update_transaction_state refuses u kind now t in
      (elim r [ ok done ↦ ok tt | err e ↦ err (other_error (text "Update failed")) ], after)

  -- `handleDepositUpdate` and `handleWithdrawalUpdate`, which differ in the kind.
  unfoldable pub handle_update :
      TransactionUpdate → TransactionKind → ℕ → Tables → Result RouteError ⊤ × Tables
  unfolding apply_update validate_transition
  handle_update u kind now t = elim (refuses select_current) [
    | some why ↦ (err (other_error (text "Select failed")), t)
    | none ↦ elim (lookup u.transaction_id t.transactions) [
      | none ↦ (err (other_error (text "Transaction not found")), t)
      | some r ↦
          if not (validate_transition r.status u.status kind)
          then (err (other_error (text "Invalid state transition")), t)
          else apply_update u kind now t
    ]
  ]

  unfoldable pub kyc_update_of : KycPayload → KycUpdate
  kyc_update_of p = record {
    transaction_id = p.transaction_id;
    kyc_status = p.kyc_status;
    kyc_fields = p.kyc_fields;
    rejection_reason = p.rejection_reason;
  }

  -- `payload.anchor_id || anchorId`, where the header is not empty.
  unfoldable pub anchor_or : Text → Option Text → Text
  unfolding truthy
  anchor_or anchor given = elim (truthy given) [ none ↦ anchor | some a ↦ a ]

  unfoldable pub kyc_record_of : KycPayload → Text → Text → ℕ → KycRecord
  unfolding stored_status anchor_or
  kyc_record_of p user anchor now = record {
    user_id = user;
    anchor_id = anchor_or anchor p.anchor_id;
    kyc_status = stored_status p.kyc_status;
    kyc_level = p.kyc_level;
    rejection_reason = p.rejection_reason;
    verified_at = elim p.verified_at [ none ↦ now | some t ↦ t ];
    expires_at = p.expires_at;
  }

  -- `handleKYCUpdate`; the last argument is an error of the database on the upsert.
  unfoldable pub handle_kyc_update :
      Option Text → KycPayload → Text → ℕ → Stores → Result RouteError ⊤ × Stores
  unfolding truthy kyc_update_of kyc_record_of update_kyc_status upsert
  handle_kyc_update refuses_kyc p anchor now s =
      let (r, tables) = update_kyc_status refuses (kyc_update_of p) now s.tables in
      let t : Stores = record s { tables = tables } in
      elim r [
        | err e ↦ (err (other_error (text "KYC update failed")), t)
        | ok done ↦ elim (truthy p.user_id) [
          | none ↦ (ok tt, t)
          | some user ↦
              let (k, kyc) = upsert refuses_kyc (kyc_record_of p user anchor now) now t.kyc in
              (
                elim k [ ok fine ↦ ok tt | err e ↦ err (other_error (text "KYC upsert failed")) ],
                record t { kyc = kyc },
              )
        ]
      ]

  unfoldable pub on_tables :
      (Tables → Result RouteError ⊤ × Tables) → Stores → Result RouteError ⊤ × Stores
  on_tables f s = let (r, t) = f s.tables in (r, record s { tables = t })

  -- The `switch` on the type of the event.
  unfoldable pub route :
      {O : Type 0}
      → Option Text
      → (O → Text → ℕ → Action Stores RouteError ⊤)
      → Event O
      → Text
      → ℕ
      → Action Stores RouteError ⊤
  unfolding handle_update handle_kyc_update on_tables
  route refuses_kyc others (deposit_update u) anchor now = on_tables (handle_update u deposit now)
  route refuses_kyc others (withdrawal_update u) anchor now =
      on_tables (handle_update u withdrawal now)
  route refuses_kyc others (kyc_update p) anchor now = handle_kyc_update refuses_kyc p anchor now
  route refuses_kyc others (other_event o) anchor now = others o anchor now

apply_update_lem :
    (refuses : Statement → Option Text) (u : TransactionUpdate) (kind : TransactionKind) (now : ℕ)
    (t : Tables)
    → ((apply_update refuses u kind now t).1 ≡ (update_transaction_state refuses u kind now t).1)
      × (((apply_update refuses u kind now t).0 ≡ ok tt)
          ↔ ((update_transaction_state refuses u kind now t).0 ≡ ok tt))
unfolding apply_update
apply_update_lem refuses u kind now t =
    elim (Result-cases (update_transaction_state refuses u kind now t).0) [
      | inl (done, e) ↦ (refl, rw e ((λ h. refl), (λ h. refl)))
      | inr (why, e) ↦ (refl, rw e ((λ h. absurd (cc h)), (λ h. absurd (cc h))))
    ]

-- The handlers of deposits and withdrawals read the row and check the transition before the manager does.
-- When the database refuses that first SELECT, they fail and leave the tables as they are. Otherwise, for
-- every update and every fault of the database, what they leave in the tables is what the manager
-- alone would leave, and they succeed exactly when it does.
pub handle_update_lem :
    (refuses : Statement → Option Text) (u : TransactionUpdate) (kind : TransactionKind) (now : ℕ)
    (t : Tables)
    → ((why : Text)
        → refuses select_current ≡ some why
        → ((e : RouteError) × ((handle_update refuses u kind now t).0 ≡ err e))
          × ((handle_update refuses u kind now t).1 ≡ t))
      × (refuses select_current ≡ none
          → ((handle_update refuses u kind now t).1
              ≡ (update_transaction_state refuses u kind now t).1)
            × (((handle_update refuses u kind now t).0 ≡ ok tt)
                ↔ ((update_transaction_state refuses u kind now t).0 ≡ ok tt)))
unfolding handle_update
handle_update_lem refuses u kind now t = (
  (λ why lost. (
    (other_error (text "Select failed"), rw (handle_update, lost) refl),
    rw (handle_update, lost) refl,
  )),
  (λ read. elim (update_cases refuses u kind now t) [
    | inr (r, found, valid, after, ended) ↦
        rw (handle_update, read, select_row-lookup u.transaction_id kind t r found, valid)
          (apply_update_lem refuses u kind now t)
    | inl ((e, thrown), same) ↦ elim (Option-cases (lookup u.transaction_id t.transactions)) [
      | inl absent ↦
          rw (handle_update, read, absent, thrown, same)
            (refl, ((λ h. absurd (cc h)), (λ h. absurd (cc h))))
      | inr (r, found) ↦ elim (Bool-cases (validate_transition r.status u.status kind)) [
        | inl valid ↦ rw (handle_update, read, found, valid) (apply_update_lem refuses u kind now t)
        | inr invalid ↦
            rw (handle_update, read, found, invalid, thrown, same)
              (refl, ((λ h. absurd (cc h)), (λ h. absurd (cc h))))
      ]
    ]
  ]),
)
