-- ===== src/Backend/Transactions/Accepted.antt =====
-- Which updates `updateTransactionState` (`backend/src/transaction-state.ts`) accepts, and the row after one.
use swift_remit.Prelude.{
  ℕ, ◌≡◌, refl, sym, ◌∙◌, ◌↔◌, inl, inr, true, false, Option, none, some, [], ◌∷◌, ◌++◌,
}
use swift_remit.Prelude.Dict.{
  Text, text_eq, ◌==◌, lookup, insert, lookup-insert, lookup-insert_self,
}
use swift_remit.Prelude.Result.{ok}
use swift_remit.Backend.Transactions.{
  TransactionKind, TransactionUpdate, Row, Tables, Statement, begin, select_status, update_row,
  log_transition, commit, commit_answer, connect, select_row, in_transaction, check_transition,
  attempt_update, session_of, begin_work, commit_work, writes, visible, updated_row,
  validate_transition, update_transaction_state, coalesce,
}
use swift_remit.Backend.Transactions.Updates.{moved, same_row, update_cases}

-- A column that an update may lack: a value that is given is taken, else the old one stays.
pub record Keeps {A : Type 0} (given old new : Option A) : Type 0 where
  pub taken : (a : A) → given ≡ some a → new ≡ some a
  pub kept : given ≡ none → new ≡ old

-- The row after an accepted update, column by column.
pub record Takes (u : TransactionUpdate) (now : ℕ) (old new : Row) : Type 0 where
  pub kind : new.kind ≡ old.kind
  pub status : new.status ≡ u.status
  pub status_eta : new.status_eta ≡ u.status_eta
  pub amount_in : Keeps u.amount_in old.amount_in new.amount_in
  pub amount_out : Keeps u.amount_out old.amount_out new.amount_out
  pub amount_fee : Keeps u.amount_fee old.amount_fee new.amount_fee
  pub stellar : Keeps u.stellar_transaction_id old.stellar_transaction_id new.stellar_transaction_id
  pub external :
      Keeps u.external_transaction_id old.external_transaction_id new.external_transaction_id
  pub message : Keeps u.message old.message new.message
  pub kyc_status : new.kyc_status ≡ old.kyc_status
  pub kyc_fields : new.kyc_fields ≡ old.kyc_fields
  pub kyc_rejection_reason : new.kyc_rejection_reason ≡ old.kyc_rejection_reason
  pub updated_at : new.updated_at ≡ now

coalesce-Keeps : {A : Type 0} (given old : Option A) → Keeps given old (coalesce given old)
coalesce-Keeps none old = record { taken = λ a h. absurd (cc h); kept = λ h. refl }
coalesce-Keeps (some b) old = record { taken = λ a h. h; kept = λ h. absurd (cc h) }

updated_row-Takes :
    (u : TransactionUpdate) (now : ℕ) (r : Row) → Takes u now r (updated_row u now r)
unfolding updated_row
updated_row-Takes u now r = record {
  kind = refl;
  status = refl;
  status_eta = refl;
  amount_in = coalesce-Keeps u.amount_in r.amount_in;
  amount_out = coalesce-Keeps u.amount_out r.amount_out;
  amount_fee = coalesce-Keeps u.amount_fee r.amount_fee;
  stellar = coalesce-Keeps u.stellar_transaction_id r.stellar_transaction_id;
  external = coalesce-Keeps u.external_transaction_id r.external_transaction_id;
  message = coalesce-Keeps u.message r.message;
  kyc_status = refl;
  kyc_fields = refl;
  kyc_rejection_reason = refl;
  updated_at = refl;
}

-- The tables after an accepted update of the row `r`.
pub record IsMoved (u : TransactionUpdate) (now : ℕ) (r : Row) (db after : Tables) : Type 0 where
  pub new : Row
  pub there : lookup u.transaction_id after.transactions ≡ some new
  pub takes : Takes u now r new
  pub others :
      (i : Text)
      → (u.transaction_id == i) ≡ false
      → lookup i after.transactions ≡ lookup i db.transactions
  pub logged :
      after.history
      ≡ db.history
        ++ record {
          transaction_id = u.transaction_id;
          from_status = u.status;
          to_status = u.status;
          changed_at = now;
        }
          ∷ []

moved-IsMoved :
    (u : TransactionUpdate) (now : ℕ) (r : Row) (db : Tables)
    → IsMoved u now r db (moved u now r db)
moved-IsMoved u now r db = record {
  new = updated_row u now r;
  there = lookup-insert_self u.transaction_id (updated_row u now r) db.transactions;
  takes = updated_row-Takes u now r;
  others = λ i other. rw (lookup-insert, other) refl;
  logged = refl;
}

not_lost :
    (refuses : Statement → Option Text) (w : Text)
    → ((s : Statement) → refuses s ≡ none)
    → refuses commit_answer ≡ some w
    → ⊥
not_lost refuses w up lost = cc (up commit_answer, lost)

accepted :
    (refuses : Statement → Option Text) (u : TransactionUpdate) (kind : TransactionKind) (now : ℕ)
    → ((s : Statement) → refuses s ≡ none)
    → (db : Tables) (r : Row) → select_row u.transaction_id kind db ≡ some r
    → validate_transition r.status u.status kind ≡ true
    → (update_transaction_state refuses u kind now db).0 ≡ ok tt
unfolding update_transaction_state session_of in_transaction attempt_update check_transition
    begin_work commit_work writes visible lookup insert
accepted refuses u kind now up db r found valid =
    rw
      (
        up connect,
        up begin,
        up select_status,
        found,
        valid,
        up update_row,
        up log_transition,
        up commit,
        up commit_answer,
      )
      refl

-- Without an error of the database, an update is accepted exactly for a row of that kind whose status may
-- move so. Then the row takes the status and the time estimate of the update, also when the update has no
-- estimate; its amounts, identifiers and message are those of the update, or the old ones where the update
-- lacks them; its columns of KYC stay, and so do all other rows; and a row with the new status in both
-- places is added to the history.
pub update_accepts :
    (refuses : Statement → Option Text) (u : TransactionUpdate) (kind : TransactionKind) (now : ℕ)
    → (up : (s : Statement) → refuses s ≡ none) → (db : Tables)
    → (((update_transaction_state refuses u kind now db).0 ≡ ok tt) ↔ (
        (r : Row) × (select_row u.transaction_id kind db ≡ some r)
        × (validate_transition r.status u.status kind ≡ true)))
      × ((r : Row)
          → select_row u.transaction_id kind db ≡ some r
          → validate_transition r.status u.status kind ≡ true
          → IsMoved u now r db (update_transaction_state refuses u kind now db).1)
update_accepts refuses u kind now up db = (
  (
    (λ h. elim (update_cases refuses u kind now db) [
      | inl ((e, thrown), same) ↦ absurd (cc (h, thrown))
      | inr (r, found, valid, after, ended) ↦ (r, found, valid)
    ]),
    (λ (r, found, valid). accepted refuses u kind now up db r found valid),
  ),
  (λ r found valid. elim (update_cases refuses u kind now db) [
    | inl ((e, thrown), same) ↦
        absurd (cc (accepted refuses u kind now up db r found valid, thrown))
    | inr (x, found_x, valid_x, after, ended) ↦
        rw (after, same_row x r (sym found_x ∙ found)) (moved-IsMoved u now r db)
  ]),
)
