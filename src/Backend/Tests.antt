-- ===== src/Backend/Tests.antt =====
-- The theorems on `backend/src` at concrete inputs, and runs of its operations.
use swift_remit.Prelude.{◌≤◌, ◌≡◌, refl, ◌↔◌, true, Option, none, some, List, [], ◌∷◌, All}
use swift_remit.Prelude.Dict.{Text, text_eq, lookup, insert}
use swift_remit.Prelude.Strings.{text}
use swift_remit.Prelude.Result.{ok, err}
use swift_remit.Backend.Transactions
use swift_remit.Backend.Transactions.{
  TransactionUpdate, KycUpdate, approved, Row, Tables, Statement, UpdateError, HistoryRow, Session,
  deposit, pending_user_transfer_start, pending_anchor, pending_user, completed,
  update_transaction_state, session_of, select_row, validate_transition, refused, log_transition,
  commit_answer, rollback, with_kyc,
}
use swift_remit.Backend.Transactions.Diagram.{rank}
use swift_remit.Backend.Transactions.Updates.{moved, update_atomic}
use swift_remit.Backend.Transactions.Accepted.{IsMoved, update_accepts}
use swift_remit.Backend.Transactions.Logs.{
  UpdateCall, state_call, kyc_call, run_updates, logged, run_updates_bounded, run_updates_from,
}
use swift_remit.Backend.Transactions.Final.{Kept, run_updates_final}

abbrev no_fault : Statement → Option Text
no_fault s = none

-- The database refuses the statement that writes the history.
abbrev log_fault : Statement → Option Text
log_fault log_transition = some (text "disk full")
log_fault _ = none

abbrev row : Transactions.TransactionStatus → Row
row s = record {
  kind = deposit;
  status = s;
  status_eta = none;
  amount_in = some (text "10");
  amount_out = none;
  amount_fee = none;
  stellar_transaction_id = none;
  external_transaction_id = none;
  kyc_status = none;
  kyc_fields = none;
  kyc_rejection_reason = none;
  message = none;
  updated_at = 0;
}

abbrev tables : Tables
tables = record {
  transactions = (text "a", row pending_user_transfer_start) ∷ (text "b", row completed) ∷ [];
  history = [];
}

abbrev to : Text → Transactions.TransactionStatus → TransactionUpdate
to i s = record {
  transaction_id = i;
  status = s;
  status_eta = none;
  amount_in = none;
  amount_out = some (text "9");
  amount_fee = none;
  stellar_transaction_id = none;
  external_transaction_id = none;
  message = none;
}

abbrev kyc : Text → KycUpdate
kyc i = record {
  transaction_id = i;
  kyc_status = approved;
  kyc_fields = none;
  rejection_reason = none;
}

abbrev calls : List UpdateCall
calls =
    state_call (to (text "a") pending_anchor) deposit 1 no_fault
    ∷ state_call (to (text "a") pending_user) deposit 2 no_fault
    ∷ state_call (to (text "b") pending_user) deposit 3 no_fault
    ∷ kyc_call (kyc (text "b")) 4 no_fault
    ∷ []

update_accepts_example :
    (((update_transaction_state no_fault (to (text "a") pending_anchor) deposit 1 tables).0 ≡ ok tt)
      ↔ ((r : Row) × (select_row (text "a") deposit tables ≡ some r)
          × (validate_transition r.status pending_anchor deposit ≡ true)))
    × ((r : Row)
        → select_row (text "a") deposit tables ≡ some r
        → validate_transition r.status pending_anchor deposit ≡ true
        → IsMoved
            (to (text "a") pending_anchor)
            1
            r
            tables
            (update_transaction_state no_fault (to (text "a") pending_anchor) deposit 1 tables).1)
update_accepts_example =
    update_accepts no_fault (to (text "a") pending_anchor) deposit 1 (λ s. refl) tables

log_refused :
    (update_transaction_state log_fault (to (text "a") pending_anchor) deposit 1 tables).0
    ≡ err (refused (text "disk full"))
unfolding update_transaction_state lookup Transactions.TransactionKind-discrete
    Transactions.TransactionStatus-discrete
log_refused = refl

update_atomic_example :
    ((e : UpdateError)
      → log_fault commit_answer ≡ none
      → (update_transaction_state log_fault (to (text "a") pending_anchor) deposit 1 tables).0
        ≡ err e
      → (update_transaction_state log_fault (to (text "a") pending_anchor) deposit 1 tables).1
        ≡ tables)
    × (log_fault rollback ≡ none
        → (session_of log_fault
            (to (text "a") pending_anchor)
            deposit
            1
            (record { committed = tables; in_progress = none })).1.in_progress
          ≡ none)
update_atomic_example = update_atomic log_fault (to (text "a") pending_anchor) deposit 1 tables

-- The tables are written when only the answer to COMMIT is lost.
abbrev answer_fault : Statement → Option Text
answer_fault commit_answer = some (text "connection reset")
answer_fault _ = none

answer_lost :
    update_transaction_state answer_fault (to (text "a") pending_anchor) deposit 1 tables ≡ (
      err (refused (text "connection reset")),
      moved (to (text "a") pending_anchor) 1 (row pending_user_transfer_start) tables,
    )
unfolding update_transaction_state lookup insert Transactions.TransactionKind-discrete
    Transactions.TransactionStatus-discrete
answer_lost = refl

abbrev moved_row : Row
moved_row = record (row pending_user) { amount_out = some (text "9"); updated_at = 2 }

after_calls : lookup (text "a") (run_updates calls tables).transactions ≡ some moved_row
unfolding run_updates update_transaction_state Transactions.update_kyc_status lookup insert
    Transactions.TransactionKind-discrete Transactions.TransactionStatus-discrete
after_calls = refl

run_updates_bounded_example :
    (logged (text "a") (run_updates calls tables).history ≤ rank pending_user)
    × (rank pending_user ≤ 5)
run_updates_bounded_example = run_updates_bounded calls tables refl (text "a") moved_row after_calls

b_there : lookup (text "b") tables.transactions ≡ some (row completed)
unfolding lookup
b_there = refl

completed_rank : rank completed ≡ 5
unfolding rank
completed_rank = refl

run_updates_final_example : Kept (text "b") (row completed) (run_updates calls tables)
run_updates_final_example =
    run_updates_final calls tables (text "b") (row completed) b_there completed_rank

run_updates_from_example :
    All (λ (h : HistoryRow). h.from_status ≡ h.to_status) (run_updates calls tables).history
run_updates_from_example = run_updates_from calls tables refl
