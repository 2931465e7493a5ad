-- ===== src/Backend/Transactions.antt =====
-- `TransactionStateManager` (`backend/src/transaction-state.ts`) over the tables `transactions`, whose
-- `transaction_id` is unique, and `transaction_state_history`. A connection works on a copy of the tables
-- between BEGIN and COMMIT. Which statement the database refuses is a parameter; an answer to COMMIT that
-- is lost on its way is one of these faults, and comes when the tables are written.
use swift_remit.Prelude.{
  ℕ, ◌≡◌, refl, Bool, true, false, ◌&&◌, Option, none, some, List, [], ◌∷◌, ◌++◌, any,
  if◌then◌else◌,
}
use swift_remit.Prelude.Dict.{Text, Dict, text_eq, lookup, insert}
use swift_remit.Prelude.Result.{Result, ok, err, ⊤, Action, pure, throw, gets, modify, ◌>>=◌, ◌>>◌}
unfoldable pub use swift_remit.Backend.Transactions.Rows.*
pub mod Rows
pub mod Diagram
pub mod Updates
pub mod Accepted
pub mod Logs
pub mod Final

-- A connection: the tables as others see them, and those of the transaction that it has open.
pub record Session : Type 0 where
  pub committed : Tables
  pub in_progress : Option Tables

-- The statements that are sent, with the connection itself, the answer to COMMIT, and the SELECT of
-- the webhook handlers.
pub data Statement : Type 0 where
  connect begin select_status update_row log_transition commit commit_answer : Statement
  rollback update_kyc select_current : Statement

-- BEGIN; within a transaction it does nothing.
unfoldable pub begin_work : Session → Session
begin_work s = elim s.in_progress [
  | none ↦ record s { in_progress = some s.committed }
  | some t ↦ s
]

unfoldable pub commit_work : Session → Session
commit_work s = elim s.in_progress [
  | none ↦ s
  | some t ↦ record { committed = t; in_progress = none }
]

unfoldable pub rollback_work : Session → Session
rollback_work s = record s { in_progress = none }

-- What the connection reads.
unfoldable pub visible : Session → Tables
visible s = elim s.in_progress [ none ↦ s.committed | some t ↦ t ]

-- What it writes is committed at once if no transaction is open.
unfoldable pub writes : (Tables → Tables) → Session → Session
writes f s = elim s.in_progress [
  | none ↦ record s { committed = f s.committed }
  | some t ↦ record s { in_progress = some (f t) }
]

module _ (refuses : Statement → Option Text) where
  -- `client.query(…)`
  abbrev pub query : {S : Type 0} → Statement → Action S UpdateError ⊤
  query s db = (elim (refuses s) [ none ↦ ok tt | some why ↦ err (refused why) ], db)

  -- `current.rows[0].status`, its absence and the check of the transition
  unfoldable pub check_transition :
      TransactionUpdate → TransactionKind → Action Session UpdateError ⊤
  unfolding select_row validate_transition visible
  check_transition u kind s = (
    elim (select_row u.transaction_id kind (visible s)) [
      | none ↦ err (not_found u.transaction_id)
      | some r ↦
          if validate_transition r.status u.status kind
          then ok tt
          else err (invalid_transition r.status u.status kind u.transaction_id)
    ],
    s,
  )

  -- The `try` block.
  unfoldable pub attempt_update :
      TransactionUpdate → TransactionKind → ℕ → Action Session UpdateError ⊤
  unfolding begin_work commit_work writes check_transition update_transaction log_state
  attempt_update u kind now = do
    query begin
    modify begin_work
    query select_status
    check_transition u kind
    query update_row
    modify (writes (update_transaction u kind now))
    query log_transition
    modify (writes (log_state u now))
    query commit
    modify commit_work
    query commit_answer

  -- `catch`: an error is thrown again after ROLLBACK, or gives way to the error of that.
  unfoldable pub catch_error : Result UpdateError ⊤ × Session → Result UpdateError ⊤ × Session
  unfolding rollback_work
  catch_error (ok done, s) = (ok done, s)
  catch_error (err e, s) = (do query rollback; modify rollback_work; throw e) s

  -- `try … catch`
  unfoldable pub in_transaction : Action Session UpdateError ⊤ → Action Session UpdateError ⊤
  unfolding catch_error
  in_transaction body s = catch_error (body s)

  -- A new connection and the call on it.
  unfoldable pub session_of : TransactionUpdate → TransactionKind → ℕ → Action Session UpdateError ⊤
  unfolding in_transaction attempt_update
  session_of u kind now = do query connect; in_transaction (attempt_update u kind now)

  -- `updateTransactionState`, as others see the tables before and after.
  unfoldable pub update_transaction_state :
      TransactionUpdate → TransactionKind → ℕ → Action Tables UpdateError ⊤
  unfolding session_of
  update_transaction_state u kind now db =
      let (r, s) = session_of u kind now (record { committed = db; in_progress = none }) in
      (r, s.committed)

  -- `updateKYCStatus`
  unfoldable pub update_kyc_status : KycUpdate → ℕ → Action Tables UpdateError ⊤
  unfolding with_kyc
  update_kyc_status u now = do
    query update_kyc
    modify (λ db. elim (lookup u.transaction_id db.transactions) [
      | none ↦ db
      | some r ↦ record db {
        transactions = insert u.transaction_id (with_kyc u now r) db.transactions;
      }
    ])
