-- ===== src/Backend/Transactions/Rows.antt =====
-- The tables of the transaction state manager (`backend/src/transaction-state.ts`), the diagram of the
-- statuses, and what each statement does to the tables.
use swift_remit.Prelude.{
  ℕ, Bool, true, false, Option, none, some, List, [], ◌∷◌, ◌++◌, any, if◌then◌else◌,
}
use swift_remit.Prelude.Dict.{Text, Dict, text_eq, lookup, insert}

pub data TransactionStatus : Type 0 where
  pending_user_transfer_start pending_anchor pending_stellar : TransactionStatus
  pending_external pending_trust pending_user : TransactionStatus
  completed refunded expired error : TransactionStatus

unfoldable pub TransactionStatus-discrete : Discrete TransactionStatus
TransactionStatus-discrete = hlevel

pub data TransactionKind : Type 0 where
  deposit withdrawal : TransactionKind

unfoldable pub TransactionKind-discrete : Discrete TransactionKind
TransactionKind-discrete = hlevel

-- `a === b` on these unions of literals
abbrev pub same_status : TransactionStatus → TransactionStatus → Bool
same_status a b = elim (TransactionStatus-discrete a b) [ yes h ↦ true | no h ↦ false ]

abbrev pub same_kind : TransactionKind → TransactionKind → Bool
same_kind a b = elim (TransactionKind-discrete a b) [ yes h ↦ true | no h ↦ false ]

-- `TransactionUpdate`, less `refunds`, which no statement uses.
pub record TransactionUpdate : Type 0 where
  pub transaction_id : Text
  pub status : TransactionStatus
  pub status_eta : Option ℕ
  pub amount_in : Option Text
  pub amount_out : Option Text
  pub amount_fee : Option Text
  pub stellar_transaction_id : Option Text
  pub external_transaction_id : Option Text
  pub message : Option Text

pub data KycState : Type 0 where
  pending approved rejected : KycState

-- `KYCUpdate`; the fields of the form are kept as the text that is stored.
pub record KycUpdate : Type 0 where
  pub transaction_id : Text
  pub kyc_status : KycState
  pub kyc_fields : Option Text
  pub rejection_reason : Option Text

-- The columns of `transactions` that the manager reads or writes.
pub record Row : Type 0 where
  pub kind : TransactionKind
  pub status : TransactionStatus
  pub status_eta : Option ℕ
  pub amount_in : Option Text
  pub amount_out : Option Text
  pub amount_fee : Option Text
  pub stellar_transaction_id : Option Text
  pub external_transaction_id : Option Text
  pub kyc_status : Option KycState
  pub kyc_fields : Option Text
  pub kyc_rejection_reason : Option Text
  pub message : Option Text
  pub updated_at : ℕ

pub record HistoryRow : Type 0 where
  pub transaction_id : Text
  pub from_status : TransactionStatus
  pub to_status : TransactionStatus
  pub changed_at : ℕ

pub record Tables : Type 0 where
  pub transactions : Dict Text Row
  pub history : List HistoryRow

-- What `updateTransactionState` throws; `refused` is an error of the database.
pub data UpdateError : Type 0 where
  not_found : Text → UpdateError
  invalid_transition : TransactionStatus → TransactionStatus → TransactionKind → Text → UpdateError
  refused : Text → UpdateError

-- `validTransitions[kind][currentStatus]`
unfoldable pub valid_transitions : TransactionKind → TransactionStatus → List TransactionStatus
valid_transitions deposit pending_user_transfer_start = pending_anchor ∷ expired ∷ error ∷ []
valid_transitions deposit pending_anchor =
    pending_stellar ∷ pending_trust ∷ pending_user ∷ error ∷ []
valid_transitions deposit pending_stellar = completed ∷ error ∷ []
valid_transitions deposit pending_trust = pending_user ∷ error ∷ []
valid_transitions deposit pending_user = completed ∷ error ∷ []
valid_transitions deposit pending_external = completed ∷ error ∷ []
valid_transitions deposit completed = []
valid_transitions deposit refunded = []
valid_transitions deposit expired = []
valid_transitions deposit error = refunded ∷ []
valid_transitions withdrawal pending_user_transfer_start = pending_anchor ∷ expired ∷ error ∷ []
valid_transitions withdrawal pending_anchor = pending_external ∷ pending_stellar ∷ error ∷ []
valid_transitions withdrawal pending_external = completed ∷ error ∷ []
valid_transitions withdrawal pending_stellar = completed ∷ error ∷ []
valid_transitions withdrawal pending_trust = []
valid_transitions withdrawal pending_user = []
valid_transitions withdrawal completed = []
valid_transitions withdrawal refunded = []
valid_transitions withdrawal expired = []
valid_transitions withdrawal error = refunded ∷ []

-- `validateTransition`
unfoldable pub validate_transition : TransactionStatus → TransactionStatus → TransactionKind → Bool
unfolding valid_transitions
validate_transition current next kind =
    any (λ s. same_status s next) (valid_transitions kind current)

-- `COALESCE($n, column)`
abbrev pub coalesce : {A : Type 0} → Option A → Option A → Option A
coalesce none b = b
coalesce (some a) b = some a

-- The row with `transaction_id = $1 AND kind = $2`
unfoldable pub select_row : Text → TransactionKind → Tables → Option Row
select_row i kind db = elim (lookup i db.transactions) [
  | none ↦ none
  | some r ↦ if same_kind r.kind kind then some r else none
]

-- What the UPDATE makes of the row.
unfoldable pub updated_row : TransactionUpdate → ℕ → Row → Row
updated_row u now r = record r {
  status = u.status;
  status_eta = u.status_eta;
  amount_in = coalesce u.amount_in r.amount_in;
  amount_out = coalesce u.amount_out r.amount_out;
  amount_fee = coalesce u.amount_fee r.amount_fee;
  stellar_transaction_id = coalesce u.stellar_transaction_id r.stellar_transaction_id;
  external_transaction_id = coalesce u.external_transaction_id r.external_transaction_id;
  message = coalesce u.message r.message;
  updated_at = now;
}

unfoldable pub update_transaction : TransactionUpdate → TransactionKind → ℕ → Tables → Tables
unfolding select_row updated_row
update_transaction u kind now db = elim (select_row u.transaction_id kind db) [
  | none ↦ db
  | some r ↦ record db {
    transactions = insert u.transaction_id (updated_row u now r) db.transactions;
  }
]

-- INSERT … SELECT: the status that is read is the one the table has then.
unfoldable pub log_state : TransactionUpdate → ℕ → Tables → Tables
log_state u now db = elim (lookup u.transaction_id db.transactions) [
  | none ↦ db
  | some r ↦ record db {
    history =
        db.history
        ++ record {
          transaction_id = u.transaction_id;
          from_status = r.status;
          to_status = u.status;
          changed_at = now;
        }
          ∷ [];
  }
]

-- What `updateKYCStatus` makes of the row.
unfoldable pub with_kyc : KycUpdate → ℕ → Row → Row
with_kyc u now r = record r {
  kyc_status = some u.kyc_status;
  kyc_fields = coalesce u.kyc_fields r.kyc_fields;
  kyc_rejection_reason = u.rejection_reason;
  updated_at = now;
}
