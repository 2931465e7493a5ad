-- ===== src/Backend/Transactions/Logs.antt =====
-- Sequences of calls of `updateTransactionState` and `updateKYCStatus` (`backend/src/transaction-state.ts`),
-- and what they leave in the two tables.
use swift_remit.Prelude.{
  ℕ, ◌+◌, ◌≤◌, ◌<◌, ◌≡◌, refl, sym, ap, ◌⊎◌, inl, inr, Bool-cases, Option-cases, Option, none, some,
  List, [], ◌∷◌, ◌++◌, All, arith, if◌then◌else◌,
}
use swift_remit.Prelude.Dict.{Text, text_beq_iff, text_eq, ◌==◌, lookup, insert, lookup-insert}
use swift_remit.Backend.Transactions.{
  TransactionKind, TransactionUpdate, Row, HistoryRow, Tables, Statement, updated_row,
  update_transaction_state, update_kyc_status, update_kyc, KycUpdate, with_kyc,
}
use swift_remit.Backend.Transactions.Diagram.{rank, rank_le, validate_transition-rank}
use swift_remit.Backend.Transactions.Updates.{moved, select_row-lookup, update_cases}

-- One call, with its clock and what the database refuses meanwhile.
pub data UpdateCall : Type 0 where
  state_call : TransactionUpdate → TransactionKind → ℕ → (Statement → Option Text) → UpdateCall
  kyc_call : KycUpdate → ℕ → (Statement → Option Text) → UpdateCall

unfoldable pub call_update : UpdateCall → Tables → Tables
call_update (state_call u kind now refuses) db = (update_transaction_state refuses u kind now db).1
call_update (kyc_call u now refuses) db = (update_kyc_status refuses u now db).1

unfoldable pub run_updates : List UpdateCall → Tables → Tables
unfolding call_update
run_updates [] db = db
run_updates (c ∷ cs) db = run_updates cs (call_update c db)

-- How often a move of the transaction is in the history.
unfoldable pub logged : Text → List HistoryRow → ℕ
logged i [] = 0
logged i (h ∷ hs) = (if h.transaction_id == i then 1 else 0) + logged i hs

logged-append :
    (i : Text) (h : HistoryRow) (hs : List HistoryRow)
    → logged i (hs ++ h ∷ []) ≡ logged i hs + (if h.transaction_id == i then 1 else 0)
unfolding logged
logged-append i h [] = omega arith
logged-append i h (x ∷ hs) = omega (arith, logged-append i h hs)

All-append_one {ℓ κ} :
    {A : Type ℓ} (P : A → Type κ) (xs : List A) (x : A) → All P xs → P x → All P (xs ++ x ∷ [])
All-append_one P [] x p q = (q, tt)
All-append_one P (y ∷ xs) x p q = (p.0, All-append_one P xs x p.1 q)

pub same_rank : (r s : Row) → some r ≡ some s → rank r.status ≡ rank s.status
same_rank r s = ap (λ (o : Option Row). elim o [ none ↦ 0 | some x ↦ rank x.status ])

-- The tables after an update of the columns of KYC.
abbrev pub noted : KycUpdate → ℕ → Row → Tables → Tables
noted u now r db = record db {
  transactions = insert u.transaction_id (with_kyc u now r) db.transactions;
}

kyc_cases :
    (refuses : Statement → Option Text) (u : KycUpdate) (now : ℕ) (db : Tables)
    → ((update_kyc_status refuses u now db).1 ≡ db)
      ⊎ ((r : Row) × (lookup u.transaction_id db.transactions ≡ some r)
          × ((update_kyc_status refuses u now db).1 ≡ noted u now r db))
unfolding update_kyc_status lookup
kyc_cases refuses u now db = elim (Option-cases (refuses update_kyc)) [
  | inr (w, h) ↦ inl (rw (update_kyc_status, h) refl)
  | inl h ↦ elim (Option-cases (lookup u.transaction_id db.transactions)) [
    | inl absent ↦ inl (rw (update_kyc_status, h, absent) refl)
    | inr (r, found) ↦ inr (r, found, rw (update_kyc_status, h, found) refl)
  ]
]

-- A property of the tables that every accepted update keeps holds after all the calls.
pub run_updates-induction {ℓ} :
    (P : Tables → Type ℓ)
    → (step : (u : TransactionUpdate) (k : TransactionKind) (now : ℕ) (r : Row) (db : Tables)
        → lookup u.transaction_id db.transactions ≡ some r
        → rank r.status < rank u.status
        → P db
        → P (moved u now r db))
    → (kyc : (u : KycUpdate) (now : ℕ) (r : Row) (db : Tables)
        → lookup u.transaction_id db.transactions ≡ some r
        → P db
        → P (noted u now r db))
    → (cs : List UpdateCall) (db : Tables) → P db
    → P (run_updates cs db)
unfolding run_updates
run_updates-induction P step kyc [] db p = p
run_updates-induction P step kyc (state_call u k now refuses ∷ cs) db p =
    elim (update_cases refuses u k now db) [
      | inl (thrown, same) ↦ run_updates-induction P step kyc cs _ (rw same p)
      | inr (r, found, valid, after, ended) ↦ run_updates-induction P step kyc cs _ (
          rw after (
            step u k now r db (select_row-lookup u.transaction_id k db r found)
              (validate_transition-rank r.status u.status k valid) p))
    ]
run_updates-induction P step kyc (kyc_call u now refuses ∷ cs) db p =
    elim (kyc_cases refuses u now db) [
      | inl same ↦ run_updates-induction P step kyc cs _ (rw same p)
      | inr (r, found, after) ↦
          run_updates-induction P step kyc cs _ (rw after (kyc u now r db found p))
    ]

-- No transaction has more moves behind it than its status allows.
pub IsBounded : Tables → Type 0
IsBounded db =
    (i : Text) (r : Row) → lookup i db.transactions ≡ some r → logged i db.history ≤ rank r.status

IsBounded-moved :
    (u : TransactionUpdate) (k : TransactionKind) (now : ℕ) (r : Row) (db : Tables)
    → lookup u.transaction_id db.transactions ≡ some r
    → rank r.status < rank u.status
    → IsBounded db
    → IsBounded (moved u now r db)
unfolding IsBounded
IsBounded-moved u k now r db found up p i s there = elim (Bool-cases (u.transaction_id == i)) [
  | inl same ↦
      let e : rank u.status ≡ rank s.status =
        unfold updated_row in
        same_rank (updated_row u now r) s (rw (sym there, lookup-insert, same) refl) in
      let before : logged i db.history ≤ rank r.status =
        p i r (rw (sym found, (text_beq_iff u.transaction_id i).0 same) refl) in
      rw (logged-append, same) (omega (arith, e, before, up))
  | inr other ↦
      rw (logged-append, other) (omega (arith, p i s (rw (sym there, lookup-insert, other) refl)))
]

IsBounded-noted :
    (u : KycUpdate) (now : ℕ) (r : Row) (db : Tables)
    → lookup u.transaction_id db.transactions ≡ some r
    → IsBounded db
    → IsBounded (noted u now r db)
unfolding IsBounded with_kyc
IsBounded-noted u now r db found p i s there = elim (Bool-cases (u.transaction_id == i)) [
  | inl same ↦
      let e : rank r.status ≡ rank s.status =
        same_rank (with_kyc u now r) s (rw (sym there, lookup-insert, same) refl) in
      let before : logged i db.history ≤ rank r.status =
        p i r (rw (sym found, (text_beq_iff u.transaction_id i).0 same) refl) in
      omega (arith, e, before)
  | inr other ↦ p i s (rw (sym there, lookup-insert, other) refl)
]

IsBounded-empty : (db : Tables) → db.history ≡ [] → IsBounded db
unfolding IsBounded logged
IsBounded-empty db h i r there = rw h (omega arith)

-- From an empty history, whatever calls are made: a transaction has at most as many moves in the
-- history as its status is far in the diagram, which is at most five.
pub run_updates_bounded :
    (cs : List UpdateCall) (db : Tables)
    → db.history ≡ []
    → (i : Text) (r : Row) → lookup i (run_updates cs db).transactions ≡ some r
    → (logged i (run_updates cs db).history ≤ rank r.status) × (rank r.status ≤ 5)
unfolding IsBounded
run_updates_bounded cs db h i r there = (
  run_updates-induction IsBounded IsBounded-moved IsBounded-noted cs db (IsBounded-empty db h) i r
      there,
  rank_le r.status,
)

-- From an empty history, whatever calls are made: every row that is written to the history has the
-- new status in both places.
pub run_updates_from :
    (cs : List UpdateCall) (db : Tables)
    → db.history ≡ []
    → All (λ (h : HistoryRow). h.from_status ≡ h.to_status) (run_updates cs db).history
run_updates_from cs db h =
    run_updates-induction (λ db. All (λ (h : HistoryRow). h.from_status ≡ h.to_status) db.history)
      (λ u k now r db found up p. All-append_one _ db.history _ p refl) (λ u now r db found p. p) cs
      db (rw h tt)
