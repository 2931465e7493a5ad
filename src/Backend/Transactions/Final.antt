-- ===== src/Backend/Transactions/Final.antt =====
-- Rows that have come to an end in `transactions` (`backend/src/transaction-state.ts`).
use mathlib.Core.Path.{subst}
use swift_remit.Prelude.{ℕ, ◌<◌, ◌≡◌, refl, sym, ap, ◌∙◌, inl, inr, Bool-cases, some, List, arith}
use swift_remit.Prelude.Dict.{Text, text_beq_iff, text_eq, ◌==◌, lookup, lookup-insert}
use swift_remit.Backend.Transactions.{
  TransactionKind, TransactionUpdate, Row, Tables, KycUpdate, with_kyc,
}
use swift_remit.Backend.Transactions.Diagram.{rank, rank_le}
use swift_remit.Backend.Transactions.Updates.{same_row, moved}
use swift_remit.Backend.Transactions.Logs.{
  UpdateCall, run_updates, run_updates-induction, same_rank, noted,
}

-- What stays of a row: all but the columns of KYC and the time of the last change.
pub record Stays (r new : Row) : Type 0 where
  pub kind : new.kind ≡ r.kind
  pub status : new.status ≡ r.status
  pub status_eta : new.status_eta ≡ r.status_eta
  pub amount_in : new.amount_in ≡ r.amount_in
  pub amount_out : new.amount_out ≡ r.amount_out
  pub amount_fee : new.amount_fee ≡ r.amount_fee
  pub stellar : new.stellar_transaction_id ≡ r.stellar_transaction_id
  pub external : new.external_transaction_id ≡ r.external_transaction_id
  pub message : new.message ≡ r.message

Stays-refl : (r : Row) → Stays r r
Stays-refl r = record {
  kind = refl;
  status = refl;
  status_eta = refl;
  amount_in = refl;
  amount_out = refl;
  amount_fee = refl;
  stellar = refl;
  external = refl;
  message = refl;
}

Stays-with_kyc : (u : KycUpdate) (now : ℕ) (r x : Row) → Stays r x → Stays r (with_kyc u now x)
unfolding with_kyc
Stays-with_kyc u now r x h = record {
  kind = h.kind;
  status = h.status;
  status_eta = h.status_eta;
  amount_in = h.amount_in;
  amount_out = h.amount_out;
  amount_fee = h.amount_fee;
  stellar = h.stellar;
  external = h.external;
  message = h.message;
}

abbrev pub Kept : Text → Row → Tables → Type 0
Kept i r db = (new : Row) × (lookup i db.transactions ≡ some new) × Stays r new

final-moved :
    (i : Text) (r : Row)
    → rank r.status ≡ 5
    → (u : TransactionUpdate) (k : TransactionKind) (now : ℕ) (s : Row) (db : Tables)
    → lookup u.transaction_id db.transactions ≡ some s
    → rank s.status < rank u.status
    → Kept i r db
    → Kept i r (moved u now s db)
final-moved i r final u k now s db found up (x, there, stays) =
    elim (Bool-cases (u.transaction_id == i)) [
      | inl same ↦
          let e : rank s.status ≡ rank x.status =
            same_rank s x (rw (sym found, (text_beq_iff u.transaction_id i).0 same, there) refl) in
          let f : rank x.status ≡ rank r.status = ap rank stays.status in
          absurd (omega (arith, e, f, final, up, rank_le u.status))
      | inr other ↦ (x, rw (lookup-insert, other) there, stays)
    ]

final-noted :
    (i : Text) (r : Row) (u : KycUpdate) (now : ℕ) (s : Row) (db : Tables)
    → lookup u.transaction_id db.transactions ≡ some s
    → Kept i r db
    → Kept i r (noted u now s db)
final-noted i r u now s db found (x, there, stays) = elim (Bool-cases (u.transaction_id == i)) [
  | inl same ↦
      let e : x ≡ s = same_row x s (
        sym there
        ∙ sym (ap (λ k. lookup k db.transactions) ((text_beq_iff u.transaction_id i).0 same))
        ∙ found) in
      (
        with_kyc u now s,
        rw (lookup-insert, same) refl,
        Stays-with_kyc u now r s (subst (Stays r) e stays),
      )
  | inr other ↦ (x, rw (lookup-insert, other) there, stays)
]

-- A row that is completed, refunded or expired keeps its status, its time estimate, its amounts, its
-- identifiers and its message, whatever calls of the manager are made, those that update its KYC included.
pub run_updates_final :
    (cs : List UpdateCall) (db : Tables) (i : Text) (r : Row)
    → lookup i db.transactions ≡ some r
    → rank r.status ≡ 5
    → Kept i r (run_updates cs db)
run_updates_final cs db i r h final =
    run_updates-induction (Kept i r) (final-moved i r final) (final-noted i r) cs db
      (r, h, Stays-refl r)
