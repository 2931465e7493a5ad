-- ===== src/Backend/Transactions/Diagram.antt =====
-- The diagram of `validateTransition` (`backend/src/transaction-state.ts`): how far a status is in it.
use swift_remit.Prelude.{
  ℕ, ◌≤◌, ◌<◌, ◌≡◌, refl, sym, ltb→lt, inl, inr, Bool, true, ◌&&◌, List, [], ◌∷◌, any, ltb,
  Bool-cases, arith,
}
use swift_remit.Backend.Transactions.{
  TransactionStatus, pending_user_transfer_start, pending_anchor, pending_stellar, pending_external,
  pending_trust, pending_user, completed, refunded, expired, error, TransactionKind, deposit,
  withdrawal, same_status, valid_transitions, validate_transition,
}

-- How far a transaction has come.
unfoldable pub rank : TransactionStatus → ℕ
rank pending_user_transfer_start = 0
rank pending_anchor = 1
rank pending_trust = 2
rank pending_user = 3
rank pending_stellar = 3
rank pending_external = 3
rank completed = 5
rank expired = 5
rank error = 4
rank refunded = 5

pub rank_le : (s : TransactionStatus) → rank s ≤ 5
unfolding rank
rank_le pending_user_transfer_start = omega arith
rank_le pending_anchor = omega arith
rank_le pending_trust = omega arith
rank_le pending_user = omega arith
rank_le pending_stellar = omega arith
rank_le pending_external = omega arith
rank_le completed = omega arith
rank_le expired = omega arith
rank_le error = omega arith
rank_le refunded = omega arith

abbrev rises : TransactionStatus → List TransactionStatus → Bool
unfolding rank
rises s [] = true
rises s (t ∷ ts) = ltb (rank s) (rank t) && rises s ts

valid_transitions-rises :
    (k : TransactionKind) (s : TransactionStatus) → rises s (valid_transitions k s) ≡ true
unfolding valid_transitions rank
valid_transitions-rises deposit pending_user_transfer_start = refl
valid_transitions-rises deposit pending_anchor = refl
valid_transitions-rises deposit pending_stellar = refl
valid_transitions-rises deposit pending_external = refl
valid_transitions-rises deposit pending_trust = refl
valid_transitions-rises deposit pending_user = refl
valid_transitions-rises deposit completed = refl
valid_transitions-rises deposit refunded = refl
valid_transitions-rises deposit expired = refl
valid_transitions-rises deposit error = refl
valid_transitions-rises withdrawal pending_user_transfer_start = refl
valid_transitions-rises withdrawal pending_anchor = refl
valid_transitions-rises withdrawal pending_stellar = refl
valid_transitions-rises withdrawal pending_external = refl
valid_transitions-rises withdrawal pending_trust = refl
valid_transitions-rises withdrawal pending_user = refl
valid_transitions-rises withdrawal completed = refl
valid_transitions-rises withdrawal refunded = refl
valid_transitions-rises withdrawal expired = refl
valid_transitions-rises withdrawal error = refl

and_left : (a b : Bool) → (a && b) ≡ true → a ≡ true
and_left a b h = ground arith

and_right : (a b : Bool) → (a && b) ≡ true → b ≡ true
and_right a b h = ground arith

same_status_sound : (s t : TransactionStatus) → same_status s t ≡ true → s ≡ t
same_status_sound s t h = ground arith

rises-any :
    (s t : TransactionStatus) (ts : List TransactionStatus)
    → rises s ts ≡ true
    → any (λ u. same_status u t) ts ≡ true
    → rank s < rank t
unfolding rises
rises-any s t [] up h = cc
rises-any s t (u ∷ ts) up h = elim (Bool-cases (same_status u t)) [
  | inl here ↦
      rw (sym (same_status_sound u t here))
        (ltb→lt (rank s) (rank u) (and_left (ltb (rank s) (rank u)) (rises s ts) up))
  | inr there ↦
      rises-any s t ts (and_right (ltb (rank s) (rank u)) (rises s ts) up) (rw (sym h, there) refl)
]

-- A valid transition goes up.
pub validate_transition-rank :
    (s t : TransactionStatus) (k : TransactionKind)
    → validate_transition s t k ≡ true
    → rank s < rank t
validate_transition-rank s t k h =
    rises-any s t (valid_transitions k s) (valid_transitions-rises k s)
      (unfold validate_transition in h)
