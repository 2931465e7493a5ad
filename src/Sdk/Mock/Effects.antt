-- ===== src/Sdk/Mock/Effects.antt =====
-- What each writing method does to the ledger, on every branch.
use mathlib.Core.Path.{subst}
use swift_remit.Prelude.{
  ℕ, ◌+◌, ◌/◌, ◌≡◌, refl, sym, Bool, true, false, none, some, arith, Bool-cases, Option-cases, inl,
  inr, not, ◌&&◌,
}
use swift_remit.Prelude.Int.{pos, ◌+ℤ◌}
use swift_remit.Prelude.Dict.{Text, nat_eq, text_eq, lookup, insert, contains}
use swift_remit.Prelude.Result.{ok}
use swift_remit.Sdk.Mock.Types.{Status, pending, completed, failed, same_status, Remittance, Client}
use swift_remit.Sdk.Mock.Writes.{
  CreateParams, not_positive, new_remittance, move_status, confirm_payout, mark_failed,
  create_remittance,
}
use swift_remit.Sdk.Mock.Ledger.{◌⟶◌, Step}

-- A method that moves a status throws and changes nothing if there is no such remittance, or its
-- status is another.
pub move_status_missing :
    (i : ℕ) (from to : Status) (c : Client)
    → lookup i c.remittances ≡ none
    → (move_status i from to c).1 ≡ c
unfolding move_status
move_status_missing i from to c h = ground arith

pub move_status_other :
    (i : ℕ) (from to : Status) (r : Remittance) (c : Client)
    → lookup i c.remittances ≡ some r
    → same_status r.status from ≡ false
    → (move_status i from to c).1 ≡ c
unfolding move_status
move_status_other i from to r c h s = ground arith

pub move_status_done :
    (i : ℕ) (from to : Status) (r : Remittance) (c : Client)
    → lookup i c.remittances ≡ some r
    → same_status r.status from ≡ true
    → (move_status i from to c).1 ≡ record c {
      remittances = insert i (record r { status = to }) c.remittances;
      tx_counter = c.tx_counter + 1;
    }
unfolding move_status
move_status_done i from to r c h s = ground arith

pub same_status_sound : (s t : Status) → same_status s t ≡ true → s ≡ t
same_status_sound s t h = ground arith

stays : (c d : Client) → d ≡ c → Step c d (pos 0)
stays c d e = rw e (Step.idle refl refl refl refl refl)

pub move_status-Step :
    (i : ℕ) (from to : Status) (c : Client) → from ⟶ to → Step c (move_status i from to c).1 (pos 0)
move_status-Step i from to c edge = elim (Option-cases (lookup i c.remittances)) [
  | inl missing ↦ stays c _ (move_status_missing i from to c missing)
  | inr (r, found) ↦ elim (Bool-cases (same_status r.status from)) [
    | inr other ↦ stays c _ (move_status_other i from to r c found other)
    | inl fits ↦ rw (move_status_done i from to r c found fits) (
        Step.move i r to found
          (subst (λ s. s ⟶ to) (sym (same_status_sound r.status from fits)) edge) refl refl refl
          refl refl)
  ]
]

confirm_payout-stays :
    (a : Text) (i now : ℕ) (c : Client)
    → ((r : Remittance) → lookup i c.remittances ≡ some r → same_status r.status pending ≡ false)
    → (confirm_payout a i now c).1 ≡ c
unfolding confirm_payout
confirm_payout-stays a i now c h = elim (Option-cases (lookup i c.remittances)) [
  | inl missing ↦ ground arith
  | inr (r, found) ↦ let p = h r found in ground arith
]

-- Paying out a pending remittance completes it, and books its fee and its amount.
confirm_payout_done :
    (a : Text) (i now : ℕ) (r : Remittance) (c : Client)
    → lookup i c.remittances ≡ some r
    → same_status r.status pending ≡ true
    → let d = (confirm_payout a i now c).1 in
      (d.remittances ≡ insert i (record r { status = completed }) c.remittances)
      × (d.next_id ≡ c.next_id)
      × (d.total_volume ≡ c.total_volume +ℤ r.amount)
      × (d.platform_fees ≡ c.platform_fees +ℤ r.fee)
unfolding confirm_payout
confirm_payout_done a i now r c h s = ground arith

mark_failed_done :
    (a : Text) (i now : ℕ) (r : Remittance) (c : Client)
    → lookup i c.remittances ≡ some r
    → same_status r.status pending ≡ true
    → let d = (mark_failed a i now c).1 in
      (d.remittances
        ≡ insert i (record r { status = failed; failed_at = some (now / 1000) }) c.remittances)
      × (d.next_id ≡ c.next_id)
      × (d.total_volume ≡ c.total_volume)
      × (d.platform_fees ≡ c.platform_fees)
unfolding mark_failed
mark_failed_done a i now r c h s = ground arith

-- A call that throws before it writes, or that writes elsewhere, leaves the ledger alone.
abbrev pub SameLedger : Client → Client → Type 0
SameLedger c d =
    (d.remittances ≡ c.remittances)
    × (d.next_id ≡ c.next_id)
    × (d.total_volume ≡ c.total_volume)
    × (d.platform_fees ≡ c.platform_fees)

pub idles : (c d : Client) → SameLedger c d → Step c d (pos 0)
idles c d (m, n, v, f) = Step.idle m n v f refl

pub confirm_payout-Step :
    (a : Text) (i now : ℕ) (c : Client) → Step c (confirm_payout a i now c).1 (pos 0)
confirm_payout-Step a i now c = elim (Option-cases (lookup i c.remittances)) [
  | inl missing ↦ stays c _ (confirm_payout-stays a i now c (λ r h. cc missing))
  | inr (r, found) ↦ elim (Bool-cases (same_status r.status pending)) [
    | inr other ↦ stays c _ (confirm_payout-stays a i now c (λ x h. ground arith))
    | inl fits ↦
        let (m, n, v, f) = confirm_payout_done a i now r c found fits in
        Step.settle i r found (same_status_sound r.status pending fits) m n v f refl
  ]
]

mark_failed-stays :
    (a : Text) (i now : ℕ) (c : Client)
    → ((r : Remittance) → lookup i c.remittances ≡ some r → same_status r.status pending ≡ false)
    → (mark_failed a i now c).1 ≡ c
unfolding mark_failed
mark_failed-stays a i now c h = elim (Option-cases (lookup i c.remittances)) [
  | inl missing ↦ ground arith
  | inr (r, found) ↦ let p = h r found in ground arith
]

pub mark_failed-Step :
    (a : Text) (i now : ℕ) (c : Client) → Step c (mark_failed a i now c).1 (pos 0)
mark_failed-Step a i now c = elim (Option-cases (lookup i c.remittances)) [
  | inl missing ↦ stays c _ (mark_failed-stays a i now c (λ r h. cc missing))
  | inr (r, found) ↦ elim (Bool-cases (same_status r.status pending)) [
    | inr other ↦ stays c _ (mark_failed-stays a i now c (λ x h. ground arith))
    | inl fits ↦
        let (m, n, v, f) = mark_failed_done a i now r c found fits in
        Step.fail i r (now / 1000) found (same_status_sound r.status pending fits) m n v f refl
  ]
]

abbrev pub accepts : CreateParams → Client → Bool
accepts p c = contains p.agent c.agents && not (not_positive p.amount)

-- `createRemittance` throws and changes nothing, unless the agent is registered and the amount is
-- positive.
pub create_remittance-stays :
    (p : CreateParams) (now : ℕ) (c : Client)
    → accepts p c ≡ false
    → (create_remittance p now c).1 ≡ c
unfolding create_remittance
create_remittance-stays p now c h = ground arith

pub create_remittance_done :
    (p : CreateParams) (now : ℕ) (c : Client)
    → accepts p c ≡ true
    → create_remittance p now c ≡ (
      ok (record { tx_hash = c.tx_counter + 1; id = some c.next_id }),
      record c {
        remittances =
            insert c.next_id (new_remittance p c.next_id c.fee_bps (now / 1000)) c.remittances;
        next_id = c.next_id + 1;
        tx_counter = c.tx_counter + 1;
      },
    )
unfolding create_remittance
create_remittance_done p now c h = ground arith

pub create_remittance-Step :
    (p : CreateParams) (now : ℕ) (c : Client) → Step c (create_remittance p now c).1 (pos 0)
unfolding new_remittance
create_remittance-Step p now c = elim (Bool-cases (accepts p c)) [
  | inr refused ↦ stays c _ (create_remittance-stays p now c refused)
  | inl good ↦ rw (create_remittance_done p now c good) (
      Step.create (new_remittance p c.next_id c.fee_bps (now / 1000)) (omega arith) refl refl refl
        refl refl refl refl)
]
