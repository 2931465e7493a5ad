-- ===== src/Sdk/Mock/Histories.antt =====
-- Sequences of calls on a client (`sdk/src/testing/mock-client.ts`) as sequences of steps of the ledger.
use mathlib.Core.Path.{subst}
use swift_remit.Prelude.{
  ℕ, ◌+◌, ◌≤◌, leb, if◌then◌else◌, ◌≡◌, refl, sym, true, false, Option, none, List, [], ◌∷◌, arith,
  Bool-cases, inl, inr,
}
use swift_remit.Prelude.Int.{ℤ, pos, ◌+ℤ◌, +ℤ_assoc, int_laws}
use swift_remit.Prelude.Dict.{Text, nat_eq, text_eq, lookup}
use swift_remit.Prelude.Result.{⊤, Result-cases, ◌>>◌, >>-ok, >>-err}
use swift_remit.Sdk.Mock.Types.{
  pending, cancelled, completed, failed, disputed, Client, Call, new_client, fake_tx,
}
use swift_remit.Sdk.Mock.Reads.{is_zero}
use swift_remit.Sdk.Mock.Writes
use swift_remit.Sdk.Mock.Ledger.{◌⟶◌, Step, Steps, Books, is_settled, shape, settled_sum}
use swift_remit.Sdk.Mock.Ledger.Balance.{Steps-Books}
use swift_remit.Sdk.Mock.Ops.{
  Op, apply, paid_out, Seed, agent_seed, token_seed, admin_seed, remittance_seed, fee_seed, plant,
  Use, call, seed, use_all,
}
use swift_remit.Sdk.Mock.Effects.{
  SameLedger, idles, move_status-Step, confirm_payout-Step, mark_failed-Step,
  create_remittance-Step,
}

zero-+ℤ : (a : ℤ) → pos 0 +ℤ a ≡ a
zero-+ℤ a = omega int_laws

+ℤ-zero : (a : ℤ) → a +ℤ pos 0 ≡ a
+ℤ-zero a = omega int_laws

Steps-one : {c d : Client} {v : ℤ} → Step c d v → Steps c d v
Steps-one {v} step = subst (Steps _ _) (zero-+ℤ v) (Steps.next Steps.here step)

Steps-append : {c d e : Client} {w v : ℤ} → Steps c d w → Steps d e v → Steps c e (w +ℤ v)
Steps-append {w} first Steps.here = subst (Steps _ _) (sym (+ℤ-zero w)) first
Steps-append {w} first (Steps.next {w = u} {v} rest step) =
    subst (Steps _ _) (+ℤ_assoc w u v) (Steps.next (Steps-append first rest) step)

-- One call after another, neither of which pays anything out.
then_free : {c d e : Client} → Steps c d (pos 0) → Steps d e (pos 0) → Steps c e (pos 0)
then_free first second = subst (Steps _ _) (+ℤ-zero (pos 0)) (Steps-append first second)

-- The calls of a loop: the second is made if the first does not throw.
sequence-Steps :
    {A B : Type 0} (m : Call A) (k : Call B)
    → ((c : Client) → Steps c (m c).1 (pos 0))
    → ((c : Client) → Steps c (k c).1 (pos 0))
    → (c : Client) → Steps c ((m >> k) c).1 (pos 0)
sequence-Steps m k hm hk c = elim (Result-cases (m c).0) [
  | inl (a, e) ↦ rw (>>-ok m k c e) (then_free (hm c) (hk (m c).1))
  | inr (x, e) ↦ rw (>>-err m k c e) (hm c)
]

free : (c d : Client) → SameLedger c d → Steps c d (pos 0)
free c d same = Steps-one (idles c d same)

fake_tx-Steps : (i : Option ℕ) (c : Client) → Steps c (fake_tx i c).1 (pos 0)
unfolding fake_tx
fake_tx-Steps i c = free c _ (refl, refl, refl, refl)

create_all-Steps :
    (sender : Text) (es : List Writes.BatchEntry) (now : ℕ) (c : Client)
    → Steps c (Writes.create_all sender es now c).1 (pos 0)
unfolding Writes.create_all
create_all-Steps sender [] now c = Steps.here
create_all-Steps sender (e ∷ es) now c =
    sequence-Steps (Writes.create_remittance (Writes.entry_params sender e) now)
      (Writes.create_all sender es now)
      (λ c. Steps-one (create_remittance-Step (Writes.entry_params sender e) now c))
      (create_all-Steps sender es now) c

expire_all-Steps : (is : List ℕ) (c : Client) → Steps c (Writes.expire_all is c).1 (pos 0)
unfolding Writes.expire_all Writes.expire_remittance
expire_all-Steps [] c = Steps.here
expire_all-Steps (i ∷ is) c =
    sequence-Steps (Writes.expire_remittance i) (Writes.expire_all is)
      (λ c. Steps-one (move_status-Step i pending cancelled c ◌⟶◌.cancel)) (expire_all-Steps is) c

is_zero_sound : (a : ℤ) → is_zero a ≡ true → a ≡ pos 0
is_zero_sound a h = ground arith

-- With nothing to withdraw the call throws, and the nothing that it pays out is all there is.
withdraw_fees-Step : (c : Client) → Step c (Writes.withdraw_fees c).1 c.platform_fees
unfolding Writes.withdraw_fees
withdraw_fees-Step c = elim (Bool-cases (is_zero c.platform_fees)) [
  | inl empty ↦
      Step.idle (ground arith) (ground arith) (ground arith) (ground arith)
        (is_zero_sound c.platform_fees empty)
  | inr some_fees ↦ Step.withdraw (ground arith) (ground arith) (ground arith) (ground arith) refl
]

-- Each call is a sequence of steps that pays out just what the call does.
apply-Steps : (op : Op) (now : ℕ) (c : Client) → Steps c (apply op now c).1 (paid_out op c)
unfolding apply paid_out
apply-Steps (Op.create p) now c = Steps-one (create_remittance-Step p now c)
apply-Steps (Op.batch_create s es) now c =
    unfold Writes.batch_create_remittances in
    sequence-Steps (Writes.create_all s es now) (fake_tx none) (create_all-Steps s es now)
      (fake_tx-Steps none) c
apply-Steps (Op.confirm a i) now c = Steps-one (confirm_payout-Step a i now c)
apply-Steps (Op.confirm_partial i x) now c =
    free c _ (unfold Writes.confirm_partial_payout in ground arith)
apply-Steps (Op.cancel i) now c =
    unfold Writes.cancel_remittance in Steps-one (move_status-Step i pending cancelled c ◌⟶◌.cancel)
apply-Steps (Op.mark_failed a i) now c = Steps-one (mark_failed-Step a i now c)
apply-Steps (Op.raise_dispute i) now c =
    unfold Writes.raise_dispute in Steps-one (move_status-Step i failed disputed c ◌⟶◌.dispute)
apply-Steps (Op.resolve_dispute i true) now c =
    unfold Writes.resolve_dispute in Steps-one (move_status-Step i disputed cancelled c ◌⟶◌.refund)
apply-Steps (Op.resolve_dispute i false) now c =
    unfold Writes.resolve_dispute in Steps-one (move_status-Step i disputed completed c ◌⟶◌.release)
apply-Steps (Op.expire i) now c =
    unfold Writes.expire_remittance in Steps-one (move_status-Step i pending cancelled c ◌⟶◌.cancel)
apply-Steps (Op.process_expired is) now c =
    unfold Writes.process_expired_remittances in
    sequence-Steps (Writes.expire_all is) (fake_tx none) (expire_all-Steps is) (fake_tx-Steps none)
      c
apply-Steps Op.withdraw_fees now c = Steps-one (withdraw_fees-Step c)
apply-Steps Op.withdraw_integrator_fees now c =
    free c _ (unfold Writes.withdraw_integrator_fees in ground arith)
apply-Steps (Op.register_agent a) now c = free c _ (unfold Writes.register_agent in ground arith)
apply-Steps (Op.remove_agent a) now c = free c _ (unfold Writes.remove_agent in ground arith)
apply-Steps (Op.update_fee n) now c = free c _ (unfold Writes.update_fee in ground arith)
apply-Steps (Op.set_daily_limit x y l) now c =
    free c _ (unfold Writes.set_daily_limit in ground arith)
apply-Steps (Op.add_admin a) now c = free c _ (unfold Writes.add_admin in ground arith)
apply-Steps Op.acknowledge now c = free c _ (unfold Writes.acknowledge in ground arith)

-- A remittance may be seeded under a number that is not reached yet, in no state of being paid out, and
-- with a time of failure as its status wants it.
unfoldable pub IsFit : Seed → Client → Type 0
IsFit (remittance_seed r) c =
    (c.next_id ≤ r.id) × (is_settled r ≡ false) × (shape r.status r.failed_at ≡ true)
IsFit _ c = ⊤

-- All the seeds among the uses are fit when their turn comes.
unfoldable pub AllFit : List Use → Client → Type 0
unfolding IsFit
AllFit [] c = ⊤
AllFit (call op now ∷ us) c = AllFit us (apply op now c).1
AllFit (seed x now ∷ us) c = IsFit x c × AllFit us (plant x now c)

next_past : (n k : ℕ) → n ≤ k → (if leb n k then k + 1 else n) ≡ k + 1
next_past n k h = ground arith

plant-Steps : (x : Seed) (now : ℕ) (c : Client) → IsFit x c → Steps c (plant x now c) (pos 0)
unfolding plant IsFit Writes.seed_agent Writes.seed_token Writes.seed_admin Writes.seed_remittance
    Writes.set_fee_bps
plant-Steps (agent_seed a) now c h = free c _ (refl, refl, refl, refl)
plant-Steps (token_seed a) now c h = free c _ (refl, refl, refl, refl)
plant-Steps (admin_seed a) now c h = free c _ (refl, refl, refl, refl)
plant-Steps (fee_seed bps) now c h = free c _ (refl, refl, refl, refl)
plant-Steps (remittance_seed r) now c (new, unsettled, shaped) =
    Steps-one
      (Step.create r new unsettled shaped refl (next_past c.next_id r.id new) refl refl refl)

pub use_all-Steps :
    (us : List Use) (c : Client) → AllFit us c → Steps c (use_all us c).0 (use_all us c).1
unfolding use_all AllFit
use_all-Steps [] c fit = Steps.here
use_all-Steps (call op now ∷ us) c fit =
    Steps-append (apply-Steps op now c) (use_all-Steps us (apply op now c).1 fit)
use_all-Steps (seed x now ∷ us) c fit =
    subst (Steps _ _) (zero-+ℤ _)
      (Steps-append (plant-Steps x now c fit.0) (use_all-Steps us (plant x now c) fit.1))

new_client-Books :
    (fee protocol : Option ℕ) (counter : ℕ) → Books (new_client fee protocol counter) (pos 0)
unfolding new_client settled_sum
new_client-Books fee protocol counter = record {
  fresh = λ i h. unfold lookup in refl;
  entry = λ i r h. unfold lookup in cc h;
  volume = refl;
  fees = +ℤ-zero (pos 0);
}

-- After any calls on a new client, whatever throws on the way, and any seeding that puts in remittances
-- only under numbers not reached yet, not paid out, and with a time of failure as their status wants it,
-- the books balance. The total volume is the sum of the amounts of the remittances that were paid
-- out, the platform fees held and those paid out by then are together the sum of the fees of these
-- remittances, every remittance stands under its own number and has a time of failure as its status
-- wants it, and no number that is still to be given is in use.
pub run-Books :
    (us : List Use) (fee protocol : Option ℕ) (counter : ℕ)
    → AllFit us (new_client fee protocol counter)
    → let (c, paid) = use_all us (new_client fee protocol counter) in Books c paid
run-Books us fee protocol counter fit = subst (Books _) (zero-+ℤ _) (
    Steps-Books (pos 0) (new_client-Books fee protocol counter)
      (use_all-Steps us (new_client fee protocol counter) fit))
