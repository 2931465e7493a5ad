-- ===== src/Sdk/Mock/Reputation.antt =====
-- After any calls the statistics of the agents are fair, and every registered agent has some.
use swift_remit.Prelude.{
  ℕ, ◌+◌, ◌/◌, ◌≤◌, ◌≡◌, refl, true, false, Option, none, List, [], ◌∷◌, arith, Bool-cases, inl,
  inr,
}
use swift_remit.Prelude.Dict.{Text, nat_eq, text_eq, lookup, contains, has-lookup}
use swift_remit.Prelude.Result.{ok, Result-cases, ◌>>◌, >>-ok, >>-err}
use swift_remit.Sdk.Mock.Types.{AgentStats, Client, Call, new_client, fake_tx}
use swift_remit.Sdk.Mock.Reads.{get_agent_stats, get_agent_reputation}
use swift_remit.Sdk.Mock.Writes
use swift_remit.Sdk.Mock.Ops.{
  Op, apply, Seed, agent_seed, token_seed, admin_seed, remittance_seed, fee_seed, plant, Use, call,
  seed, use_all,
}
use swift_remit.Sdk.Mock.Agents.{
  IsFair, FairAgents, SameAgents, same-FairAgents, Bumps-FairAgents, confirm_payout-Bumps,
  mark_failed-Bumps, remove_agent-FairAgents, seed_agent-FairAgents,
}

abbrev Keeps : {A : Type 0} → Call A → Type 0
Keeps m = (c : Client) → FairAgents c → FairAgents (m c).1

sequence-Keeps : {A B : Type 0} (m : Call A) (k : Call B) → Keeps m → Keeps k → Keeps (m >> k)
sequence-Keeps m k hm hk c h = elim (Result-cases (m c).0) [
  | inl (a, e) ↦ rw (>>-ok m k c e) (hk (m c).1 (hm c h))
  | inr (x, e) ↦ rw (>>-err m k c e) (hm c h)
]

same-Keeps : {A : Type 0} (m : Call A) → ((c : Client) → SameAgents c (m c).1) → Keeps m
same-Keeps m same c h = same-FairAgents c (m c).1 h (same c)

create-Keeps : (p : Writes.CreateParams) (now : ℕ) → Keeps (Writes.create_remittance p now)
unfolding Writes.create_remittance
create-Keeps p now = same-Keeps (Writes.create_remittance p now) (λ c. ground arith)

create_all-Keeps :
    (s : Text) (es : List Writes.BatchEntry) (now : ℕ) → Keeps (Writes.create_all s es now)
unfolding Writes.create_all
create_all-Keeps s [] now c h = h
create_all-Keeps s (e ∷ es) now c h =
    sequence-Keeps (Writes.create_remittance (Writes.entry_params s e) now)
      (Writes.create_all s es now) (create-Keeps (Writes.entry_params s e) now)
      (create_all-Keeps s es now) c h

expire-Keeps : (i : ℕ) → Keeps (Writes.expire_remittance i)
unfolding Writes.expire_remittance
expire-Keeps i = same-Keeps (Writes.expire_remittance i) (λ c. ground arith)

expire_all-Keeps : (is : List ℕ) → Keeps (Writes.expire_all is)
unfolding Writes.expire_all
expire_all-Keeps [] c h = h
expire_all-Keeps (i ∷ is) c h =
    sequence-Keeps (Writes.expire_remittance i) (Writes.expire_all is) (expire-Keeps i)
      (expire_all-Keeps is) c h

fake_tx-Keeps : (i : Option ℕ) → Keeps (fake_tx i)
unfolding fake_tx
fake_tx-Keeps i = same-Keeps (fake_tx i) (λ c. (refl, refl))

register-Keeps : (a : Text) (now : ℕ) → Keeps (Writes.register_agent a now)
unfolding Writes.register_agent
register-Keeps a now c h = elim (Bool-cases (contains a c.agents)) [
  | inl there ↦ same-FairAgents c _ h (ground arith)
  | inr new ↦
      same-FairAgents (Writes.seed_agent a now c) _ (seed_agent-FairAgents a now c h) (ground arith)
]

apply-Keeps : (op : Op) (now : ℕ) → Keeps (apply op now)
unfolding apply
apply-Keeps (Op.create p) now c h = create-Keeps p now c h
apply-Keeps (Op.batch_create s es) now c h =
    unfold Writes.batch_create_remittances in
    sequence-Keeps (Writes.create_all s es now) (fake_tx none) (create_all-Keeps s es now)
      (fake_tx-Keeps none) c h
apply-Keeps (Op.confirm a i) now c h =
    Bumps-FairAgents c _ a true (now / 1000) h (confirm_payout-Bumps a i now c)
apply-Keeps (Op.confirm_partial i x) now c h =
    same-FairAgents c _ h (unfold Writes.confirm_partial_payout in ground arith)
apply-Keeps (Op.cancel i) now c h =
    same-FairAgents c _ h (unfold Writes.cancel_remittance in ground arith)
apply-Keeps (Op.mark_failed a i) now c h =
    Bumps-FairAgents c _ a false (now / 1000) h (mark_failed-Bumps a i now c)
apply-Keeps (Op.raise_dispute i) now c h =
    same-FairAgents c _ h (unfold Writes.raise_dispute in ground arith)
apply-Keeps (Op.resolve_dispute i b) now c h =
    same-FairAgents c _ h (unfold Writes.resolve_dispute in ground arith)
apply-Keeps (Op.expire i) now c h = expire-Keeps i c h
apply-Keeps (Op.process_expired is) now c h =
    unfold Writes.process_expired_remittances in
    sequence-Keeps (Writes.expire_all is) (fake_tx none) (expire_all-Keeps is) (fake_tx-Keeps none)
      c h
apply-Keeps Op.withdraw_fees now c h =
    same-FairAgents c _ h (unfold Writes.withdraw_fees in ground arith)
apply-Keeps Op.withdraw_integrator_fees now c h =
    same-FairAgents c _ h (unfold Writes.withdraw_integrator_fees in ground arith)
apply-Keeps (Op.register_agent a) now c h = register-Keeps a now c h
apply-Keeps (Op.remove_agent a) now c h = remove_agent-FairAgents a c h
apply-Keeps (Op.update_fee n) now c h =
    same-FairAgents c _ h (unfold Writes.update_fee in ground arith)
apply-Keeps (Op.set_daily_limit x y l) now c h =
    same-FairAgents c _ h (unfold Writes.set_daily_limit in ground arith)
apply-Keeps (Op.add_admin a) now c h =
    same-FairAgents c _ h (unfold Writes.add_admin in ground arith)
apply-Keeps Op.acknowledge now c h =
    same-FairAgents c _ h (unfold Writes.acknowledge in ground arith)

plant-FairAgents : (x : Seed) (now : ℕ) (c : Client) → FairAgents c → FairAgents (plant x now c)
unfolding plant Writes.seed_token Writes.seed_admin Writes.seed_remittance Writes.set_fee_bps
plant-FairAgents (agent_seed a) now c h = seed_agent-FairAgents a now c h
plant-FairAgents (token_seed a) now c h = same-FairAgents c _ h (refl, refl)
plant-FairAgents (admin_seed a) now c h = same-FairAgents c _ h (refl, refl)
plant-FairAgents (remittance_seed r) now c h = same-FairAgents c _ h (refl, refl)
plant-FairAgents (fee_seed bps) now c h = same-FairAgents c _ h (refl, refl)

use_all-FairAgents : (us : List Use) (c : Client) → FairAgents c → FairAgents (use_all us c).0
unfolding use_all
use_all-FairAgents [] c h = h
use_all-FairAgents (call op now ∷ us) c h =
    use_all-FairAgents us (apply op now c).1 (apply-Keeps op now c h)
use_all-FairAgents (seed x now ∷ us) c h =
    use_all-FairAgents us (plant x now c) (plant-FairAgents x now c h)

new_client-FairAgents :
    (fee protocol : Option ℕ) (counter : ℕ) → FairAgents (new_client fee protocol counter)
unfolding new_client lookup contains
new_client-FairAgents fee protocol counter = record { fair = λ a s e. cc; known = λ a e. cc }

-- After any calls and any seeding of a new client, an agent that is registered has statistics that are
-- fair: the call that reads them does not throw, at most all of the settlements failed, and the success
-- rate is at most 10000 basis points, so the reputation is at most 100.
pub run_reputation :
    (us : List Use) (fee protocol : Option ℕ) (counter : ℕ) (agent : Text)
    → let c = (use_all us (new_client fee protocol counter)).0 in
      contains agent c.agents ≡ true
      → (s : AgentStats) × (n : ℕ) × (get_agent_stats agent c ≡ (ok s, c))
        × IsFair s
        × (get_agent_reputation agent c ≡ (ok n, c))
        × (n ≤ 100)
unfolding get_agent_stats get_agent_reputation
run_reputation us fee protocol counter agent registered =
    let c = (use_all us (new_client fee protocol counter)).0 in
    let f =
      use_all-FairAgents us (new_client fee protocol counter)
        (new_client-FairAgents fee protocol counter) in
    let (s, found) = has-lookup agent c.agent_stats (f.known agent registered) in
    let good = f.fair agent s found in
    (s, (s.success_rate_bps + 50) / 100, ground arith, good, ground arith, ground arith)
