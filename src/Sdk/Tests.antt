-- ===== src/Sdk/Tests.antt =====
-- Runs of the client and of the retry loop, and each theorem about them at an input that meets its
-- hypotheses.
use swift_remit.Prelude.{ℕ, zero, suc, ◌+◌, ◌≤◌, ◌≡◌, refl, true, none, some, List, [], ◌∷◌, arith}
use swift_remit.Prelude.Int.{pos, ◌+ℤ◌}
use swift_remit.Prelude.Dict.{Text, nat_eq, text_eq, lookup, insert, has, contains, add}
use swift_remit.Prelude.Strings.{text}
use swift_remit.Prelude.Result.{Result, ok, err}
use swift_remit.Sdk.Codes.{number, invalid_fee_bps, agent_not_registered}
use swift_remit.Sdk.Errors.{swift_remit_error, parse_contract_error, patterns}
use swift_remit.Sdk.Errors.Parsing.{
  host_error, simulation_error, parse_reported, Reported, parse_contract_error_sound,
}
use swift_remit.Sdk.Retry.{is_transient_error, Run, with_retry}
use swift_remit.Sdk.Retry.Runs.{IsRun, with_retry_total}
use swift_remit.Sdk.Mock.Types.{
  completed, failed, Remittance, AgentStats, Client, new_client, bumped, bps_share,
}
use swift_remit.Sdk.Mock.Reads.{get_agent_stats, get_agent_reputation, get_remittance, estimate_fee}
use swift_remit.Sdk.Mock.Writes
use swift_remit.Sdk.Mock.Ledger.{Books}
use swift_remit.Sdk.Mock.Ops.{
  Op, apply, Use, call, seed, plant, agent_seed, remittance_seed, use_all,
}
use swift_remit.Sdk.Mock.Histories.{AllFit, run-Books}
use swift_remit.Sdk.Mock.Lifecycle.{Followed, run-Continues}
use swift_remit.Sdk.Mock.Atomic.{
  Partial, create_entry, create_entries, apply-Atomic, batch_create-Partial,
}
use swift_remit.Sdk.Mock.Fees.{OnTerms, create-get}
use swift_remit.Sdk.Mock.Agents.{IsFair}
use swift_remit.Sdk.Mock.Reputation.{run_reputation}

abbrev agent : Text
agent = text "GA"

abbrev params : ℕ → Writes.CreateParams
params n = record {
  sender = text "GS";
  agent = agent;
  amount = pos n;
  token = none;
  expiry = some 60;
}

-- The second remittance is cancelled, and a second time in vain.
abbrev calls : List Use
calls =
    call (Op.register_agent agent) 1000
    ∷ call (Op.create (params 5000)) 2000
    ∷ call (Op.create (params 700)) 3000
    ∷ call (Op.confirm agent 1) 4000
    ∷ call (Op.cancel 2) 5000
    ∷ call (Op.cancel 2) 6000
    ∷ []

abbrev start : Client
start = new_client none none 0

run-calls :
    let (c, paid) = use_all calls start in
    (c.platform_fees ≡ pos 50) × (c.total_volume ≡ pos 5000) × (c.next_id ≡ 3) × (paid ≡ pos 0)
unfolding use_all Writes.register_agent Writes.create_remittance Writes.confirm_payout
    Writes.cancel_remittance new_client lookup insert contains add has bps_share ◌+ℤ◌
    swift_remit_error bumped
run-calls = (refl, refl, refl, refl)

-- A remittance that failed is seeded before the calls.
abbrev seeded : Remittance
seeded = record {
  id = 5;
  sender = text "GX";
  agent = agent;
  amount = pos 40;
  fee = pos 1;
  status = failed;
  expiry = none;
  token = [];
  created_at = 0;
  failed_at = some 1;
  expires_at = none;
}

abbrev uses : List Use
uses =
    seed (agent_seed agent) 900
    ∷ seed (remittance_seed seeded) 900
    ∷ call (Op.create (params 5000)) 2000
    ∷ call (Op.confirm agent 6) 4000
    ∷ call (Op.raise_dispute 5) 5000
    ∷ []

uses_fit : AllFit uses start
unfolding AllFit plant new_client Writes.seed_agent
uses_fit = (tt, ((omega arith, refl, refl), tt))

run-Books_example : let (c, paid) = use_all uses start in Books c paid
run-Books_example = run-Books uses none none 0 uses_fit

abbrev after_uses : Client
after_uses = (use_all uses start).0

abbrev paid_out_one : Remittance
paid_out_one = record {
  id = 6;
  sender = text "GS";
  agent = agent;
  amount = pos 5000;
  fee = pos 50;
  status = completed;
  expiry = some 60;
  token = [];
  created_at = 2;
  failed_at = none;
  expires_at = some 62;
}

after-lookup : lookup 6 after_uses.remittances ≡ some paid_out_one
unfolding use_all Writes.create_remittance Writes.confirm_payout Writes.raise_dispute
    Writes.seed_agent Writes.seed_remittance new_client lookup insert contains add has bps_share
after-lookup = refl

abbrev later_uses : List Use
later_uses =
    call Op.withdraw_fees 7000
    ∷ seed (remittance_seed (record seeded { id = 9 })) 7500
    ∷ call (Op.cancel 6) 8000
    ∷ []

later_fit : AllFit later_uses after_uses
unfolding AllFit apply use_all Writes.withdraw_fees Writes.create_remittance Writes.confirm_payout
    Writes.raise_dispute Writes.seed_agent Writes.seed_remittance new_client lookup insert contains
    add has bps_share ◌+ℤ◌
later_fit = ((omega arith, refl, refl), tt)

run-Continues_example : Followed 6 paid_out_one (use_all later_uses after_uses).0
run-Continues_example =
    run-Continues later_uses after_uses (use_all uses start).1 6 paid_out_one later_fit
      run-Books_example after-lookup

apply-Atomic_example : (apply (Op.create (params 5)) 1000 start).1 ≡ start
unfolding apply Writes.create_remittance new_client contains
apply-Atomic_example =
    apply-Atomic (Op.create (params 5)) 1000 start (swift_remit_error agent_not_registered agent)
      refl refl

abbrev entry : Text → Writes.BatchEntry
entry a = record { agent = a; amount = pos 10; expiry = none }

abbrev with_agent : Client
with_agent = (apply (Op.register_agent agent) 1000 start).1

-- The second agent is unknown.
abbrev entries : List Writes.BatchEntry
entries = entry agent ∷ entry (text "GB") ∷ entry agent ∷ []

batch_create-Partial_example :
    Partial
      (create_entry (text "GS") 2000)
      (create_entries (text "GS") 2000)
      entries
      with_agent
      (Writes.batch_create_remittances (text "GS") entries 2000 with_agent).1
      (swift_remit_error agent_not_registered (text "GB"))
unfolding apply Writes.batch_create_remittances Writes.create_remittance Writes.register_agent
    new_client contains add has
batch_create-Partial_example =
    batch_create-Partial (text "GS") entries 2000 with_agent
      (swift_remit_error agent_not_registered (text "GB")) refl

create-get_example :
    (r : Remittance) × ((Writes.create_remittance (params 5000) 2000 with_agent).0
      ≡ ok (record { tx_hash = with_agent.tx_counter + 1; id = some with_agent.next_id }))
    × ((get_remittance with_agent.next_id
          (Writes.create_remittance (params 5000) 2000 with_agent).1).0
        ≡ ok r)
    × OnTerms (params 5000) with_agent.next_id (estimate_fee (pos 5000) with_agent).platform_fee 2 r
unfolding apply Writes.register_agent new_client contains add has
create-get_example = create-get (params 5000) 2000 with_agent refl

after-agent : contains agent after_uses.agents ≡ true
unfolding use_all Writes.seed_agent Writes.seed_remittance Writes.create_remittance
    Writes.confirm_payout Writes.raise_dispute new_client lookup insert contains add has bps_share
after-agent = refl

run_reputation_example :
    (s : AgentStats) × (n : ℕ) × (get_agent_stats agent after_uses ≡ (ok s, after_uses))
    × IsFair s
    × (get_agent_reputation agent after_uses ≡ (ok n, after_uses))
    × (n ≤ 100)
run_reputation_example = run_reputation uses none none 0 agent after-agent

parse_reported_example :
    (parse_contract_error (host_error invalid_fee_bps)
      ≡ some (swift_remit_error invalid_fee_bps (host_error invalid_fee_bps)))
    × (parse_contract_error (simulation_error invalid_fee_bps)
        ≡ some (swift_remit_error invalid_fee_bps (simulation_error invalid_fee_bps)))
parse_reported_example = parse_reported invalid_fee_bps

-- A code that does not exist is passed over, and the next pattern is tried.
parse-unknown :
    parse_contract_error (text "ContractError(99) contract_error: 4")
    ≡ some (swift_remit_error invalid_fee_bps (text "ContractError(99) contract_error: 4"))
unfolding parse_contract_error number
parse-unknown = refl

parse_contract_error_sound_example :
    let t = text "ContractError(99) contract_error: 4" in
    Reported patterns t (swift_remit_error invalid_fee_bps t)
    × (swift_remit_error invalid_fee_bps t
        ≡ swift_remit_error (swift_remit_error invalid_fee_bps t).code t)
parse_contract_error_sound_example =
    parse_contract_error_sound (text "ContractError(99) contract_error: 4") parse-unknown

-- Two timeouts, then a value.
abbrev flaky : ℕ → Result Text ℕ
flaky zero = err (text "timeout")
flaky (suc zero) = err (text "HTTP 503")
flaky (suc (suc n)) = ok 7

flaky_retried :
    with_retry flaky 3 100 2 ≡ some (record { result = ok 7; calls = 3; delays = 100 ∷ 200 ∷ [] })
unfolding with_retry is_transient_error
flaky_retried = refl

with_retry_total_example : (r : Run ℕ) × (with_retry flaky 3 100 2 ≡ some r) × IsRun flaky 3 100 2 r
with_retry_total_example = with_retry_total flaky 3 100 2
