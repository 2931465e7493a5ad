-- ===== src/Sdk/Mock/Types.antt =====
-- The state of `SwiftRemitMockClient` (`sdk/src/testing/mock-client.ts`), the records of
-- `sdk/src/types.ts` that it holds, and its private helpers. Addresses and other texts are lists of
-- code units, `bigint` amounts are integers; identifiers, times and basis points are natural numbers.
-- A transaction hash is the number of the counter that `fakeTxHash` prints.
use swift_remit.Prelude.{
  ℕ, ◌+◌, ◌-◌, ◌*◌, ◌/◌, Bool, true, false, not, Option, none, some, List, [], ◌++◌,
  ◌==◌ as nat_beq, if◌then◌else◌,
}
use swift_remit.Prelude.Int.{ℤ, pos, negsuc, sub_ℕ}
use swift_remit.Prelude.Dict.{Text, text_eq, nat_eq, Dict, lookup, insert}
use swift_remit.Prelude.Strings.{text, decimal}
use swift_remit.Prelude.Result.{ok, ⊤, Action, gets, modify, throw_if, or_throw, ◌>>=◌}
use swift_remit.Sdk.Codes.{remittance_not_found, invalid_status}
use swift_remit.Sdk.Errors.{SwiftRemitError, swift_remit_error}

-- `RemittanceStatus`
pub data Status : Type 0 where
  pending processing completed cancelled failed disputed : Status

pub Status-discrete : Discrete Status
Status-discrete = hlevel

unfoldable pub status_name : Status → Text
status_name pending = text "Pending"
status_name processing = text "Processing"
status_name completed = text "Completed"
status_name cancelled = text "Cancelled"
status_name failed = text "Failed"
status_name disputed = text "Disputed"

pub record Remittance : Type 0 where
  pub id : ℕ
  pub sender : Text
  pub agent : Text
  pub amount : ℤ
  pub fee : ℤ
  pub status : Status
  pub expiry : Option ℕ
  pub token : Text
  pub created_at : ℕ
  pub failed_at : Option ℕ
  pub expires_at : Option ℕ

pub record AgentStats : Type 0 where
  pub total_settlements : ℕ
  pub failed_settlements : ℕ
  pub total_settlement_time : ℕ
  pub dispute_count : ℕ
  pub success_rate_bps : ℕ
  pub last_active_timestamp : ℕ

pub record DailyLimit : Type 0 where
  pub limit : ℤ
  pub used : ℤ
  pub resets_at : ℕ

-- The fields of the class, and the counter of `fakeTxHash`, which all clients share.
pub record Client : Type 0 where
  pub remittances : Dict ℕ Remittance
  pub agents : List Text
  pub tokens : List Text
  pub admins : List Text
  pub agent_stats : Dict Text AgentStats
  pub daily_limits : Dict Text DailyLimit
  pub next_id : ℕ
  pub fee_bps : ℕ
  pub protocol_fee_bps : ℕ
  pub paused : Bool
  pub total_volume : ℤ
  pub platform_fees : ℤ
  pub integrator_fees : ℤ
  pub tx_counter : ℕ

-- `MockTxResult`
pub record MockTxResult : Type 0 where
  pub tx_hash : ℕ
  pub id : Option ℕ

abbrev pub Call : Type 0 → Type 0
Call A = Action Client SwiftRemitError A

abbrev or_default : Option ℕ → ℕ → ℕ
or_default none d = d
or_default (some n) d = n

-- The constructor, with `options.feeBps` and `options.protocolFeeBps`; the module's counter is
-- whatever earlier clients have left.
unfoldable pub new_client : Option ℕ → Option ℕ → ℕ → Client
new_client fee protocol counter = record {
  remittances = [];
  agents = [];
  tokens = [];
  admins = [];
  agent_stats = [];
  daily_limits = [];
  next_id = 1;
  fee_bps = or_default fee 100;
  protocol_fee_bps = or_default protocol 0;
  paused = false;
  total_volume = pos 0;
  platform_fees = pos 0;
  integrator_fees = pos 0;
  tx_counter = counter;
}

-- `fakeTxHash()`, and the result `{ txHash, id }`.
unfoldable pub fake_tx : Option ℕ → Call MockTxResult
fake_tx i c =
    (ok (record { tx_hash = c.tx_counter + 1; id = i }), record c { tx_counter = c.tx_counter + 1 })

-- `(amount * BigInt(bps)) / 10_000n`: the quotient of a `bigint` is cut towards zero.
unfoldable pub bps_share : ℤ → ℕ → ℤ
bps_share (pos n) bps = pos (n * bps / 10000)
bps_share (negsuc n) bps = sub_ℕ 0 ((n + 1) * bps / 10000)

-- `_requireRemittance`
unfoldable pub require_remittance : ℕ → Call Remittance
require_remittance i = do
  or_throw (← gets (λ c. lookup i c.remittances))
      (swift_remit_error remittance_not_found (decimal i))

abbrev pub same_status : Status → Status → Bool
same_status pending pending = true
same_status processing processing = true
same_status completed completed = true
same_status cancelled cancelled = true
same_status failed failed = true
same_status disputed disputed = true
same_status _ _ = false

-- `_requireStatus`
unfoldable pub require_status : Remittance → Status → Call ⊤
require_status r expected = throw_if (not (same_status r.status expected)) (
    swift_remit_error invalid_status
      (text "Expected " ++ status_name expected ++ text ", got " ++ status_name r.status))

-- `this.remittances.set(r.id, r)`
unfoldable pub put_remittance : ℕ → Remittance → Call ⊤
put_remittance i r = modify (λ c. record c { remittances = insert i r c.remittances })

-- `Math.round((good / total) * 10_000)`, of the exact quotient: halves are rounded up.
unfoldable pub success_rate : ℕ → ℕ → ℕ
success_rate good total = (2 * (good * 10000) + total) / (2 * total)

-- The new statistics of an agent after a settlement.
unfoldable pub bumped : AgentStats → Bool → ℕ → AgentStats
unfolding success_rate
bumped s success now =
    let total = s.total_settlements + 1 in
    let failed_count = if success then s.failed_settlements else s.failed_settlements + 1 in
    record s {
      total_settlements = total;
      failed_settlements = failed_count;
      success_rate_bps =
          if nat_beq total 0 then 10000 else success_rate (total - failed_count) total;
      last_active_timestamp = now;
    }

-- `_bumpAgentStats`: an agent with no statistics is passed over. The time is in seconds.
unfoldable pub bump_agent_stats : Text → Bool → ℕ → Call ⊤
bump_agent_stats agent success now = modify λ c. elim (lookup agent c.agent_stats) [
  | none ↦ c
  | some s ↦ record c { agent_stats = insert agent (bumped s success now) c.agent_stats }
]
