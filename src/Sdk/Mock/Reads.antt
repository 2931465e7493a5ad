-- ===== src/Sdk/Mock/Reads.antt =====
-- The methods of `SwiftRemitMockClient` that change nothing. `getAgentStats` hands out the stored
-- object itself, so a caller sees later settlements through it; here it is the value at the call.
use swift_remit.Prelude.{
  ℕ, ◌+◌, ◌/◌, Bool, true, false, not, Option, none, some, List, [], map, filter, take, drop,
  length, if◌then◌else◌, ◌++◌, ◌==◌ as nat_beq,
}
use swift_remit.Prelude.Int.{ℤ, pos, ◌+ℤ◌, ◌-ℤ◌}
use swift_remit.Prelude.Dict.{Text, text_eq, nat_eq, lookup, has, values, contains, ◌==◌}
use swift_remit.Prelude.Strings.{text, decimal}
use swift_remit.Prelude.Result.{pure, gets, throw, throw_if, or_throw, ◌>>=◌, ◌>>◌}
use swift_remit.Sdk.Codes.{remittance_not_found, agent_not_registered, proposal_not_found}
use swift_remit.Sdk.Errors.{swift_remit_error}
use swift_remit.Sdk.Mock.Types.{
  Remittance, AgentStats, DailyLimit, Client, Call, require_remittance, bps_share,
}

-- The object is copied, which a value is anyway.
unfoldable pub get_remittance : ℕ → Call Remittance
unfolding require_remittance
get_remittance = require_remittance

unfoldable pub get_all_remittances : Client → List Remittance
get_all_remittances c = values c.remittances

unfoldable pub get_remittances_by_sender : Text → ℕ → ℕ → Client → List ℕ
get_remittances_by_sender sender offset limit c =
    take limit
      (drop offset (map (λ r. r.id) (filter (λ r. r.sender == sender) (values c.remittances))))

unfoldable pub get_accumulated_fees : Client → ℤ
get_accumulated_fees c = c.platform_fees

unfoldable pub get_accumulated_integrator_fees : Client → ℤ
get_accumulated_integrator_fees c = c.integrator_fees

unfoldable pub is_agent_registered : Text → Client → Bool
is_agent_registered agent c = contains agent c.agents

unfoldable pub is_token_whitelisted : Text → Client → Bool
is_token_whitelisted token c = contains token c.tokens

unfoldable pub get_platform_fee_bps : Client → ℕ
get_platform_fee_bps c = c.fee_bps

unfoldable pub get_remittance_count : Client → ℕ
get_remittance_count c = length c.remittances

unfoldable pub get_total_volume : Client → ℤ
get_total_volume c = c.total_volume

unfoldable pub get_admin_count : Client → ℕ
get_admin_count c = length c.admins

pub record HealthStatus : Type 0 where
  pub initialized : Bool
  pub paused : Bool
  pub admin_count : ℕ
  pub total_remittances : ℕ
  pub accumulated_fees : ℤ

unfoldable pub health : Client → HealthStatus
health c = record {
  initialized = true;
  paused = c.paused;
  admin_count = length c.admins;
  total_remittances = length c.remittances;
  accumulated_fees = c.platform_fees;
}

-- An agent that is registered has statistics, so the `!` of the source is never wrong; the error
-- of the last line stands for `undefined`.
unfoldable pub get_agent_stats : Text → Call AgentStats
get_agent_stats agent = do
  registered ← gets (λ c. contains agent c.agents)
  throw_if (not registered) (swift_remit_error agent_not_registered agent)
  or_throw (← gets (λ c. lookup agent c.agent_stats)) (swift_remit_error agent_not_registered [])

-- `Math.round(bps / 100)`
unfoldable pub get_agent_reputation : Text → Call ℕ
get_agent_reputation agent = do
  stats ←
      or_throw (← gets (λ c. lookup agent c.agent_stats))
        (swift_remit_error agent_not_registered agent)
  pure ((stats.success_rate_bps + 50) / 100)

-- `` `${sender}:${currency}:${country}` ``
unfoldable pub limit_key : Text → Text → Text → Text
limit_key sender currency country = sender ++ (text ":" ++ (currency ++ (text ":" ++ country)))

pub record DailyLimitStatus : Type 0 where
  pub limit : ℤ
  pub used : ℤ
  pub remaining : ℤ
  pub resets_at : ℕ

-- `BigInt(Number.MAX_SAFE_INTEGER)`
abbrev pub max_safe_integer : ℕ
max_safe_integer = 9007199254740991

abbrev pub is_zero : ℤ → Bool
is_zero (pos n) = nat_beq n 0
is_zero _ = false

abbrev pub limit_or_default : Option DailyLimit → ℕ → DailyLimit
limit_or_default none now_ms = record { limit = pos 0; used = pos 0; resets_at = now_ms + 86400000 }
limit_or_default (some entry) now_ms = entry

unfoldable pub get_daily_limit_status : Text → Text → Text → ℕ → Client → DailyLimitStatus
unfolding limit_key
get_daily_limit_status sender currency country now_ms c =
    let entry =
      limit_or_default (lookup (limit_key sender currency country) c.daily_limits) now_ms in
    record {
      limit = entry.limit;
      used = entry.used;
      remaining = if is_zero entry.limit then pos max_safe_integer else entry.limit -ℤ entry.used;
      resets_at = entry.resets_at;
    }

-- There is never a history: the mock keeps no partial payouts.
unfoldable pub get_partial_payout_history : ℕ → Call (List ℤ)
get_partial_payout_history i = do
  known ← gets (λ c. has i c.remittances)
  throw_if (not known) (swift_remit_error remittance_not_found (decimal i))
  pure []

unfoldable pub get_proposal : {A : Type 0} → ℕ → Call A
get_proposal i = throw (swift_remit_error proposal_not_found (decimal i))

pub record FeeEstimate : Type 0 where
  pub amount : ℤ
  pub platform_fee : ℤ
  pub protocol_fee : ℤ
  pub net_amount : ℤ
  pub total_fee : ℤ

unfoldable pub estimate_fee : ℤ → Client → FeeEstimate
unfolding bps_share
estimate_fee amount c =
    let platform = bps_share amount c.fee_bps in
    let protocol = bps_share amount c.protocol_fee_bps in
    record {
      amount = amount;
      platform_fee = platform;
      protocol_fee = protocol;
      net_amount = amount -ℤ (platform +ℤ protocol);
      total_fee = platform +ℤ protocol;
    }
