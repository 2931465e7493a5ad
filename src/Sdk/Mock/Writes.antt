-- ===== src/Sdk/Mock/Writes.antt =====
-- The methods of `SwiftRemitMockClient` that change its state. `Date.now()` is the argument `now_ms`,
-- in milliseconds. Each method runs to its end without a pause, but for the two that loop: those
-- await each step, and are run here with nothing in between.
use swift_remit.Prelude.{
  ℕ, ◌+◌, ◌/◌, Bool, true, false, not, Option, none, some, List, [], ◌∷◌, leb, if◌then◌else◌,
}
use swift_remit.Prelude.Int.{ℤ, pos, negsuc, ◌+ℤ◌}
use swift_remit.Prelude.Dict.{Text, text_eq, nat_eq, has, insert, contains, add, remove}
use swift_remit.Prelude.Strings.{text, decimal_ℤ}
use swift_remit.Prelude.Result.{⊤, pure, gets, modify, throw_if, ◌>>=◌, ◌>>◌}
use swift_remit.Sdk.Codes.{
  agent_not_registered, invalid_amount, no_fees_to_withdraw, agent_already_registered,
}
use swift_remit.Sdk.Errors.{swift_remit_error}
use swift_remit.Sdk.Mock.Types.{
  Status, pending, completed, cancelled, failed, disputed, Remittance, AgentStats, Client,
  MockTxResult, Call, fake_tx, bps_share, require_remittance, require_status, put_remittance,
  bump_agent_stats,
}
use swift_remit.Sdk.Mock.Reads.{limit_key, is_zero}

unfoldable pub fresh_stats : ℕ → AgentStats
fresh_stats now_ms = record {
  total_settlements = 0;
  failed_settlements = 0;
  total_settlement_time = 0;
  dispute_count = 0;
  success_rate_bps = 10000;
  last_active_timestamp = now_ms;
}

unfoldable pub seed_agent : Text → ℕ → Client → Client
unfolding fresh_stats
seed_agent address now_ms c = record c {
  agents = add address c.agents;
  agent_stats =
      if has address c.agent_stats
      then c.agent_stats
      else insert address (fresh_stats now_ms) c.agent_stats;
}

unfoldable pub seed_token : Text → Client → Client
seed_token address c = record c { tokens = add address c.tokens }

unfoldable pub seed_admin : Text → Client → Client
seed_admin address c = record c { admins = add address c.admins }

unfoldable pub seed_remittance : Remittance → Client → Client
seed_remittance r c = record c {
  remittances = insert r.id r c.remittances;
  next_id = if leb c.next_id r.id then r.id + 1 else c.next_id;
}

unfoldable pub set_fee_bps : ℕ → Client → Client
set_fee_bps bps c = record c { fee_bps = bps }

-- `CreateRemittanceParams`
pub record CreateParams : Type 0 where
  pub sender : Text
  pub agent : Text
  pub amount : ℤ
  pub token : Option Text
  pub expiry : Option ℕ

abbrev pub not_positive : ℤ → Bool
not_positive (pos n) = leb n 0
not_positive (negsuc n) = true

abbrev or_empty : Option Text → Text
or_empty none = []
or_empty (some t) = t

abbrev expiry_time : Option ℕ → ℕ → Option ℕ
expiry_time none now = none
expiry_time (some e) now = some (now + e)

-- What `createRemittance` stores.
unfoldable pub new_remittance : CreateParams → ℕ → ℕ → ℕ → Remittance
new_remittance p i bps now = record {
  id = i;
  sender = p.sender;
  agent = p.agent;
  amount = p.amount;
  fee = bps_share p.amount bps;
  status = pending;
  expiry = p.expiry;
  token = or_empty p.token;
  created_at = now;
  failed_at = none;
  expires_at = expiry_time p.expiry now;
}

unfoldable pub create_remittance : CreateParams → ℕ → Call MockTxResult
unfolding new_remittance put_remittance fake_tx
create_remittance p now_ms = do
  registered ← gets (λ c. contains p.agent c.agents)
  throw_if (not registered) (swift_remit_error agent_not_registered p.agent)
  throw_if (not_positive p.amount) (swift_remit_error invalid_amount (decimal_ℤ p.amount))
  i ← gets (λ c. c.next_id)
  modify (λ c. record c { next_id = c.next_id + 1 })
  bps ← gets (λ c. c.fee_bps)
  put_remittance i (new_remittance p i bps (now_ms / 1000))
  fake_tx (some i)

-- `BatchCreateEntry`
pub record BatchEntry : Type 0 where
  pub agent : Text
  pub amount : ℤ
  pub expiry : Option ℕ

abbrev pub entry_params : Text → BatchEntry → CreateParams
entry_params sender e = record {
  sender = sender;
  agent = e.agent;
  amount = e.amount;
  token = none;
  expiry = e.expiry;
}

-- The loop of `batchCreateRemittances`.
unfoldable pub create_all : Text → List BatchEntry → ℕ → Call ⊤
create_all sender [] now_ms = pure tt
create_all sender (e ∷ es) now_ms =
    create_remittance (entry_params sender e) now_ms >> create_all sender es now_ms

unfoldable pub batch_create_remittances : Text → List BatchEntry → ℕ → Call MockTxResult
unfolding create_all fake_tx
batch_create_remittances sender entries now_ms = create_all sender entries now_ms >> fake_tx none

unfoldable pub confirm_payout : Text → ℕ → ℕ → Call MockTxResult
unfolding require_remittance require_status put_remittance bump_agent_stats fake_tx
confirm_payout agent i now_ms = do
  r ← require_remittance i
  require_status r pending
  modify (λ c. record c { platform_fees = c.platform_fees +ℤ r.fee })
  modify (λ c. record c { total_volume = c.total_volume +ℤ r.amount })
  put_remittance i (record r { status = completed })
  bump_agent_stats agent true (now_ms / 1000)
  fake_tx none

unfoldable pub confirm_partial_payout : ℕ → ℤ → Call MockTxResult
unfolding require_remittance require_status fake_tx
confirm_partial_payout i amount = do
  r ← require_remittance i
  require_status r pending
  fake_tx none

-- The shape of the methods that only move a remittance from one status to another.
unfoldable pub move_status : ℕ → Status → Status → Call MockTxResult
unfolding require_remittance require_status put_remittance fake_tx
move_status i from to = do
  r ← require_remittance i
  require_status r from
  put_remittance i (record r { status = to })
  fake_tx none

unfoldable pub cancel_remittance : ℕ → Call MockTxResult
unfolding move_status
cancel_remittance i = move_status i pending cancelled

unfoldable pub mark_failed : Text → ℕ → ℕ → Call MockTxResult
unfolding require_remittance require_status put_remittance bump_agent_stats fake_tx
mark_failed agent i now_ms = do
  r ← require_remittance i
  require_status r pending
  put_remittance i (record r { status = failed; failed_at = some (now_ms / 1000) })
  bump_agent_stats agent false (now_ms / 1000)
  fake_tx none

unfoldable pub raise_dispute : ℕ → Call MockTxResult
unfolding move_status
raise_dispute i = move_status i failed disputed

unfoldable pub resolve_dispute : ℕ → Bool → Call MockTxResult
unfolding move_status
resolve_dispute i in_favour_of_sender =
    move_status i disputed (if in_favour_of_sender then cancelled else completed)

unfoldable pub expire_remittance : ℕ → Call MockTxResult
unfolding move_status
expire_remittance i = move_status i pending cancelled

-- The loop of `processExpiredRemittances`.
unfoldable pub expire_all : List ℕ → Call ⊤
expire_all [] = pure tt
expire_all (i ∷ is) = expire_remittance i >> expire_all is

unfoldable pub process_expired_remittances : List ℕ → Call MockTxResult
unfolding expire_all fake_tx
process_expired_remittances ids = expire_all ids >> fake_tx none

unfoldable pub withdraw_fees : Call MockTxResult
unfolding fake_tx
withdraw_fees = do
  empty ← gets (λ c. is_zero c.platform_fees)
  throw_if empty (swift_remit_error no_fees_to_withdraw (text "0"))
  modify (λ c. record c { platform_fees = pos 0 })
  fake_tx none

unfoldable pub withdraw_integrator_fees : Call MockTxResult
unfolding fake_tx
withdraw_integrator_fees = modify (λ c. record c { integrator_fees = pos 0 }) >> fake_tx none

unfoldable pub register_agent : Text → ℕ → Call MockTxResult
unfolding seed_agent fake_tx
register_agent agent now_ms = do
  registered ← gets (λ c. contains agent c.agents)
  throw_if registered (swift_remit_error agent_already_registered agent)
  modify (seed_agent agent now_ms)
  fake_tx none

unfoldable pub remove_agent : Text → Call MockTxResult
unfolding fake_tx
remove_agent agent = do
  registered ← gets (λ c. contains agent c.agents)
  throw_if (not registered) (swift_remit_error agent_not_registered agent)
  modify (λ c. record c { agents = remove agent c.agents })
  fake_tx none

unfoldable pub update_fee : ℕ → Call MockTxResult
unfolding fake_tx
update_fee bps = modify (λ c. record c { fee_bps = bps }) >> fake_tx none

unfoldable pub set_daily_limit : Text → Text → ℤ → ℕ → Call MockTxResult
unfolding limit_key fake_tx
set_daily_limit currency country limit now_ms = do
  modify (λ c. record c {
    daily_limits =
        insert (limit_key (text "*") currency country)
          (record { limit = limit; used = pos 0; resets_at = now_ms + 86400000 }) c.daily_limits;
  })
  fake_tx none

unfoldable pub add_admin : Text → Call MockTxResult
unfolding fake_tx
add_admin new_admin = modify (λ c. record c { admins = add new_admin c.admins }) >> fake_tx none

-- `setAgentDailyCap`, `extendStorageTtl`, `initialize`, `voteOnProposal`, `executeProposal`: they
-- do nothing but name a transaction.
unfoldable pub acknowledge : Call MockTxResult
unfolding fake_tx
acknowledge = fake_tx none
