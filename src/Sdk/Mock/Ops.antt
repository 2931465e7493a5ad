-- ===== src/Sdk/Mock/Ops.antt =====
-- Calls of the client's writing methods as data, and sequences of calls, also with calls of the methods
-- that seed it in between. A test that goes on after an error is a sequence in which some calls throw.
use swift_remit.Prelude.{ℕ, Bool, List, [], ◌∷◌}
use swift_remit.Prelude.Int.{ℤ, pos, ◌+ℤ◌}
use swift_remit.Prelude.Dict.{Text}
use swift_remit.Sdk.Mock.Types.{Remittance, Client, MockTxResult, Call}
use swift_remit.Sdk.Mock.Writes

pub data Op : Type 0 where
  create : Writes.CreateParams → Op
  batch_create : Text → List Writes.BatchEntry → Op
  confirm : Text → ℕ → Op
  confirm_partial : ℕ → ℤ → Op
  cancel : ℕ → Op
  mark_failed : Text → ℕ → Op
  raise_dispute : ℕ → Op
  resolve_dispute : ℕ → Bool → Op
  expire : ℕ → Op
  process_expired : List ℕ → Op
  withdraw_fees : Op
  withdraw_integrator_fees : Op
  register_agent : Text → Op
  remove_agent : Text → Op
  update_fee : ℕ → Op
  set_daily_limit : Text → Text → ℤ → Op
  add_admin : Text → Op
  acknowledge : Op

-- The method that a call runs, at a time.
unfoldable pub apply : Op → ℕ → Call MockTxResult
apply (Op.create p) now = Writes.create_remittance p now
apply (Op.batch_create s es) now = Writes.batch_create_remittances s es now
apply (Op.confirm a i) now = Writes.confirm_payout a i now
apply (Op.confirm_partial i x) now = Writes.confirm_partial_payout i x
apply (Op.cancel i) now = Writes.cancel_remittance i
apply (Op.mark_failed a i) now = Writes.mark_failed a i now
apply (Op.raise_dispute i) now = Writes.raise_dispute i
apply (Op.resolve_dispute i b) now = Writes.resolve_dispute i b
apply (Op.expire i) now = Writes.expire_remittance i
apply (Op.process_expired is) now = Writes.process_expired_remittances is
apply Op.withdraw_fees now = Writes.withdraw_fees
apply Op.withdraw_integrator_fees now = Writes.withdraw_integrator_fees
apply (Op.register_agent a) now = Writes.register_agent a now
apply (Op.remove_agent a) now = Writes.remove_agent a
apply (Op.update_fee n) now = Writes.update_fee n
apply (Op.set_daily_limit x y l) now = Writes.set_daily_limit x y l now
apply (Op.add_admin a) now = Writes.add_admin a
apply Op.acknowledge now = Writes.acknowledge

-- The fees that a call pays out: all that has been collected, if it withdraws.
unfoldable pub paid_out : Op → Client → ℤ
paid_out Op.withdraw_fees c = c.platform_fees
paid_out _ c = pos 0

-- The methods that seed a client.
pub data Seed : Type 0 where
  agent_seed token_seed admin_seed : Text → Seed
  remittance_seed : Remittance → Seed
  fee_seed : ℕ → Seed

-- `seedAgent`, `seedToken`, `seedAdmin`, `seedRemittance`, `setFeeBps`
unfoldable pub plant : Seed → ℕ → Client → Client
plant (agent_seed a) now = Writes.seed_agent a now
plant (token_seed a) now = Writes.seed_token a
plant (admin_seed a) now = Writes.seed_admin a
plant (remittance_seed r) now = Writes.seed_remittance r
plant (fee_seed bps) now = Writes.set_fee_bps bps

pub data Use : Type 0 where
  call : Op → ℕ → Use
  seed : Seed → ℕ → Use

-- Uses one after the other: the client at the end and the fees paid out.
unfoldable pub use_all : List Use → Client → Client × ℤ
unfolding apply paid_out plant
use_all [] c = (c, pos 0)
use_all (call op now ∷ us) c = let (d, w) = use_all us (apply op now c).1 in (d, paid_out op c +ℤ w)
use_all (seed x now ∷ us) c = use_all us (plant x now c)
