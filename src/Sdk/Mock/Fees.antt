-- ===== src/Sdk/Mock/Fees.antt =====
-- The fee that is charged, the fee that is estimated, and the daily limits.
use swift_remit.Prelude.{ℕ, ◌+◌, ◌*◌, ◌/◌, ◌≤◌, ◌≡◌, refl, ap, true, none, some, [], arith}
use swift_remit.Prelude.Int.{ℤ, pos, ◌+ℤ◌, ◌-ℤ◌, ◌≤ℤ◌}
use swift_remit.Prelude.Dict.{Text, nat_eq, text_eq, lookup-insert_self}
use swift_remit.Prelude.Result.{ok}
use swift_remit.Sdk.Mock.Types.{Remittance, pending, Client}
use swift_remit.Sdk.Mock.Reads.{estimate_fee, get_remittance}
use swift_remit.Sdk.Mock.Writes.{CreateParams, create_remittance, new_remittance}
use swift_remit.Sdk.Mock.Effects.{accepts, create_remittance_done}

mul-le : (n a b : ℕ) → a ≤ b → n * a ≤ n * b
mul-le n a b h = grind arith

-- The fee of a nonnegative amount lies between zero and the amount, at up to 10000 basis points.
share-le : (n bps : ℕ) → bps ≤ 10000 → n * bps / 10000 ≤ n
share-le n bps h = let scaled = mul-le n bps 10000 h in omega arith

shares-le : (n a b : ℕ) → a + b ≤ 10000 → n * a / 10000 + n * b / 10000 ≤ n
shares-le n a b h = let scaled = mul-le n (a + b) 10000 h in omega arith

-- The parts of an estimate add up to the amount. For an amount that is not negative and basis points
-- that are together at most 10000, none of the parts is negative.
estimate_fee_lem :
    (n : ℕ) (c : Client)
    → c.fee_bps + c.protocol_fee_bps ≤ 10000
    → let e = estimate_fee (pos n) c in
      (e.net_amount +ℤ e.total_fee ≡ pos n)
      × (pos 0 ≤ℤ e.platform_fee)
      × (pos 0 ≤ℤ e.protocol_fee)
      × (pos 0 ≤ℤ e.net_amount)
unfolding estimate_fee ◌+ℤ◌ ◌-ℤ◌
estimate_fee_lem n c h = ground (arith, shares-le n c.fee_bps c.protocol_fee_bps h)

-- A remittance on the terms of a call, at a number, a fee and a time in seconds.
pub record OnTerms (p : CreateParams) (i : ℕ) (fee : ℤ) (now : ℕ) (r : Remittance) : Type 0 where
  pub id : r.id ≡ i
  pub status : r.status ≡ pending
  pub sender : r.sender ≡ p.sender
  pub agent : r.agent ≡ p.agent
  pub amount : r.amount ≡ p.amount
  pub fee_held : r.fee ≡ fee
  pub token_given : (t : Text) → p.token ≡ some t → r.token ≡ t
  pub no_token : p.token ≡ none → r.token ≡ []
  pub expiry : r.expiry ≡ p.expiry
  pub created_at : r.created_at ≡ now
  pub expires_in : (e : ℕ) → p.expiry ≡ some e → r.expires_at ≡ some (now + e)
  pub expires_never : p.expiry ≡ none → r.expires_at ≡ none
  pub failed_at : r.failed_at ≡ none

new_remittance-OnTerms :
    (p : CreateParams) (i bps now : ℕ)
    → OnTerms p i (new_remittance p i bps now).fee now (new_remittance p i bps now)
unfolding new_remittance
new_remittance-OnTerms p i bps now = record {
  id = refl;
  status = refl;
  sender = refl;
  agent = refl;
  amount = refl;
  fee_held = refl;
  token_given = λ t h. rw h refl;
  no_token = λ h. rw h refl;
  expiry = refl;
  created_at = refl;
  expires_in = λ e h. rw h refl;
  expires_never = λ h. rw h refl;
  failed_at = refl;
}

-- A remittance that is accepted can be read back under the number that the call returns. It is pending, has
-- the sender, agent, amount, token and expiry of the call (no token is the empty text), was created
-- at the second of the call, expires that much later if the call has an expiry and never otherwise, and
-- its fee is the platform fee that was estimated before.
pub create-get :
    (p : CreateParams) (now : ℕ) (c : Client)
    → accepts p c ≡ true
    → (r : Remittance) × ((create_remittance p now c).0
        ≡ ok (record { tx_hash = c.tx_counter + 1; id = some c.next_id }))
      × ((get_remittance c.next_id (create_remittance p now c).1).0 ≡ ok r)
      × OnTerms p c.next_id (estimate_fee p.amount c).platform_fee (now / 1000) r
unfolding get_remittance estimate_fee new_remittance
create-get p now c h = (
  new_remittance p c.next_id c.fee_bps (now / 1000),
  ap (λ z. z.0) (create_remittance_done p now c h),
  rw (create_remittance_done p now c h) (rw (lookup-insert_self) refl),
  new_remittance-OnTerms p c.next_id c.fee_bps (now / 1000),
)
