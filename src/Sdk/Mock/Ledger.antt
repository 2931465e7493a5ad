-- ===== src/Sdk/Mock/Ledger.antt =====
-- The ledger that a client keeps, as an abstract machine: what one step may do to the remittances and
-- the totals, and its books.
pub mod Balance
use swift_remit.Prelude.{
  ℕ, ◌+◌, ◌≤◌, ◌≡◌, refl, ◌≢◌, ◌⊎◌, Bool, true, false, Option, none, some, [], ◌∷◌, ◌++◌, arith,
  ◌&&◌, if◌then◌else◌, Bool-cases, Option-cases, inl, inr, ==_iff,
}
use swift_remit.Prelude.Int.{ℤ, pos, ◌+ℤ◌, int_laws}
use swift_remit.Prelude.Dict.{nat_eq, Dict, lookup, has, insert, values, lookup-insert}
use swift_remit.Sdk.Mock.Types.{
  Status, pending, processing, completed, cancelled, failed, disputed, Remittance, Client,
}

-- The edges of the lifecycle other than the payout of a pending remittance.
infix 40 ◌⟶◌
pub data ◌⟶◌ : Status → Status → Type 0 where
  cancel : pending ⟶ cancelled
  dispute : failed ⟶ disputed
  refund : disputed ⟶ cancelled
  release : disputed ⟶ completed

abbrev settled : Status → Option ℕ → Bool
settled completed none = true
settled _ _ = false

-- Paid out by `confirmPayout`. A remittance that is released after a dispute is completed too, but
-- keeps the time of its failure.
abbrev pub is_settled : Remittance → Bool
is_settled r = settled r.status r.failed_at

-- A pending remittance has no time of failure, a failed or disputed one has; none is processing.
abbrev pub shape : Status → Option ℕ → Bool
shape pending none = true
shape completed _ = true
shape cancelled _ = true
shape failed (some _) = true
shape disputed (some _) = true
shape _ _ = false

-- One step from `c` to `d` that pays `out` to the fee collector.
pub data Step (c d : Client) (out : ℤ) : Type 0 where
  idle :
      d.remittances ≡ c.remittances
      → d.next_id ≡ c.next_id
      → d.total_volume ≡ c.total_volume
      → d.platform_fees ≡ c.platform_fees
      → out ≡ pos 0
      → Step c d out
  withdraw :
      d.remittances ≡ c.remittances
      → d.next_id ≡ c.next_id
      → d.total_volume ≡ c.total_volume
      → d.platform_fees ≡ pos 0
      → out ≡ c.platform_fees
      → Step c d out
  create :
      (r : Remittance)
      → c.next_id ≤ r.id
      → is_settled r ≡ false
      → shape r.status r.failed_at ≡ true
      → d.remittances ≡ insert r.id r c.remittances
      → d.next_id ≡ r.id + 1
      → d.total_volume ≡ c.total_volume
      → d.platform_fees ≡ c.platform_fees
      → out ≡ pos 0
      → Step c d out
  settle :
      (i : ℕ) (r : Remittance)
      → lookup i c.remittances ≡ some r
      → r.status ≡ pending
      → d.remittances ≡ insert i (record r { status = completed }) c.remittances
      → d.next_id ≡ c.next_id
      → d.total_volume ≡ c.total_volume +ℤ r.amount
      → d.platform_fees ≡ c.platform_fees +ℤ r.fee
      → out ≡ pos 0
      → Step c d out
  move :
      (i : ℕ) (r : Remittance) (to : Status)
      → lookup i c.remittances ≡ some r
      → r.status ⟶ to
      → d.remittances ≡ insert i (record r { status = to }) c.remittances
      → d.next_id ≡ c.next_id
      → d.total_volume ≡ c.total_volume
      → d.platform_fees ≡ c.platform_fees
      → out ≡ pos 0
      → Step c d out
  fail :
      (i : ℕ) (r : Remittance) (now : ℕ)
      → lookup i c.remittances ≡ some r
      → r.status ≡ pending
      → d.remittances ≡ insert i (record r { status = failed; failed_at = some now }) c.remittances
      → d.next_id ≡ c.next_id
      → d.total_volume ≡ c.total_volume
      → d.platform_fees ≡ c.platform_fees
      → out ≡ pos 0
      → Step c d out

-- A sequence of steps, with all that it paid out.
pub data Steps (c : Client) : Client → ℤ → Type 0 where
  here : Steps c c (pos 0)
  next : {d e : Client} {w v : ℤ} → Steps c d w → Step d e v → Steps c e (w +ℤ v)

-- The sum of a field over the settled remittances.
unfoldable pub settled_sum : (Remittance → ℤ) → Dict ℕ Remittance → ℤ
settled_sum f [] = pos 0
settled_sum f ((i, r) ∷ m) = (if is_settled r then f r else pos 0) +ℤ settled_sum f m

-- What holds of a client that has paid out `w` in fees.
pub record Books (c : Client) (w : ℤ) : Type 0 where
  pub fresh : (i : ℕ) → c.next_id ≤ i → lookup i c.remittances ≡ none
  pub entry :
      (i : ℕ) (r : Remittance)
      → lookup i c.remittances ≡ some r
      → (r.id ≡ i) × (shape r.status r.failed_at ≡ true)
  pub volume : c.total_volume ≡ settled_sum (λ r. r.amount) c.remittances
  pub fees : c.platform_fees +ℤ w ≡ settled_sum (λ r. r.fee) c.remittances
