-- ===== src/Sdk/Mock/Lifecycle.antt =====
-- What can become of a remittance once it is there.
use mathlib.Core.Path.{subst}
use swift_remit.Prelude.{
  ℕ, ◌≤◌, ◌≡◌, refl, sym, ◌∙◌, inl, inr, Bool, true, false, Option, some, List, ◌==◌, Bool-cases,
  ==_iff,
}
use swift_remit.Prelude.Int.{ℤ}
use swift_remit.Prelude.Dict.{nat_eq, lookup, insert, lookup-insert}
use swift_remit.Sdk.Mock.Types.{Status, pending, completed, cancelled, failed, Remittance, Client}
use swift_remit.Sdk.Mock.Ledger.{◌⟶◌, cancel, dispute, refund, release, Step, Steps, Books}
use swift_remit.Sdk.Mock.Ledger.Balance.{Steps-Books}
use swift_remit.Sdk.Mock.Ops.{Use, use_all}
use swift_remit.Sdk.Mock.Histories.{AllFit, use_all-Steps}

-- The diagram of the statuses, with paths through it.
pub data Edge : Status → Status → Type 0 where
  pay : Edge pending completed
  fail : Edge pending failed
  other : {s t : Status} → s ⟶ t → Edge s t

pub data Reaches (s : Status) : Status → Type 0 where
  here : Reaches s s
  next : {t u : Status} → Reaches s t → Edge t u → Reaches s u

-- The terms on which a remittance was created stay as they are, and its status moves along the
-- diagram.
pub record Continues (r new : Remittance) : Type 0 where
  pub id : new.id ≡ r.id
  pub sender : new.sender ≡ r.sender
  pub agent : new.agent ≡ r.agent
  pub amount : new.amount ≡ r.amount
  pub fee : new.fee ≡ r.fee
  pub expiry : new.expiry ≡ r.expiry
  pub token : new.token ≡ r.token
  pub created_at : new.created_at ≡ r.created_at
  pub expires_at : new.expires_at ≡ r.expires_at
  pub status : Reaches r.status new.status

Continues-refl : (r : Remittance) → Continues r r
Continues-refl r = record {
  id = refl;
  sender = refl;
  agent = refl;
  amount = refl;
  fee = refl;
  expiry = refl;
  token = refl;
  created_at = refl;
  expires_at = refl;
  status = here;
}

-- A change of the status along an edge, and of the time of failure.
Continues-move :
    (r old : Remittance) (to : Status) (f : Option ℕ)
    → Continues r old
    → Edge old.status to
    → Continues r (record old { status = to; failed_at = f })
Continues-move r old to f k e = record {
  id = k.id;
  sender = k.sender;
  agent = k.agent;
  amount = k.amount;
  fee = k.fee;
  expiry = k.expiry;
  token = k.token;
  created_at = k.created_at;
  expires_at = k.expires_at;
  status = next k.status e;
}

-- What became of `r`, which stood under `i`, in `d`.
abbrev pub Followed : ℕ → Remittance → Client → Type 0
Followed i r d = (new : Remittance) × (lookup i d.remittances ≡ some new) × Continues r new

-- An update of a key follows every remittance, if it does so under that key.
insert-Followed :
    (i k : ℕ) (r new old : Remittance) (c d : Client)
    → d.remittances ≡ insert k new c.remittances
    → lookup i c.remittances ≡ some old
    → Continues r old
    → (k ≡ i → Continues r new)
    → Followed i r d
insert-Followed i k r new old c d m e keep change = elim (Bool-cases (k == i)) [
  | inl same ↦ (new, rw (m, lookup-insert, same) refl, change ((==_iff k i).0 same))
  | inr apart ↦ (old, rw (m, lookup-insert, apart) e, keep)
]

-- The entry that a step replaces is the one that was followed so far.
moved :
    (i j : ℕ) (r x y : Remittance) (to : Status) (f : Option ℕ) (c : Client)
    → lookup j c.remittances ≡ some y
    → lookup i c.remittances ≡ some x
    → Continues r x
    → Edge y.status to
    → j ≡ i
    → Continues r (record y { status = to; failed_at = f })
moved i j r x y to f c found e k edge same =
    let eq : x ≡ y = cc in Continues-move r y to f (subst (Continues r) eq k) edge

Step-Followed :
    (c d : Client) (w out : ℤ) (i : ℕ) (r : Remittance)
    → Books c w
    → Step c d out
    → Followed i r c
    → Followed i r d
Step-Followed c d w out i r b (Step.idle m n v f o) (x, e, k) = (x, rw m e, k)
Step-Followed c d w out i r b (Step.withdraw m n v f o) (x, e, k) = (x, rw m e, k)
Step-Followed c d w out i r b (Step.create y j s t m n v f o) (x, e, k) =
    insert-Followed i y.id r y x c d m e k
      (λ same. cc (sym e ∙ b.fresh i (subst (λ z. c.next_id ≤ z) same j)))
Step-Followed c d w out i r b (Step.settle j y found s m n v f o) (x, e, k) =
    insert-Followed i j r _ x c d m e k (
      moved i j r x y completed y.failed_at c found e k (subst (λ z. Edge z completed) (sym s) pay))
Step-Followed c d w out i r b (Step.move j y to found s m n v f o) (x, e, k) =
    insert-Followed i j r _ x c d m e k (moved i j r x y to y.failed_at c found e k (other s))
Step-Followed c d w out i r b (Step.fail j y now found s m n v f o) (x, e, k) =
    insert-Followed i j r _ x c d m e k
      (moved i j r x y failed (some now) c found e k (subst (λ z. Edge z failed) (sym s) fail))

Steps-Followed :
    {c d : Client} {v : ℤ} (w : ℤ) (i : ℕ) (r : Remittance)
    → Books c w
    → lookup i c.remittances ≡ some r
    → Steps c d v
    → Followed i r d
Steps-Followed w i r b e Steps.here = (r, e, Continues-refl r)
Steps-Followed w i r b e (Steps.next steps step) =
    Step-Followed _ _ _ _ i r (Steps-Books w b steps) step (Steps-Followed w i r b e steps)

-- A remittance of a client with balanced books is never lost or overwritten by calls, nor by seeding that
-- puts in remittances only under numbers not reached yet, not paid out, and with a time of failure as
-- their status wants it. After any such uses it is still there under its number, with the same parties,
-- amount, fee, token and times of creation and expiry, and its status has moved along the edges of
-- the diagram.
pub run-Continues :
    (us : List Use) (c : Client) (w : ℤ) (i : ℕ) (r : Remittance)
    → AllFit us c
    → Books c w
    → lookup i c.remittances ≡ some r
    → Followed i r (use_all us c).0
run-Continues us c w i r fit b e = Steps-Followed w i r b e (use_all-Steps us c fit)

abbrev pub is_final : Status → Bool
is_final completed = true
is_final cancelled = true
is_final _ = false

no_Edge : {s t : Status} → Edge s t → is_final s ≡ true → ⊥
no_Edge pay h = cc
no_Edge fail h = cc
no_Edge (other cancel) h = cc
no_Edge (other dispute) h = cc
no_Edge (other refund) h = cc
no_Edge (other release) h = cc

final_stays : {s t : Status} → Reaches s t → is_final s ≡ true → t ≡ s
final_stays here h = refl
final_stays (next path edge) h =
    absurd (no_Edge edge (subst (λ z. is_final z ≡ true) (sym (final_stays path h)) h))

-- A completed or cancelled remittance keeps that status and its amount, whatever is called afterwards, also
-- with such seeding in between.
pub run_final :
    (us : List Use) (c : Client) (w : ℤ) (i : ℕ) (r : Remittance)
    → AllFit us c
    → Books c w
    → lookup i c.remittances ≡ some r
    → is_final r.status ≡ true
    → (new : Remittance) × (lookup i (use_all us c).0.remittances ≡ some new)
      × (new.status ≡ r.status)
      × (new.amount ≡ r.amount)
run_final us c w i r fit b e h =
    let (new, found, k) = run-Continues us c w i r fit b e in
    (new, found, final_stays k.status h, k.amount)
