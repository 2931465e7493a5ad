-- ===== src/Sdk/Mock/Atomic.antt =====
-- What a call that throws leaves behind: nothing, but for the two calls that loop.
use mathlib.Core.Path.{subst}
use swift_remit.Prelude.{
  ℕ, ◌≡◌, refl, sym, ap, ◌∙◌, inl, inr, Bool, true, false, none, List, [], ◌∷◌, ◌++◌, arith,
}
use swift_remit.Prelude.Dict.{Text, nat_eq, text_eq}
use swift_remit.Prelude.Result.{Result, ok, err, Result-cases, ⊤, ◌>>◌, >>-ok, >>-err}
use swift_remit.Sdk.Errors.{SwiftRemitError}
use swift_remit.Sdk.Mock.Types.{Client, MockTxResult, Call, fake_tx}
use swift_remit.Sdk.Mock.Writes
use swift_remit.Sdk.Mock.Ops.{Op, apply}

-- The calls without a loop.
abbrev pub is_single : Op → Bool
is_single (Op.batch_create s es) = false
is_single (Op.process_expired is) = false
is_single _ = true

abbrev Atomic : Call MockTxResult → Client → Type 0
Atomic m c = (e : SwiftRemitError) → (m c).0 ≡ err e → (m c).1 ≡ c

-- A call without a loop that throws has changed nothing, the counter of transactions included.
pub apply-Atomic :
    (op : Op) (now : ℕ) (c : Client) (e : SwiftRemitError)
    → is_single op ≡ true
    → (apply op now c).0 ≡ err e
    → (apply op now c).1 ≡ c
unfolding apply
apply-Atomic (Op.create p) now c e s h = unfold Writes.create_remittance in ground arith
apply-Atomic (Op.batch_create x es) now c e s h = cc
apply-Atomic (Op.confirm a i) now c e s h = unfold Writes.confirm_payout in ground arith
apply-Atomic (Op.confirm_partial i x) now c e s h =
    unfold Writes.confirm_partial_payout in ground arith
apply-Atomic (Op.cancel i) now c e s h = unfold Writes.cancel_remittance in ground arith
apply-Atomic (Op.mark_failed a i) now c e s h = unfold Writes.mark_failed in ground arith
apply-Atomic (Op.raise_dispute i) now c e s h = unfold Writes.raise_dispute in ground arith
apply-Atomic (Op.resolve_dispute i b) now c e s h = unfold Writes.resolve_dispute in ground arith
apply-Atomic (Op.expire i) now c e s h = unfold Writes.expire_remittance in ground arith
apply-Atomic (Op.process_expired is) now c e s h = cc
apply-Atomic Op.withdraw_fees now c e s h = unfold Writes.withdraw_fees in ground arith
apply-Atomic Op.withdraw_integrator_fees now c e s h =
    unfold Writes.withdraw_integrator_fees in ground arith
apply-Atomic (Op.register_agent a) now c e s h = unfold Writes.register_agent in ground arith
apply-Atomic (Op.remove_agent a) now c e s h = unfold Writes.remove_agent in ground arith
apply-Atomic (Op.update_fee n) now c e s h = unfold Writes.update_fee in ground arith
apply-Atomic (Op.set_daily_limit x y l) now c e s h = unfold Writes.set_daily_limit in ground arith
apply-Atomic (Op.add_admin a) now c e s h = unfold Writes.add_admin in ground arith
apply-Atomic Op.acknowledge now c e s h = unfold Writes.acknowledge in ground arith

err_inj :
    {A : Type 0} {d e : SwiftRemitError}
    → ◌≡◌ {A = Result SwiftRemitError A} (err d) (err e)
    → d ≡ e
err_inj h = cc

-- How a loop over `xs` from `c` that threw `e` has ended, in `d`: the entries before the one that
-- throws were all done, and that one changed nothing.
module _ {A : Type 0} (step : A → Call MockTxResult) (loop : List A → Call ⊤) where
  pub record Partial (xs : List A) (c d : Client) (e : SwiftRemitError) : Type 0 where
    pub done : List A
    pub failing : A
    pub rest : List A
    pub split : xs ≡ done ++ failing ∷ rest
    pub all_done : loop done c ≡ (ok tt, d)
    pub failed_at : step failing d ≡ (err e, d)

  -- The laws of a loop over a list.
  pub record IsLoop : Type 0 where
    pub nil : (c : Client) → loop [] c ≡ (ok tt, c)
    pub cons : (x : A) (xs : List A) (c : Client) → loop (x ∷ xs) c ≡ (step x >> loop xs) c
    pub atomic :
        (x : A) (c : Client) (e : SwiftRemitError) → (step x c).0 ≡ err e → (step x c).1 ≡ c

module _ {A : Type 0} {step : A → Call MockTxResult} {loop : List A → Call ⊤}
    (l : IsLoop step loop) where
  Partial-cons :
      (x : A) {xs : List A} (c : Client) {d : Client} {e : SwiftRemitError} {a : MockTxResult}
      → (step x c).0 ≡ ok a
      → Partial step loop xs (step x c).1 d e
      → Partial step loop (x ∷ xs) c d e
  Partial-cons x c h p = record {
    done = x ∷ p.done;
    failing = p.failing;
    rest = p.rest;
    split = ap (λ z. x ∷ z) p.split;
    all_done = l.cons x p.done c ∙ (>>-ok (step x) (loop p.done) c h ∙ p.all_done);
    failed_at = p.failed_at;
  }

  Partial-first :
      (x : A) (xs : List A) (c : Client) {e : SwiftRemitError}
      → (step x c).0 ≡ err e
      → Partial step loop (x ∷ xs) c c e
  Partial-first x xs c {e} h = record {
    done = [];
    failing = x;
    rest = xs;
    split = refl;
    all_done = l.nil c;
    failed_at = λ i. (h i, l.atomic x c e h i);
  }

  loop-Partial :
      (xs : List A) (c : Client) (e : SwiftRemitError)
      → (loop xs c).0 ≡ err e
      → Partial step loop xs c (loop xs c).1 e
  loop-Partial [] c e h = absurd (cc (l.nil c))
  loop-Partial (x ∷ xs) c e h = elim (Result-cases (step x c).0) [
    | inl (a, ok_x) ↦
        let on = l.cons x xs c ∙ >>-ok (step x) (loop xs) c ok_x in
        subst (λ d. Partial step loop (x ∷ xs) c d e) (ap (λ z. z.1) (sym on))
          (Partial-cons x c ok_x (loop-Partial xs (step x c).1 e (ap (λ z. z.0) (sym on) ∙ h)))
    | inr (d, err_x) ↦
        let out = l.cons x xs c ∙ >>-err (step x) (loop xs) c err_x in
        let same : d ≡ e = err_inj (ap (λ z. z.0) (sym out) ∙ h) in
        subst (λ z. Partial step loop (x ∷ xs) c z e)
          (sym (l.atomic x c d err_x) ∙ ap (λ z. z.1) (sym out))
          (Partial-first x xs c (err_x ∙ ap err same))
  ]

-- The body of the loop of `batchCreateRemittances`, and the loop.
abbrev pub create_entry : Text → ℕ → Writes.BatchEntry → Call MockTxResult
create_entry sender now x = Writes.create_remittance (Writes.entry_params sender x) now

abbrev pub create_entries : Text → ℕ → List Writes.BatchEntry → Call ⊤
create_entries sender now xs = Writes.create_all sender xs now

create_all-IsLoop :
    (sender : Text) (now : ℕ) → IsLoop (create_entry sender now) (create_entries sender now)
unfolding Writes.create_all
create_all-IsLoop sender now = record {
  nil = λ c. refl;
  cons = λ x xs c. refl;
  atomic = λ x c e h.
      unfold apply in apply-Atomic (Op.create (Writes.entry_params sender x)) now c e refl h;
}

expire_all-IsLoop : IsLoop Writes.expire_remittance Writes.expire_all
unfolding Writes.expire_all
expire_all-IsLoop = record {
  nil = λ c. refl;
  cons = λ x xs c. refl;
  atomic = λ x c e h. unfold apply in apply-Atomic (Op.expire x) 0 c e refl h;
}

-- The last line of a call that loops never throws.
loop_threw :
    (m : Call ⊤) (c : Client) (e : SwiftRemitError)
    → ((m >> fake_tx none) c).0 ≡ err e
    → ((m c).0 ≡ err e) × (((m >> fake_tx none) c).1 ≡ (m c).1)
unfolding fake_tx
loop_threw m c e h = elim (Result-cases (m c).0) [
  | inl (a, fine) ↦ absurd (cc)
  | inr (d, bad) ↦
      let out = >>-err m (fake_tx none) c bad in
      (bad ∙ ap err (err_inj (ap (λ z. z.0) (sym out) ∙ h)), ap (λ z. z.1) out)
]

-- `batchCreateRemittances` is not atomic. When it throws, all entries before the first that is
-- refused have been created, that one and the later ones have not.
pub batch_create-Partial :
    (sender : Text) (entries : List Writes.BatchEntry) (now : ℕ) (c : Client) (e : SwiftRemitError)
    → (Writes.batch_create_remittances sender entries now c).0 ≡ err e
    → Partial
        (create_entry sender now)
        (create_entries sender now)
        entries
        c
        (Writes.batch_create_remittances sender entries now c).1
        e
unfolding Writes.batch_create_remittances
batch_create-Partial sender entries now c e h =
    let (threw, same) = loop_threw (Writes.create_all sender entries now) c e h in
    subst (λ d. Partial (create_entry sender now) (create_entries sender now) entries c d e)
      (sym same) (loop-Partial (create_all-IsLoop sender now) entries c e threw)

-- Nor is `processExpiredRemittances`: it stops at the first remittance that is not pending, and
-- those before it stay cancelled.
pub process_expired-Partial :
    (ids : List ℕ) (c : Client) (e : SwiftRemitError)
    → (Writes.process_expired_remittances ids c).0 ≡ err e
    → Partial Writes.expire_remittance Writes.expire_all ids c
        (Writes.process_expired_remittances ids c).1
        e
unfolding Writes.process_expired_remittances
process_expired-Partial ids c e h =
    let (threw, same) = loop_threw (Writes.expire_all ids) c e h in
    subst (λ d. Partial Writes.expire_remittance Writes.expire_all ids c d e) (sym same)
      (loop-Partial expire_all-IsLoop ids c e threw)
