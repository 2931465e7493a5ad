-- ===== src/Sdk/Mock/Ledger/Balance.antt =====
-- The books over the steps of the ledger.
use mathlib.Core.Path.{subst}
use native.Mathlib.Decide.{dec_lt}
use swift_remit.Prelude.{
  ℕ, ◌+◌, ◌≤◌, ◌<◌, ◌≡◌, refl, sym, ap, ◌∙◌, true, false, Option, none, some, [], ◌∷◌, arith, ◌==◌,
  if◌then◌else◌, Bool-cases, inl, inr,
}
use swift_remit.Prelude.Int.{ℤ, pos, ◌+ℤ◌, +ℤ_assoc, int_laws}
use swift_remit.Prelude.Dict.{nat_eq, Dict, lookup, insert, lookup-insert}
use swift_remit.Sdk.Mock.Types.{Status, completed, failed, Remittance, Client}
use swift_remit.Sdk.Mock.Ledger.{
  ◌⟶◌, cancel, dispute, refund, release, Step, idle, withdraw, create, settle, move, fail, Steps,
  here, next, settled, is_settled, settled_sum, shape, Books,
}

abbrev weight : (Remittance → ℤ) → Remittance → ℤ
weight f r = if is_settled r then f r else pos 0

settled_sum-insert_new :
    (f : Remittance → ℤ) (k : ℕ) (r : Remittance) (m : Dict ℕ Remittance)
    → lookup k m ≡ none
    → settled_sum f (insert k r m) ≡ settled_sum f m +ℤ weight f r
unfolding settled_sum lookup insert
settled_sum-insert_new f k r [] h = omega int_laws
settled_sum-insert_new f k r ((j, x) ∷ m) h = elim (Bool-cases (j == k)) [
  | inl e ↦ ground (arith, e)
  | inr e ↦ rw e (rw (settled_sum-insert_new f k r m (ground (arith, e))) (omega int_laws))
]

+ℤ_zero : (a : ℤ) → a +ℤ pos 0 ≡ a
+ℤ_zero a = omega int_laws

head_swap : (new s old : ℤ) → new +ℤ s +ℤ old ≡ old +ℤ s +ℤ new
head_swap new s old = omega int_laws

tail_swap : (a t old s new : ℤ) → t +ℤ old ≡ s +ℤ new → a +ℤ t +ℤ old ≡ a +ℤ s +ℤ new
tail_swap a t old s new e = +ℤ_assoc a t old ∙ (ap (λ z. a +ℤ z) e ∙ sym (+ℤ_assoc a s new))

settled_sum-insert :
    (f : Remittance → ℤ) (k : ℕ) (r old : Remittance) (m : Dict ℕ Remittance)
    → lookup k m ≡ some old
    → settled_sum f (insert k r m) +ℤ weight f old ≡ settled_sum f m +ℤ weight f r
unfolding settled_sum lookup insert
settled_sum-insert f k r old [] h = cc
settled_sum-insert f k r old ((j, x) ∷ m) h = elim (Bool-cases (j == k)) [
  | inl e ↦
      let same : x ≡ old = ground (arith, e) in
      rw (e, same) (head_swap (weight f r) (settled_sum f m) (weight f old))
  | inr e ↦ rw e (
      tail_swap (weight f x) (settled_sum f (insert k r m)) (weight f old) (settled_sum f m)
        (weight f r) (settled_sum-insert f k r old m (ground (arith, e))))
]

-- The entry of a key is good, and no key is used that is still to be given.
abbrev Entries : Dict ℕ Remittance → Type 0
Entries m =
    (i : ℕ) (r : Remittance)
    → lookup i m ≡ some r
    → (r.id ≡ i) × (shape r.status r.failed_at ≡ true)

abbrev FreshFrom : ℕ → Dict ℕ Remittance → Type 0
FreshFrom n m = (i : ℕ) → n ≤ i → lookup i m ≡ none

insert-Entries :
    (k : ℕ) (r : Remittance) (m : Dict ℕ Remittance)
    → Entries m
    → r.id ≡ k
    → shape r.status r.failed_at ≡ true
    → Entries (insert k r m)
insert-Entries k r m old e s i x h = ground (arith, old i x, lookup-insert k i r m)

insert-FreshFrom :
    (n k : ℕ) (r : Remittance) (m : Dict ℕ Remittance)
    → FreshFrom n m
    → k < n
    → FreshFrom n (insert k r m)
insert-FreshFrom n k r m old lt i h = ground (arith, old i, lookup-insert k i r m)

known-lt :
    (n k : ℕ) (r : Remittance) (m : Dict ℕ Remittance) → FreshFrom n m → lookup k m ≡ some r → k < n
known-lt n k r m old e = elim (dec_lt k n) [ yes p ↦ p | no p ↦ absurd (ground (arith, old k)) ]

-- A remittance that is replaced counts for nothing, before and after.
settled_sum-replace :
    (f : Remittance → ℤ) (k : ℕ) (r old : Remittance) (m : Dict ℕ Remittance)
    → lookup k m ≡ some old
    → is_settled old ≡ false
    → is_settled r ≡ false
    → settled_sum f (insert k r m) ≡ settled_sum f m
settled_sum-replace f k r old m e not_old not_new =
    rw (not_old, not_new, +ℤ_zero, +ℤ_zero) at (settled_sum-insert f k r old m e)

-- A remittance that is settled counts from then on.
settled_sum-settle :
    (f : Remittance → ℤ) (k : ℕ) (r old : Remittance) (m : Dict ℕ Remittance)
    → lookup k m ≡ some old
    → is_settled old ≡ false
    → is_settled r ≡ true
    → settled_sum f (insert k r m) ≡ settled_sum f m +ℤ f r
settled_sum-settle f k r old m e not_old now =
    rw (not_old, now, +ℤ_zero) at (settled_sum-insert f k r old m e)

-- A new remittance that is not settled counts for nothing.
settled_sum-new :
    (f : Remittance → ℤ) (k : ℕ) (r : Remittance) (m : Dict ℕ Remittance)
    → lookup k m ≡ none
    → is_settled r ≡ false
    → settled_sum f (insert k r m) ≡ settled_sum f m
settled_sum-new f k r m e new = rw (new, +ℤ_zero) at (settled_sum-insert_new f k r m e)

zero_out : (a w : ℤ) → pos 0 +ℤ (w +ℤ a) ≡ a +ℤ w
zero_out a w = omega int_laws

fee_in : (a fee w : ℤ) → a +ℤ fee +ℤ w ≡ a +ℤ w +ℤ fee
fee_in a fee w = omega int_laws

-- Neither end of an edge is settled: a release keeps the time of the failure.
edge_before : (s t : Status) (f : Option ℕ) → s ⟶ t → settled s f ≡ false
edge_before s t f cancel = refl
edge_before s t f dispute = refl
edge_before s t f refund = refl
edge_before s t f release = refl

edge_after :
    (s t : Status) (f : Option ℕ)
    → s ⟶ t
    → shape s f ≡ true
    → (settled t f ≡ false) × (shape t f ≡ true)
edge_after s t f cancel h = ground arith
edge_after s t f dispute h = ground arith
edge_after s t f refund h = ground arith
edge_after s t f release h = ground arith

-- A remittance changed, and the totals did not.
replaced :
    (c d : Client) (w out : ℤ)
    → Books c w
    → (i : ℕ) (r new : Remittance) → lookup i c.remittances ≡ some r
    → d.remittances ≡ insert i new c.remittances
    → d.next_id ≡ c.next_id
    → d.total_volume ≡ c.total_volume
    → d.platform_fees ≡ c.platform_fees
    → out ≡ pos 0
    → is_settled r ≡ false
    → is_settled new ≡ false
    → new.id ≡ r.id
    → shape new.status new.failed_at ≡ true
    → Books d (w +ℤ out)
replaced c d w out b i r new e m n v f o before after same good = record {
  fresh =
      rw (m, n)
        (insert-FreshFrom c.next_id i new c.remittances b.fresh
          (known-lt c.next_id i r c.remittances b.fresh e));
  entry = rw m (insert-Entries i new c.remittances b.entry (same ∙ (b.entry i r e).0) good);
  volume =
      rw (m, v)
        (b.volume ∙ sym (settled_sum-replace (λ r. r.amount) i new r c.remittances e before after));
  fees =
      rw (m, f, o, +ℤ_zero)
        (b.fees ∙ sym (settled_sum-replace (λ r. r.fee) i new r c.remittances e before after));
}

-- A step keeps the books, with what it pays out on record.
Step-Books : (c d : Client) (w out : ℤ) → Books c w → Step c d out → Books d (w +ℤ out)
Step-Books c d w out b (idle m n v f o) = record {
  fresh = rw (m, n) b.fresh;
  entry = rw m b.entry;
  volume = rw (m, v) b.volume;
  fees = rw (m, f, o, +ℤ_zero) b.fees;
}
Step-Books c d w out b (withdraw m n v f o) = record {
  fresh = rw (m, n) b.fresh;
  entry = rw m b.entry;
  volume = rw (m, v) b.volume;
  fees = rw (m, f, o) (zero_out c.platform_fees w ∙ b.fees);
}
Step-Books c d w out b (create r i s t m n v f o) =
    let new : lookup r.id c.remittances ≡ none = b.fresh r.id i in
    record {
      fresh =
          rw (m, n)
            (insert-FreshFrom (r.id + 1) r.id r c.remittances (λ j h. b.fresh j (omega (arith, i)))
              (omega arith));
      entry = rw m (insert-Entries r.id r c.remittances b.entry refl t);
      volume =
          rw (m, v) (b.volume ∙ sym (settled_sum-new (λ r. r.amount) r.id r c.remittances new s));
      fees =
          rw (m, f, o, +ℤ_zero)
            (b.fees ∙ sym (settled_sum-new (λ r. r.fee) r.id r c.remittances new s));
    }
Step-Books c d w out b (settle i r e s m n v f o) =
    let before : is_settled r ≡ false = ground arith in
    let failed_none : r.failed_at ≡ none = ground (arith, b.entry i r e) in
    let after : is_settled (record r { status = completed }) ≡ true = ground arith in
    record {
      fresh =
          rw (m, n)
            (insert-FreshFrom c.next_id i _ c.remittances b.fresh
              (known-lt c.next_id i r c.remittances b.fresh e));
      entry = rw m (insert-Entries i _ c.remittances b.entry (b.entry i r e).0 refl);
      volume =
          rw (m, v)
            (ap (λ z. z +ℤ r.amount) b.volume
              ∙ sym (settled_sum-settle (λ r. r.amount) i _ r c.remittances e before after));
      fees =
          rw (m, f, o, +ℤ_zero)
            (fee_in c.platform_fees r.fee w
              ∙ (ap (λ z. z +ℤ r.fee) b.fees
                  ∙ sym (settled_sum-settle (λ r. r.fee) i _ r c.remittances e before after)));
    }
Step-Books c d w out b (move i r to e s m n v f o) =
    replaced c d w out b i r (record r { status = to }) e m n v f o
      (edge_before r.status to r.failed_at s)
      (edge_after r.status to r.failed_at s (b.entry i r e).1).0 refl
      (edge_after r.status to r.failed_at s (b.entry i r e).1).1
Step-Books c d w out b (fail i r now e s m n v f o) =
    replaced c d w out b i r (record r { status = failed; failed_at = some now }) e m n v f o
      (ground arith) refl refl refl

-- The books stay balanced along any sequence of steps from books that are.
pub Steps-Books : {c d : Client} {v : ℤ} (w : ℤ) → Books c w → Steps c d v → Books d (w +ℤ v)
Steps-Books w b here = subst (Books _) (sym (+ℤ_zero w)) b
Steps-Books w b (next steps step) =
    subst (Books _) (+ℤ_assoc w _ _) (Step-Books _ _ _ _ (Steps-Books w b steps) step)
