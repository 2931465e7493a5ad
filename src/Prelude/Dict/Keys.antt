-- ===== src/Prelude/Dict/Keys.antt =====
-- Maps in which no key has two entries: what they say of a key is one of their entries.
use swift_remit.Prelude.{
  ◌≡◌, refl, sym, ◌↔◌, inl, inr, Bool, true, false, ◌||◌, some, [], ◌∷◌, arith, any, Bool-cases,
}
use swift_remit.Prelude.Dict.{Eq, ◌==◌, ==_refl, Dict, lookup, has, insert, has-insert, lookup-has}

or_left : (a b : Bool) → a ≡ true → (a || b) ≡ true
or_left a b h = ground arith

or_right : (a b : Bool) → b ≡ true → (a || b) ≡ true
or_right a b h = ground arith

module _ {ℓ κ} {K : Type ℓ} {V : Type κ} ⦃e : Eq K⦄ where
  abbrev pub IsKeyed : Dict K V → Type ℓ
  IsKeyed [] = Unit
  IsKeyed ((k, v) ∷ d) = (has k d ≡ false) × IsKeyed d

  pub IsKeyed-insert : (k : K) (v : V) (d : Dict K V) → IsKeyed d → IsKeyed (insert k v d)
  unfolding insert has
  IsKeyed-insert k v [] h = (refl, tt)
  IsKeyed-insert k v ((j, w) ∷ d) h = elim (Bool-cases (j == k)) [
    | inl here ↦ rw here h
    | inr there ↦ rw there (
      (ground (arith, there, h.0, e.beq_iff j k, e.beq_iff k j, has-insert k j v d)),
      IsKeyed-insert k v d h.1,
    )
  ]

  pub first_key :
      (j k : K) (v w : V) (d : Dict K V)
      → has j d ≡ false
      → lookup k d ≡ some v
      → lookup k ((j, w) ∷ d) ≡ some v
  unfolding lookup
  first_key j k v w d new found = elim (Bool-cases (j == k)) [
    | inl same ↦ absurd (cc (lookup-has k d (rw (sym ((e.beq_iff j k).0 same)) new), found))
    | inr other ↦ rw other found
  ]

  -- Some entry passes a test, and some key leads to one that does.
  pub any-lookup :
      (p : K × V → Bool) (d : Dict K V)
      → IsKeyed d
      → (any p d ≡ true) ↔ ((k : K) × (v : V) × (lookup k d ≡ some v) × (p (k, v) ≡ true))
  unfolding lookup
  any-lookup p [] h = ((λ b. absurd (cc b)), (λ (k, v, found, b). absurd (cc found)))
  any-lookup p ((j, w) ∷ d) h = (
    (λ b. elim (Bool-cases (p (j, w))) [
      | inl yes_here ↦ (j, w, rw (==_refl j) refl, yes_here)
      | inr not_here ↦
          let (k, v, found, q) = (any-lookup p d h.1).0 (rw not_here at b) in
          (k, v, first_key j k v w d h.0 found, q)
    ]),
    (λ (k, v, found, q). elim (Bool-cases (j == k)) [
      | inl same ↦ or_left (p (j, w)) (any p d) (cc ((e.beq_iff j k).0 same, rw same at found, q))
      | inr other ↦
          or_right (p (j, w)) (any p d) ((any-lookup p d h.1).1 (k, v, rw other at found, q))
    ]),
  )
