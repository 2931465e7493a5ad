-- ===== src/Prelude/Result.antt =====
-- Errors as values, and methods that change an object and may throw: what was written before an
-- error stays written.
use swift_remit.Prelude.{◌≡◌, refl, ◌⊎◌, inl, inr, Bool, Option, none, some, if◌then◌else◌}

pub data Result {ℓ κ} (E : Type ℓ) (A : Type κ) : Type (ℓ ⊔ κ) where
  ok : A → Result E A
  err : E → Result E A

pub Result-cases {ℓ κ} :
    {E : Type ℓ} {A : Type κ} (r : Result E A) → ((a : A) × (r ≡ ok a)) ⊎ ((e : E) × (r ≡ err e))
Result-cases (ok a) = inl (a, refl)
Result-cases (err e) = inr (e, refl)

abbrev pub ⊤ : Type 0
⊤ = Unit

-- A method of an object of type `S`.
abbrev pub Action : Type 0 → Type 0 → Type 0 → Type 0
Action S E A = S → Result E A × S

module _ {S E : Type 0} where
  abbrev pub pure : {A : Type 0} → A → Action S E A
  pure a s = (ok a, s)

  abbrev pub throw : {A : Type 0} → E → Action S E A
  throw e s = (err e, s)

  abbrev pub gets : {A : Type 0} → (S → A) → Action S E A
  gets f s = (ok (f s), s)

  abbrev pub modify : (S → S) → Action S E ⊤
  modify f s = (ok tt, f s)

  abbrev pub throw_if : Bool → E → Action S E ⊤
  throw_if c e s = (if c then err e else ok tt, s)

  abbrev pub or_throw : {A : Type 0} → Option A → E → Action S E A
  or_throw none e s = (err e, s)
  or_throw (some a) e s = (ok a, s)

  infixl 5 ◌>>=◌ ◌>>◌
  abbrev pub ◌>>=◌ : {A B : Type 0} → Action S E A → (A → Action S E B) → Action S E B
  ◌>>=◌ m f s = let (r, s') = m s in elim r [ ok a ↦ f a s' | err e ↦ (err e, s') ]

  abbrev pub ◌>>◌ : {A B : Type 0} → Action S E A → Action S E B → Action S E B
  m >> k = m >>= λ _. k

-- A sequence goes on from the state of its first part, or ends there with its error.
module _ {S E A B : Type 0} (m : Action S E A) (k : Action S E B) (s : S) where
  pub >>-ok : {a : A} → (m s).0 ≡ ok a → (m >> k) s ≡ k (m s).1
  >>-ok h = rw (h, ◌>>=◌) refl

  pub >>-err : {e : E} → (m s).0 ≡ err e → (m >> k) s ≡ (err e, (m s).1)
  >>-err h = rw (h, ◌>>=◌) refl
