-- ===== src/Prelude/Ordered.antt =====
-- Lists in a strict order given by a Boolean test, the order of `ORDER BY`, and what is left of such a
-- list after one of its entries.
use swift_remit.Prelude.{
  ℕ, zero, suc, ◌-◌, ◌≤◌, ◌<◌, ◌≡◌, refl, sym, ap, ◌∙◌, ◌⊎◌, inl, inr, Bool, true, false, ◌&&◌,
  Option, none, some, List, [], ◌∷◌, ◌++◌, map, arith, length, take, drop, filter, All,
  if◌then◌else◌, Bool-cases,
}

module _ {ℓ} {A : Type ℓ} where
  -- `xs[xs.length - 1]`
  unfoldable pub last? : List A → Option A
  last? [] = none
  last? (a ∷ []) = some a
  last? (a ∷ b ∷ xs) = last? (b ∷ xs)

  pub All-map {κ λ'} :
      {P : A → Type κ} {Q : A → Type λ'} (f : (a : A) → P a → Q a) (xs : List A)
      → All P xs
      → All Q xs
  All-map f [] h = tt
  All-map f (x ∷ xs) h = (f x h.0, All-map f xs h.1)

  pub All-filter {κ} :
      (P : A → Type κ) (q : A → Bool) (xs : List A) → All P xs → All P (filter q xs)
  All-filter P q [] h = tt
  All-filter P q (x ∷ xs) h = elim (Bool-cases (q x)) [
    | inl yes_x ↦ rw yes_x (h.0, All-filter P q xs h.1)
    | inr no_x ↦ rw no_x (All-filter P q xs h.1)
  ]

  pub filter_every : (q : A → Bool) (xs : List A) → All (λ x. q x ≡ true) xs → filter q xs ≡ xs
  filter_every q [] h = refl
  filter_every q (x ∷ xs) h = rw (h.0, filter_every q xs h.1) refl

  pub filter_both :
      (p q : A → Bool) (xs : List A) → filter (λ x. p x && q x) xs ≡ filter p (filter q xs)
  filter_both p q [] = refl
  filter_both p q (x ∷ xs) = elim (Bool-cases (q x)) [
    | inl yes_q ↦ elim (Bool-cases (p x)) [
      | inl yes_p ↦ rw (yes_q, yes_p, filter_both p q xs) refl
      | inr no_p ↦ rw (yes_q, no_p, filter_both p q xs) refl
    ]
    | inr no_q ↦ elim (Bool-cases (p x)) [
      | inl yes_p ↦ rw (no_q, yes_p, filter_both p q xs) refl
      | inr no_p ↦ rw (no_q, no_p, filter_both p q xs) refl
    ]
  ]

  pub take_all : (n : ℕ) (xs : List A) → length xs ≤ n → take n xs ≡ xs
  take_all zero [] h = refl
  take_all zero (x ∷ xs) h = absurd (omega arith)
  take_all (suc n) [] h = refl
  take_all (suc n) (x ∷ xs) h = rw (take_all n xs (omega arith)) refl

  pub take_fewer : (n : ℕ) (xs : List A) → take n (take (suc n) xs) ≡ take n xs
  take_fewer zero xs = refl
  take_fewer (suc n) [] = refl
  take_fewer (suc n) (x ∷ xs) = ap (λ ys. x ∷ ys) (take_fewer n xs)

  pub All-take {κ} : (P : A → Type κ) (n : ℕ) (xs : List A) → All P xs → All P (take n xs)
  All-take P zero xs h = tt
  All-take P (suc n) [] h = tt
  All-take P (suc n) (x ∷ xs) h = (h.0, All-take P n xs h.1)

  pub filter-All : (q : A → Bool) (xs : List A) → All (λ x. q x ≡ true) (filter q xs)
  filter-All q [] = tt
  filter-All q (x ∷ xs) = elim (Bool-cases (q x)) [
    | inl yes_x ↦ rw yes_x (yes_x, filter-All q xs)
    | inr no_x ↦ rw no_x (filter-All q xs)
  ]

  pub length-filter : (q : A → Bool) (xs : List A) → length (filter q xs) ≤ length xs
  length-filter q [] = omega arith
  length-filter q (x ∷ xs) = ground (arith, length-filter q xs)

  pub filter_narrow :
      (q r : A → Bool)
      → ((a : A) → r a ≡ true → q a ≡ true)
      → (xs : List A) → filter r (filter q xs) ≡ filter r xs
  filter_narrow q r h [] = refl
  filter_narrow q r h (x ∷ xs) = elim (Bool-cases (q x)) [
    | inl yes_q ↦ elim (Bool-cases (r x)) [
      | inl yes_r ↦ rw (yes_q, yes_r, filter_narrow q r h xs) refl
      | inr no_r ↦ rw (yes_q, no_r, filter_narrow q r h xs) refl
    ]
    | inr no_q ↦ elim (Bool-cases (r x)) [
      | inl yes_r ↦ absurd (cc (h x yes_r, no_q))
      | inr no_r ↦ rw (no_q, no_r, filter_narrow q r h xs) refl
    ]
  ]

  some_inj : (a b : A) → some a ≡ some b → a ≡ b
  some_inj a b = ap (λ (o : Option A). elim o [ none ↦ a | some t ↦ t ])

  pub All-last {κ} : (P : A → Type κ) (xs : List A) (x : A) → All P xs → last? xs ≡ some x → P x
  unfolding last?
  All-last P [] x h e = absurd (cc e)
  All-last P (y ∷ []) x h e = rw (sym (some_inj y x e)) h.0
  All-last P (y ∷ z ∷ ys) x h e = All-last P (z ∷ ys) x h.1 e

  -- A list that is not empty has a last entry, and so has what is made of it.
  pub last?-take :
      (n : ℕ) (xs : List A) → 0 < length xs → (z : A) × (last? (take (suc n) xs) ≡ some z)
  unfolding last?
  last?-take n [] h = absurd (omega arith)
  last?-take zero (x ∷ xs) h = (x, refl)
  last?-take (suc n) (x ∷ []) h = (x, refl)
  last?-take (suc n) (x ∷ y ∷ ys) h = last?-take n (y ∷ ys) (omega arith)

  pub length-take : (n : ℕ) (xs : List A) → n ≤ length xs → length (take n xs) ≡ n
  length-take zero xs h = refl
  length-take (suc n) [] h = absurd (omega arith)
  length-take (suc n) (x ∷ xs) h = omega (arith, length-take n xs)

  pub length-drop : (n : ℕ) (xs : List A) → length (drop n xs) ≡ length xs - n
  length-drop zero xs = omega arith
  length-drop (suc n) [] = omega arith
  length-drop (suc n) (x ∷ xs) = omega (arith, length-drop n xs)

  pub filter_same :
      (q r : A → Bool) → ((a : A) → q a ≡ r a) → (xs : List A) → filter q xs ≡ filter r xs
  filter_same q r h [] = refl
  filter_same q r h (x ∷ xs) = rw (h x, filter_same q r h xs) refl

  module _ (before : A → A → Bool) where
    unfoldable pub place : A → List A → List A
    place a [] = a ∷ []
    place a (b ∷ bs) = if before a b then a ∷ b ∷ bs else b ∷ place a bs

    unfoldable pub order : List A → List A
    unfolding place
    order [] = []
    order (a ∷ xs) = place a (order xs)

    abbrev pub IsOrdered : List A → Type 0
    IsOrdered [] = Unit
    IsOrdered (a ∷ xs) = All (λ b. before a b ≡ true) xs × IsOrdered xs

    abbrev pub Comparable : A → A → Type 0
    Comparable a b = (before a b ≡ true) ⊎ (before b a ≡ true)

    abbrev pub IsApart : List A → Type 0
    IsApart [] = Unit
    IsApart (a ∷ xs) = All (Comparable a) xs × IsApart xs

    All-place {κ} : (P : A → Type κ) (a : A) (xs : List A) → P a → All P xs → All P (place a xs)
    unfolding place
    All-place P a [] p h = (p, tt)
    All-place P a (b ∷ bs) p h = elim (Bool-cases (before a b)) [
      | inl first ↦ rw first (p, h)
      | inr later ↦ rw later (h.0, All-place P a bs p h.1)
    ]

    pub All-order {κ} : (P : A → Type κ) (xs : List A) → All P xs → All P (order xs)
    unfolding order
    All-order P [] h = tt
    All-order P (a ∷ xs) h = All-place P a (order xs) h.0 (All-order P xs h.1)

    length-place : (a : A) (xs : List A) → length (place a xs) ≡ suc (length xs)
    unfolding place
    length-place a [] = refl
    length-place a (b ∷ bs) = ground (arith, length-place a bs)

    pub length-order : (xs : List A) → length (order xs) ≡ length xs
    unfolding order
    length-order [] = refl
    length-order (a ∷ xs) = omega (arith, length-place a (order xs), length-order xs)

    pub IsOrdered-filter : (q : A → Bool) (xs : List A) → IsOrdered xs → IsOrdered (filter q xs)
    IsOrdered-filter q [] h = tt
    IsOrdered-filter q (x ∷ xs) h = elim (Bool-cases (q x)) [
      | inl yes_x ↦
          rw yes_x (All-filter (λ b. before x b ≡ true) q xs h.0, IsOrdered-filter q xs h.1)
      | inr no_x ↦ rw no_x (IsOrdered-filter q xs h.1)
    ]

    module _ (irreflexive : (a : A) → before a a ≡ false)
        (transitive : (a b c : A) → before a b ≡ true → before b c ≡ true → before a c ≡ true) where
      place-IsOrdered :
          (a : A) (xs : List A) → All (Comparable a) xs → IsOrdered xs → IsOrdered (place a xs)
      unfolding place
      place-IsOrdered a [] c h = (tt, tt)
      place-IsOrdered a (b ∷ bs) c h = elim (Bool-cases (before a b)) [
        | inl first ↦ rw first ((first, All-map (λ z bz. transitive a b z first bz) bs h.0), h)
        | inr later ↦ rw later (
          All-place (λ z. before b z ≡ true) a bs
              (elim c.0 [ inl ab ↦ absurd (cc (ab, later)) | inr ba ↦ ba ]) h.0,
          place-IsOrdered a bs c.1 h.1,
        )
      ]

      pub order-IsOrdered : (xs : List A) → IsApart xs → IsOrdered (order xs)
      unfolding order
      order-IsOrdered [] h = tt
      order-IsOrdered (a ∷ xs) h =
          place-IsOrdered a (order xs) (All-order (Comparable a) xs h.0) (order-IsOrdered xs h.1)

      not_before : (a b : A) → before a b ≡ true → before b a ≡ false
      not_before a b ab = elim (Bool-cases (before b a)) [
        | inl ba ↦ absurd (cc (transitive a b a ab ba, irreflexive a))
        | inr no_ba ↦ no_ba
      ]

      last-before :
          (b : A) (n : ℕ) (xs : List A) (x : A)
          → All (λ z. before b z ≡ true) xs
          → last? (take (suc n) xs) ≡ some x
          → before b x ≡ true
      unfolding last?
      last-before b zero (y ∷ ys) x h e = cc (h.0, some_inj y x e)
      last-before b (suc n) (y ∷ []) x h e = cc (h.0, some_inj y x e)
      last-before b (suc n) (y ∷ z ∷ ys) x h e = last-before b n (z ∷ ys) x h.1 e
      last-before b n [] x h e = absurd (cc e)

      head_gone :
          (y : A) (ys : List A) → All (λ z. before y z ≡ true) ys → filter (before y) (y ∷ ys) ≡ ys
      head_gone y ys h = rw (irreflexive y) (filter_every (before y) ys h)

      -- What comes after the last entry of the first `n` is what is left without them.
      pub filter_after :
          (n : ℕ) (xs : List A) (x : A)
          → IsOrdered xs
          → last? (take n xs) ≡ some x
          → filter (before x) xs ≡ drop n xs
      unfolding last?
      filter_after zero xs x h e = absurd (cc e)
      filter_after (suc n) [] x h e = refl
      filter_after (suc zero) (y ∷ ys) x h e =
          ap (λ z. filter (before z) (y ∷ ys)) (sym (some_inj y x e)) ∙ head_gone y ys h.0
      filter_after (suc (suc n)) (y ∷ []) x h e =
          ap (λ z. filter (before z) (y ∷ [])) (sym (some_inj y x e)) ∙ head_gone y [] tt
      filter_after (suc (suc n)) (y ∷ z ∷ ys) x h e =
          rw (not_before y x (last-before y n (z ∷ ys) x h.0 e))
            (filter_after (suc n) (z ∷ ys) x h.1 e)

module _ {ℓ κ} {A : Type ℓ} {B : Type κ} (f : A → B) where
  pub last?-map : (xs : List A) (x : A) → last? xs ≡ some x → last? (map f xs) ≡ some (f x)
  unfolding last?
  last?-map [] x e = absurd (cc e)
  last?-map (y ∷ []) x e = ap (λ z. some (f z)) (some_inj y x e)
  last?-map (y ∷ z ∷ ys) x e = last?-map (z ∷ ys) x e

  pub map-take-drop : (n : ℕ) (xs : List A) → map f (take n xs) ++ map f (drop n xs) ≡ map f xs
  map-take-drop zero xs = refl
  map-take-drop (suc n) [] = refl
  map-take-drop (suc n) (x ∷ xs) = ap (λ ys. f x ∷ ys) (map-take-drop n xs)
