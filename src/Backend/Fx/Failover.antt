-- ===== src/Backend/Fx/Failover.antt =====
-- The stale rates of `backend/src/fx-provider.ts`.
use swift_remit.Prelude.{
  ℕ, ◌≡◌, refl, ◌⊎◌, inl, inr, false, some, List, [], ◌∷◌, Bool-cases, Option-cases,
}
use swift_remit.Prelude.Dict.{Text, text_eq, ◌==◌, lookup, lookup-insert, lookup-insert_self}
use swift_remit.Prelude.Result.{ok, Result-cases}
use swift_remit.Backend.Fx.{
  CachedRate, FxService, FxCall, key_of, keep, open_circuit, is_circuit_open, ask_secondary,
  get_rate,
}

module _ {R : Type 0} where
  -- There is a rate to fall back on.
  unfoldable pub IsCached : Text → FxService R → Type 0
  IsCached key s = (v : CachedRate R) × (lookup key s.stale_cache ≡ some v)

  keep-IsCached :
      (key k : Text) (rate : R) (now : ℕ) (s : FxService R)
      → IsCached k s
      → IsCached k (keep key rate now s)
  unfolding IsCached
  keep-IsCached key k rate now s (v, found) = elim (Bool-cases (key == k)) [
    | inl same ↦ (record { rate = rate; ts = now }, rw (lookup-insert, same) refl)
    | inr other ↦ (v, rw (lookup-insert, other) found)
  ]

  ask_secondary-IsCached :
      (c : FxCall R) (k : Text) (s : FxService R) → IsCached k s → IsCached k (ask_secondary c s).1
  unfolding ask_secondary
  ask_secondary-IsCached c k s h = elim (Result-cases c.secondary) [
    | inl (rate, e) ↦ rw e (keep-IsCached (key_of c) k rate c.secondary_at s h)
    | inr (why, e) ↦ elim (Option-cases (lookup (key_of c) s.stale_cache)) [
      | inl absent ↦ rw (e, absent, ask_secondary) h
      | inr (v, found) ↦ rw (e, found, ask_secondary) h
    ]
  ]

  -- An answer leaves a rate behind.
  ask_secondary-ok :
      (c : FxCall R) (s : FxService R) (r : R)
      → (ask_secondary c s).0 ≡ ok r
      → IsCached (key_of c) (ask_secondary c s).1
  unfolding ask_secondary IsCached
  ask_secondary-ok c s r h = elim (Result-cases c.secondary) [
    | inl (rate, e) ↦ (
      record { rate = rate; ts = c.secondary_at },
      rw e (lookup-insert_self (key_of c) _ s.stale_cache),
    )
    | inr (why, e) ↦ elim (Option-cases (lookup (key_of c) s.stale_cache)) [
      | inl absent ↦ absurd (cc (rw (e, absent, ask_secondary) at h))
      | inr (v, found) ↦ (v, rw (e, found, ask_secondary) found)
    ]
  ]

  -- With a rate to fall back on there is an answer.
  IsCached-ask_secondary :
      (c : FxCall R) (s : FxService R)
      → IsCached (key_of c) s
      → (r : R) × ((ask_secondary c s).0 ≡ ok r)
  unfolding ask_secondary IsCached
  IsCached-ask_secondary c s (v, found) = elim (Result-cases c.secondary) [
    | inl (rate, e) ↦ (rate, rw e refl)
    | inr (why, e) ↦ (v.rate, rw (e, found, ask_secondary) refl)
  ]

  -- The service after its breaker was read.
  abbrev checked : FxCall R → FxService R → FxService R
  checked c s = record s { cb = (is_circuit_open c.checked_at s.cb).1 }

  -- The ways through `getRate`.
  get_rate_cases :
      (c : FxCall R) (s : FxService R)
      → ((rate : R) × ((is_circuit_open c.checked_at s.cb).0 ≡ false)
          × (get_rate c s ≡ (ok rate, keep (key_of c) rate c.primary_at (checked c s))))
        ⊎ ((t : FxService R) × (t.stale_cache ≡ s.stale_cache) × (get_rate c s ≡ ask_secondary c t))
  unfolding get_rate
  get_rate_cases c s = elim (Bool-cases (is_circuit_open c.checked_at s.cb).0) [
    | inl blocked ↦ inr (checked c s, refl, rw (blocked, get_rate) refl)
    | inr free ↦ elim (Result-cases c.primary) [
      | inl (rate, e) ↦ inl (rate, free, rw (free, get_rate, e) refl)
      | inr (why, e) ↦
          inr (open_circuit c.primary_at (checked c s), refl, rw (free, get_rate, e) refl)
    ]
  ]

  same_cache :
      (k : Text) (s t : FxService R) → t.stale_cache ≡ s.stale_cache → IsCached k s → IsCached k t
  unfolding IsCached
  same_cache k s t e (v, found) = (v, rw e found)

  get_rate-IsCached :
      (c : FxCall R) (k : Text) (s : FxService R) → IsCached k s → IsCached k (get_rate c s).1
  get_rate-IsCached c k s h = elim (get_rate_cases c s) [
    | inl (rate, free, g) ↦ rw g (
        keep-IsCached (key_of c) k rate c.primary_at (checked c s)
          (same_cache k s (checked c s) refl h))
    | inr (t, e, g) ↦ rw g (ask_secondary-IsCached c k t (same_cache k s t e h))
  ]

  get_rate-ok :
      (c : FxCall R) (s : FxService R) (r : R)
      → (get_rate c s).0 ≡ ok r
      → IsCached (key_of c) (get_rate c s).1
  unfolding IsCached
  get_rate-ok c s r h = elim (get_rate_cases c s) [
    | inl (rate, free, g) ↦ (
      record { rate = rate; ts = c.primary_at },
      rw g (lookup-insert_self (key_of c) _ s.stale_cache),
    )
    | inr (t, e, g) ↦ rw g (ask_secondary-ok c t r (rw g at h))
  ]

  IsCached-get_rate :
      (c : FxCall R) (s : FxService R) → IsCached (key_of c) s → (r : R) × ((get_rate c s).0 ≡ ok r)
  IsCached-get_rate c s h = elim (get_rate_cases c s) [
    | inl (rate, free, g) ↦ (rate, rw g refl)
    | inr (t, e, g) ↦
        let (r, a) = IsCached-ask_secondary c t (same_cache (key_of c) s t e h) in (r, rw g a)
  ]

  unfoldable pub run_fx : List (FxCall R) → FxService R → FxService R
  run_fx [] s = s
  run_fx (c ∷ cs) s = run_fx cs (get_rate c s).1

  run_fx-IsCached :
      (k : Text) (cs : List (FxCall R)) (s : FxService R) → IsCached k s → IsCached k (run_fx cs s)
  unfolding run_fx
  run_fx-IsCached k [] s h = h
  run_fx-IsCached k (c ∷ cs) s h = run_fx-IsCached k cs (get_rate c s).1 (get_rate-IsCached c k s h)

-- Once a call has returned a rate for a pair, every later call for that pair returns a rate, whatever
-- calls are made in between and whatever the providers answer.
pub fx_stays_available :
    {R : Type 0} (s : FxService R) (first : FxCall R) (r : R) (between : List (FxCall R))
    (last : FxCall R)
    → (get_rate first s).0 ≡ ok r
    → key_of last ≡ key_of first
    → (x : R) × ((get_rate last (run_fx between (get_rate first s).1)).0 ≡ ok x)
fx_stays_available s first r between last h same =
    IsCached-get_rate last (run_fx between (get_rate first s).1) (
      rw same
        (run_fx-IsCached (key_of first) between (get_rate first s).1 (get_rate-ok first s r h)))
