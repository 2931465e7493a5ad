-- ===== src/Backend/Fx/Breaker.antt =====
-- When the circuit breaker of `backend/src/fx-provider.ts` keeps the primary provider out.
use swift_remit.Prelude.{
  ℕ, ◌+◌, ◌≤◌, ◌<◌, ◌≡◌, refl, ◌∙◌, inl, inr, true, false, leb, arith, Bool-cases, Option-cases,
}
use swift_remit.Prelude.Dict.{Text, text_eq, lookup}
use swift_remit.Prelude.Result.{Result, ok, err, Result-cases}
use swift_remit.Backend.Fx.{
  CircuitBreaker, FxService, FxCall, key_of, open_circuit, is_circuit_open, ask_secondary, get_rate,
}

is_circuit_open-half :
    (now : ℕ) (cb : CircuitBreaker)
    → (is_circuit_open now cb).1.half_open_after_ms ≡ cb.half_open_after_ms
unfolding is_circuit_open
is_circuit_open-half now cb = elim (Bool-cases cb.is_open) [
  | inr closed ↦ rw closed refl
  | inl up ↦ elim (Bool-cases (leb (cb.opened_at + cb.half_open_after_ms) now)) [
    | inl over ↦ rw (up, over) refl
    | inr within ↦ rw (up, within) refl
  ]
]

blocked :
    (now opened half : ℕ)
    → now < opened + half
    → (is_circuit_open now
        (record { is_open = true; opened_at = opened; half_open_after_ms = half })).0
      ≡ true
unfolding is_circuit_open
blocked now opened half lt = ground arith

half_open :
    (now opened half : ℕ)
    → opened + half ≤ now
    → (is_circuit_open now
        (record { is_open = true; opened_at = opened; half_open_after_ms = half })).0
      ≡ false
unfolding is_circuit_open
half_open now opened half le = ground arith

module _ {R : Type 0} where
  ask_secondary-cb : (c : FxCall R) (s : FxService R) → (ask_secondary c s).1.cb ≡ s.cb
  unfolding ask_secondary
  ask_secondary-cb c s = elim (Result-cases c.secondary) [
    | inl (rate, e) ↦ rw e refl
    | inr (why, e) ↦ elim (Option-cases (lookup (key_of c) s.stale_cache)) [
      | inl absent ↦ rw (e, absent, ask_secondary) refl
      | inr (v, found) ↦ rw (e, found, ask_secondary) refl
    ]
  ]

  abbrev checked : FxCall R → FxService R → FxService R
  checked c s = record s { cb = (is_circuit_open c.checked_at s.cb).1 }

  -- The breaker after the primary provider failed.
  tripped :
      (s : FxService R) (c : FxCall R) (why : Text)
      → (is_circuit_open c.checked_at s.cb).0 ≡ false
      → c.primary ≡ err why
      → (get_rate c s).1.cb ≡ record {
        is_open = true;
        opened_at = c.primary_at;
        half_open_after_ms = s.cb.half_open_after_ms;
      }
  unfolding get_rate
  tripped s c why free failed =
      rw (free, get_rate, failed)
        (ask_secondary-cb c (open_circuit c.primary_at (checked c s))
          ∙ rw (is_circuit_open-half c.checked_at s.cb) refl)

  without_primary :
      (d : FxCall R) (t : FxService R)
      → (is_circuit_open d.checked_at t.cb).0 ≡ true
      → (p : Result Text R) → get_rate (record d { primary = p }) t ≡ get_rate d t
  unfolding get_rate ask_secondary
  without_primary d t up p = rw (up, get_rate) refl

  with_primary :
      (d : FxCall R) (t : FxService R) (r : R)
      → (is_circuit_open d.checked_at t.cb).0 ≡ false
      → d.primary ≡ ok r
      → (get_rate d t).0 ≡ ok r
  unfolding get_rate
  with_primary d t r free e = rw (free, get_rate, e) refl

-- After the primary provider was asked and failed, the answer to a call within the time of the breaker
-- does not depend on that provider; from the end of that time on its rate is the answer.
pub circuit_lem :
    {R : Type 0} (s : FxService R) (c : FxCall R) (why : Text)
    → (is_circuit_open c.checked_at s.cb).0 ≡ false
    → c.primary ≡ err why
    → (d : FxCall R)
    → (d.checked_at < c.primary_at + s.cb.half_open_after_ms
        → (p : Result Text R)
        → get_rate (record d { primary = p }) (get_rate c s).1 ≡ get_rate d (get_rate c s).1)
      × (c.primary_at + s.cb.half_open_after_ms ≤ d.checked_at
          → (r : R) → d.primary ≡ ok r
          → (get_rate d (get_rate c s).1).0 ≡ ok r)
circuit_lem s c why free failed d =
    let cb = tripped s c why free failed in
    (
      (λ lt.
          without_primary d (get_rate c s).1
            (rw cb (blocked d.checked_at c.primary_at s.cb.half_open_after_ms lt))),
      (λ le r.
          with_primary d (get_rate c s).1 r
            (rw cb (half_open d.checked_at c.primary_at s.cb.half_open_after_ms le))),
    )
