-- ===== src/Backend/Fx.antt =====
-- `FailoverFxService` and its circuit breaker (`backend/src/fx-provider.ts`). A rate is opaque. What the
-- two providers answer is a parameter of each call, and so are the readings of the clock: one for the
-- breaker, one after the primary provider, one after the secondary.
use swift_remit.Prelude.{
  ℕ, ◌+◌, Bool, true, false, not, ◌&&◌, Option, none, some, List, [], ◌∷◌, ◌++◌, leb, if◌then◌else◌,
}
use swift_remit.Prelude.Dict.{Text, text_eq, Dict, lookup, insert}
use swift_remit.Prelude.Strings.{text}
use swift_remit.Prelude.Result.{Result, ok, err, Action}
pub mod Failover
pub mod Breaker
mod Tests

-- `CircuitBreaker`
pub record CircuitBreaker : Type 0 where
  pub is_open : Bool
  pub opened_at : ℕ
  pub half_open_after_ms : ℕ

pub record CachedRate (R : Type 0) : Type 0 where
  pub rate : R
  pub ts : ℕ

pub record FxService (R : Type 0) : Type 0 where
  pub cb : CircuitBreaker
  pub stale_cache : Dict Text (CachedRate R)

-- The constructor.
unfoldable pub new_fx_service : {R : Type 0} → ℕ → FxService R
new_fx_service half_open_after_ms = record {
  cb = record { is_open = false; opened_at = 0; half_open_after_ms = half_open_after_ms };
  stale_cache = [];
}

-- `isCircuitOpen(cb)`: the answer, and the breaker, which it may close.
unfoldable pub is_circuit_open : ℕ → CircuitBreaker → Bool × CircuitBreaker
is_circuit_open now cb =
    if not cb.is_open
    then (false, cb)
    else if leb (cb.opened_at + cb.half_open_after_ms) now
    then (false, record cb { is_open = false })
    else (true, cb)

-- A call of `getRate`: the pair, the answers and the clock.
pub record FxCall (R : Type 0) : Type 0 where
  pub base : Text
  pub quote : Text
  pub primary : Result Text R
  pub secondary : Result Text R
  pub checked_at : ℕ
  pub primary_at : ℕ
  pub secondary_at : ℕ

abbrev pub key_of : {R : Type 0} → FxCall R → Text
key_of c = c.base ++ text "_" ++ c.quote

module _ {R : Type 0} where
  -- `this.staleCache.set(key, { rate, ts: Date.now() })`
  abbrev pub keep : Text → R → ℕ → FxService R → FxService R
  keep key rate now s = record s {
    stale_cache = insert key (record { rate = rate; ts = now }) s.stale_cache;
  }

  -- `openCircuit`
  abbrev pub open_circuit : ℕ → FxService R → FxService R
  open_circuit now s = record s { cb = record s.cb { is_open = true; opened_at = now } }

  -- The second half of `getRate`.
  unfoldable pub ask_secondary : FxCall R → Action (FxService R) Text R
  ask_secondary c s = elim c.secondary [
    | ok rate ↦ (ok rate, keep (key_of c) rate c.secondary_at s)
    | err e ↦ elim (lookup (key_of c) s.stale_cache) [
      | some stale ↦ (ok stale.rate, s)
      | none ↦ (
        err (text "FailoverFxService: no rate available for " ++ c.base ++ text "/" ++ c.quote),
        s,
      )
    ]
  ]

  -- `getRate`
  unfoldable pub get_rate : FxCall R → Action (FxService R) Text R
  unfolding is_circuit_open ask_secondary
  get_rate c s =
      let (blocked, cb) = is_circuit_open c.checked_at s.cb in
      let checked : FxService R = record s { cb = cb } in
      if blocked then ask_secondary c checked else elim c.primary [
        | ok rate ↦ (ok rate, keep (key_of c) rate c.primary_at checked)
        | err e ↦ ask_secondary c (open_circuit c.primary_at checked)
      ]
