-- ===== src/Backend/Fx/Tests.antt =====
-- The theorems on the failover at concrete inputs: rates are natural numbers.
use swift_remit.Prelude.{ℕ, ◌+◌, ◌≤◌, ◌<◌, ◌≡◌, refl, false, [], ◌∷◌}
use swift_remit.Prelude.Strings.{text}
use swift_remit.Prelude.Dict.{Text}
use swift_remit.Prelude.Result.{Result, ok, err}
use swift_remit.Backend.Fx.{FxService, FxCall, new_fx_service, is_circuit_open, get_rate}
use swift_remit.Backend.Fx.Failover.{run_fx, fx_stays_available}
use swift_remit.Backend.Fx.Breaker.{circuit_lem}

abbrev call : Result Text ℕ → Result Text ℕ → ℕ → FxCall ℕ
call primary secondary now = record {
  base = text "USD";
  quote = text "EUR";
  primary = primary;
  secondary = secondary;
  checked_at = now;
  primary_at = now;
  secondary_at = now;
}

abbrev down : Result Text ℕ
down = err (text "down")

abbrev up : Result Text ℕ
up = ok 8

abbrev service : FxService ℕ
service = new_fx_service 60000

first_rate : (get_rate (call (ok 9) down 1) service).0 ≡ ok 9
unfolding get_rate new_fx_service
first_rate = refl

fx_stays_available_example :
    (x : ℕ) × ((get_rate
        (call down down 3)
        (run_fx (call down down 2 ∷ []) (get_rate (call (ok 9) down 1) service).1)).0
      ≡ ok x)
fx_stays_available_example =
    fx_stays_available service (call (ok 9) down 1) 9 (call down down 2 ∷ []) (call down down 3)
      first_rate refl

closed : (is_circuit_open 1 service.cb).0 ≡ false
unfolding is_circuit_open new_fx_service
closed = refl

circuit_lem_example :
    (5 < 1 + service.cb.half_open_after_ms
      → (p : Result Text ℕ)
      → get_rate
          (record (call up (ok 6) 5) { primary = p })
          (get_rate (call down (ok 7) 1) service).1
        ≡ get_rate (call up (ok 6) 5) (get_rate (call down (ok 7) 1) service).1)
    × (1 + service.cb.half_open_after_ms ≤ 5
        → (r : ℕ) → up ≡ ok r
        → (get_rate (call up (ok 6) 5) (get_rate (call down (ok 7) 1) service).1).0 ≡ ok r)
circuit_lem_example =
    circuit_lem service (call down (ok 7) 1) (text "down") closed refl (call up (ok 6) 5)
