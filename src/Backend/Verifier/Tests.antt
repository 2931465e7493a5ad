-- ===== src/Backend/Verifier/Tests.antt =====
-- The theorems on the asset verifier at concrete inputs.
use swift_remit.Prelude.{
  ℕ, zero, suc, ◌+◌, ◌*◌, ◌≤◌, ◌<◌, ◌≡◌, refl, ◌↔◌, true, false, none, some, List, [], ◌∷◌,
}
use swift_remit.Prelude.Dict.{Text, text_eq, lookup}
use swift_remit.Prelude.Strings.{text}
use swift_remit.Prelude.Numbers.{parse_int}
use swift_remit.Prelude.Int.{negsuc, ◌-ℤ◌}
use swift_remit.Prelude.Result.{Result, ok, err}
use swift_remit.Backend.Verifier.{
  verified, suspicious, negative_cache_ttl_ms, total_score, source_count, cache_key, ttl_of,
  verify_fresh, verify_asset,
}
use swift_remit.Backend.Verifier.Checks.{World, ExpertData, TomlData, retry_request}
use swift_remit.Backend.Verifier.Scores.{sources_of, verify_fresh_lem}
use swift_remit.Backend.Verifier.Caching.{
  IsSound, VerifyCall, run_calls, run_calls-IsSound, verify_asset_again,
}
use swift_remit.Backend.Verifier.Offline.{Fails, or_again, retry_request_lem, verify_fresh_offline}

-- The first attempt fails.
unfoldable second_time : {A : Type 0} → A → ℕ → Result Text A
second_time a zero = err (text "timeout")
second_time a (suc i) = ok a

abbrev rating_four : ExpertData
rating_four = record { rating = 4; age = none }

abbrev currencies_only : TomlData
currencies_only = record { documentation = false; currencies = true; principals = false }

unfoldable good : World
unfolding second_time
good = record {
  started_at = 1_000;
  ended_at = 2_000;
  min_trustline_count = none;
  expert_answer = second_time (some rating_four);
  account_answer = second_time (some (text "a.org"));
  toml_answer = λ domain. second_time (text "toml");
  parse_toml = λ body. ok currencies_only;
  assets_answer = second_time (some (text "1500") ∷ []);
  transactions_answer = second_time [];
  transactions_read_at = 1_500;
}

abbrev never : {A : Type 0} → ℕ → Result Text A
never i = err (text "offline")

abbrev offline : World
offline = record {
  started_at = 5_000;
  ended_at = 6_000;
  min_trustline_count = none;
  expert_answer = never;
  account_answer = never;
  toml_answer = λ domain. never;
  parse_toml = λ body. err body;
  assets_answer = never;
  transactions_answer = never;
  transactions_read_at = 5_500;
}

-- 80, 80 and 80 of three checks.
good_run : (verify_fresh good (text "USDC") (text "G1") []).0.reputation_score ≡ 80
unfolding verify_fresh good second_time
good_run = refl

parse_int_run : parse_int (text "  -12px") ≡ some (negsuc 11)
unfolding parse_int ◌-ℤ◌
parse_int_run = refl

retry_request_lem_example :
    retry_request (second_time (text "a"))
    ≡ or_again
        (second_time (text "a") 0)
        (or_again (second_time (text "a") 1) (second_time (text "a") 2))
retry_request_lem_example = retry_request_lem (second_time (text "a"))

verify_fresh_lem_example :
    ((verify_fresh good (text "USDC") (text "G1") []).0.reputation_score ≤ 100)
    × (((verify_fresh good (text "USDC") (text "G1") []).0.status ≡ verified) ↔ (
        (3 ≤ source_count (sources_of good))
        × (139 * source_count (sources_of good) ≤ 2 * total_score (sources_of good))))
verify_fresh_lem_example = verify_fresh_lem good (text "USDC") (text "G1") []

fails : {A : Type 0} → Fails (never {A = A})
fails i = (text "offline", refl)

verify_fresh_offline_example :
    ((verify_fresh offline (text "USDC") (text "G1") []).0.status ≡ suspicious)
    × ((verify_fresh offline (text "USDC") (text "G1") []).0.reputation_score ≡ 0)
    × ((verify_fresh offline (text "USDC") (text "G1") []).0.has_toml ≡ false)
    × (lookup
          (cache_key (text "USDC") (text "G1"))
          (verify_fresh offline (text "USDC") (text "G1") []).1
        ≡ some (record {
          result = (verify_fresh offline (text "USDC") (text "G1") []).0;
          expires_at = 6_000 + negative_cache_ttl_ms;
        }))
verify_fresh_offline_example =
    verify_fresh_offline offline (text "USDC") (text "G1") [] fails fails fails fails

-- Nothing is cached yet.
asked :
    verify_asset good (text "USDC") (text "G1") [] ≡ verify_fresh good (text "USDC") (text "G1") []
unfolding verify_asset lookup
asked = refl

verify_asset_again_example :
    (5_000 < 2_000 + ttl_of (verify_asset good (text "USDC") (text "G1") []).0.status
      → verify_asset offline
          (text "USDC")
          (text "G1")
          (verify_asset good (text "USDC") (text "G1") []).1
        ≡ verify_asset good (text "USDC") (text "G1") [])
    × (2_000 + ttl_of (verify_asset good (text "USDC") (text "G1") []).0.status ≤ 5_000
        → verify_asset offline
            (text "USDC")
            (text "G1")
            (verify_asset good (text "USDC") (text "G1") []).1
          ≡ verify_fresh offline
              (text "USDC")
              (text "G1")
              (verify_asset good (text "USDC") (text "G1") []).1)
unfolding good
verify_asset_again_example = verify_asset_again good offline (text "USDC") (text "G1") [] asked

abbrev one_call : List VerifyCall
one_call = record { world = offline; code = text "USDC"; issuer = text "G1" } ∷ []

run_calls-IsSound_example :
    IsSound
      (cache_key (text "USDC") (text "G1"))
      (verify_asset good (text "USDC") (text "G1") (run_calls one_call [])).0
run_calls-IsSound_example = run_calls-IsSound one_call good (text "USDC") (text "G1")
