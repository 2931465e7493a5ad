-- ===== src/Backend/Verifier.antt =====
-- `AssetVerifier` (`backend/src/verifier.ts`). The answers to its requests are parameters, one for each
-- attempt, as is the parser of TOML; ratings are whole numbers. The four checks are in `Checks`.
use swift_remit.Prelude.{
  ℕ, zero, suc, ◌+◌, ◌*◌, ◌/◌, Bool, true, false, not, ◌&&◌, ◌||◌, Option, none, some, List, [],
  ◌∷◌, ◌++◌, find?, leb, ltb, if◌then◌else◌,
}
use swift_remit.Prelude.Int.{ℤ, pos, ltb_ℤ}
use swift_remit.Prelude.Dict.{Text, text_eq, ◌==◌, Dict, lookup, insert}
use swift_remit.Prelude.Strings.{text}
use swift_remit.Backend.Verifier.Checks.{
  VerificationSource, World, count_of, check_stellar_expert, check_stellar_toml, check_trustlines,
  check_transaction_history,
}
pub mod Checks
pub mod Scores
pub mod Caching
pub mod Offline
mod Tests

-- `POSITIVE_CACHE_TTL_MS`, `NEGATIVE_CACHE_TTL_MS`
abbrev pub positive_cache_ttl_ms : ℕ
positive_cache_ttl_ms = 30 * 60 * 1000

abbrev pub negative_cache_ttl_ms : ℕ
negative_cache_ttl_ms = 5 * 60 * 1000

-- `VerificationStatus`
pub data VerificationStatus : Type 0 where
  verified unverified suspicious : VerificationStatus

-- `VerificationResult`
pub record VerificationResult : Type 0 where
  pub asset_code : Text
  pub issuer : Text
  pub status : VerificationStatus
  pub reputation_score : ℕ
  pub sources : List VerificationSource
  pub trustline_count : ℤ
  pub has_toml : Bool

-- `CacheEntry`
pub record CacheEntry : Type 0 where
  pub result : VerificationResult
  pub expires_at : ℕ

abbrev pub Cache : Type 0
Cache = Dict Text CacheEntry

-- The scores of the sources that are verified, and their number.
unfoldable pub total_score : List VerificationSource → ℕ
total_score [] = 0
total_score (s ∷ sources) =
    if s.verified then s.score + total_score sources else total_score sources

unfoldable pub source_count : List VerificationSource → ℕ
source_count [] = 0
source_count (s ∷ sources) = if s.verified then suc (source_count sources) else source_count sources

-- `Math.round(total / count)`, where a half is rounded up.
unfoldable pub rounded : ℕ → ℕ → ℕ
rounded total zero = 0
rounded total (suc n) = (2 * total + suc n) / (2 * suc n)

-- `sources.find(s => s.name === name)`
unfoldable pub source_named : Text → List VerificationSource → Option VerificationSource
source_named name sources = find? (λ (s : VerificationSource). s.name == name) sources

-- `!sources.find(...)?.verified`
unfoldable pub not_verified : Option VerificationSource → Bool
not_verified none = true
not_verified (some s) = not s.verified

unfoldable pub low_count : Option VerificationSource → Bool
unfolding count_of
low_count none = true
low_count (some s) = ltb_ℤ (count_of s.details) (pos 5)

-- `hasSuspiciousIndicators`
unfoldable pub has_suspicious_indicators : List VerificationSource → Bool
unfolding source_named not_verified low_count
has_suspicious_indicators sources =
    not_verified (source_named (text "Stellar TOML") sources)
    && low_count (source_named (text "Trustline Analysis") sources)
    && not_verified (source_named (text "Transaction History") sources)

unfoldable pub status_of : ℕ → ℕ → List VerificationSource → VerificationStatus
unfolding has_suspicious_indicators
status_of score count sources =
    if leb 70 score && leb 3 count
    then verified
    else if ltb score 30 || has_suspicious_indicators sources
    then suspicious
    else unverified

-- The result for what the four checks gave.
unfoldable pub assess :
    Text
    → Text
    → VerificationSource
    → VerificationSource
    → VerificationSource
    → VerificationSource
    → VerificationResult
unfolding total_score source_count rounded status_of count_of
assess code issuer expert toml trustline history =
    let sources = expert ∷ toml ∷ trustline ∷ history ∷ [] in
    let score = rounded (total_score sources) (source_count sources) in
    record {
      asset_code = code;
      issuer = issuer;
      status = status_of score (source_count sources) sources;
      reputation_score = score;
      sources = sources;
      trustline_count = count_of trustline.details;
      has_toml = toml.verified;
    }

unfoldable pub cache_key : Text → Text → Text
cache_key code issuer = code ++ b':' ∷ issuer

unfoldable pub ttl_of : VerificationStatus → ℕ
ttl_of verified = positive_cache_ttl_ms
ttl_of unverified = negative_cache_ttl_ms
ttl_of suspicious = negative_cache_ttl_ms

-- What follows the look into the cache.
unfoldable pub verify_fresh : World → Text → Text → Cache → VerificationResult × Cache
unfolding assess cache_key ttl_of check_stellar_expert check_stellar_toml check_trustlines
    check_transaction_history
verify_fresh w code issuer cache =
    let result =
      assess code issuer (check_stellar_expert w) (check_stellar_toml w) (check_trustlines w)
        (check_transaction_history w) in
    (
      result,
      insert (cache_key code issuer)
          (record { result = result; expires_at = w.ended_at + ttl_of result.status }) cache,
    )

-- `verifyAsset`
unfoldable pub verify_asset : World → Text → Text → Cache → VerificationResult × Cache
unfolding verify_fresh cache_key
verify_asset w code issuer cache = elim (lookup (cache_key code issuer) cache) [
  | none ↦ verify_fresh w code issuer cache
  | some cached ↦
      if ltb w.started_at cached.expires_at
      then (cached.result, cache)
      else verify_fresh w code issuer cache
]
