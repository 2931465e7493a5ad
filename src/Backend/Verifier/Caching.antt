-- ===== src/Backend/Verifier/Caching.antt =====
-- The cache of `AssetVerifier` (`backend/src/verifier.ts`).
use swift_remit.Prelude.{
  ℕ, ◌+◌, ◌≤◌, ◌<◌, ◌≡◌, refl, sym, ◌∙◌, inl, inr, true, false, List, [], ◌∷◌, Option, none, some,
  arith, ltb, Bool-cases, Option-cases, ltb→lt, ap,
}
use swift_remit.Prelude.Dict.{
  Text, text_eq, text_beq_iff, ◌==◌, lookup, lookup-insert, lookup-insert_self,
}
use swift_remit.Backend.Verifier.{
  VerificationResult, CacheEntry, Cache, verified, source_count, assess, cache_key, ttl_of,
  verify_fresh, verify_asset,
}
use swift_remit.Backend.Verifier.Checks.{World}
use swift_remit.Backend.Verifier.Scores.{verify_fresh_lem}

pub after_insert :
    (w : World) (code issuer : Text) (cache : Cache)
    → lookup (cache_key code issuer) (verify_fresh w code issuer cache).1
      ≡ some (record {
        result = (verify_fresh w code issuer cache).0;
        expires_at = w.ended_at + ttl_of (verify_fresh w code issuer cache).0.status;
      })
unfolding verify_fresh
after_insert w code issuer cache = lookup-insert_self (cache_key code issuer) _ cache

others :
    (w : World) (code issuer : Text) (cache : Cache) (key : Text)
    → (cache_key code issuer == key) ≡ false
    → lookup key (verify_fresh w code issuer cache).1 ≡ lookup key cache
unfolding verify_fresh
others w code issuer cache key other =
    lookup-insert (cache_key code issuer) key _ cache ∙ rw other refl

ltb_of : (a b : ℕ) → a < b → ltb a b ≡ true
ltb_of a b h = ground arith

not_ltb : (a b : ℕ) → b ≤ a → ltb a b ≡ false
not_ltb a b h = ground arith

le_of : (a b : ℕ) → ltb a b ≡ false → b ≤ a
le_of a b h = ground arith

missed :
    (v : World) (code issuer : Text) (cache : Cache)
    → lookup (cache_key code issuer) cache ≡ none
    → verify_asset v code issuer cache ≡ verify_fresh v code issuer cache
unfolding verify_asset
missed v code issuer cache absent = rw (absent, verify_asset) refl

hit :
    (v : World) (code issuer : Text) (cache : Cache) {c : CacheEntry}
    → lookup (cache_key code issuer) cache ≡ some c
    → v.started_at < c.expires_at
    → verify_asset v code issuer cache ≡ (c.result, cache)
unfolding verify_asset
hit v code issuer cache {c = c} found lt =
    rw (found, verify_asset, ltb_of v.started_at c.expires_at lt) refl

expired :
    (v : World) (code issuer : Text) (cache : Cache) {c : CacheEntry}
    → lookup (cache_key code issuer) cache ≡ some c
    → c.expires_at ≤ v.started_at
    → verify_asset v code issuer cache ≡ verify_fresh v code issuer cache
unfolding verify_asset
expired v code issuer cache {c = c} found le =
    rw (found, verify_asset, not_ltb v.started_at c.expires_at le) refl

-- After a call that asked the four sources, a call for the same asset that starts within the lifetime of the
-- result is answered with it, whatever the sources would say; one that starts later asks them again.
pub verify_asset_again :
    (w v : World) (code issuer : Text) (cache : Cache)
    → verify_asset w code issuer cache ≡ verify_fresh w code issuer cache
    → (v.started_at < w.ended_at + ttl_of (verify_asset w code issuer cache).0.status
        → verify_asset v code issuer (verify_asset w code issuer cache).1
          ≡ verify_asset w code issuer cache)
      × (w.ended_at + ttl_of (verify_asset w code issuer cache).0.status ≤ v.started_at
          → verify_asset v code issuer (verify_asset w code issuer cache).1
            ≡ verify_fresh v code issuer (verify_asset w code issuer cache).1)
verify_asset_again w v code issuer cache asked =
    let there = after_insert w code issuer cache in
    rw asked (
      (λ lt. hit v code issuer (verify_fresh w code issuer cache).1 there lt),
      (λ le. expired v code issuer (verify_fresh w code issuer cache).1 there le),
    )

-- A result as the checks can give it, for the asset of the key.
abbrev pub IsSound : Text → VerificationResult → Type 0
IsSound key r =
    (r.reputation_score ≤ 100)
    × (r.status ≡ verified → 3 ≤ source_count r.sources)
    × (cache_key r.asset_code r.issuer ≡ key)

abbrev pub HoldsSound : Cache → Type 0
HoldsSound cache = (key : Text) (c : CacheEntry) → lookup key cache ≡ some c → IsSound key c.result

fresh-IsSound :
    (w : World) (code issuer : Text) (cache : Cache)
    → IsSound (cache_key code issuer) (verify_fresh w code issuer cache).0
unfolding verify_fresh assess
fresh-IsSound w code issuer cache =
    let (score, status) = verify_fresh_lem w code issuer cache in
    (score, (λ h. (status.0 h).0), refl)

-- One call, and its answer.
pub record VerifyCall : Type 0 where
  pub world : World
  pub code : Text
  pub issuer : Text

unfoldable pub run_calls : List VerifyCall → Cache → Cache
unfolding verify_asset
run_calls [] cache = cache
run_calls (c ∷ calls) cache = run_calls calls (verify_asset c.world c.code c.issuer cache).1

same_entry : (a b : CacheEntry) → some a ≡ some b → a ≡ b
same_entry a b = ap (λ (o : Option CacheEntry). elim o [ none ↦ a | some t ↦ t ])

fresh-HoldsSound :
    (w : World) (code issuer : Text) (cache : Cache)
    → HoldsSound cache
    → HoldsSound (verify_fresh w code issuer cache).1
fresh-HoldsSound w code issuer cache h key c found =
    elim (Bool-cases (cache_key code issuer == key)) [
      | inl same ↦
          let e = (text_beq_iff (cache_key code issuer) key).0 same in
          let there =
            sym (ap (λ k. lookup k (verify_fresh w code issuer cache).1) e)
            ∙ after_insert w code issuer cache in
          let entry = same_entry _ c (sym there ∙ found) in
          rw (← entry, ← e) (fresh-IsSound w code issuer cache)
      | inr other ↦ h key c (sym (others w code issuer cache key other) ∙ found)
    ]

verify_asset-IsSound :
    (w : World) (code issuer : Text) (cache : Cache)
    → HoldsSound cache
    → IsSound (cache_key code issuer) (verify_asset w code issuer cache).0
      × HoldsSound (verify_asset w code issuer cache).1
verify_asset-IsSound w code issuer cache h =
    elim (Option-cases (lookup (cache_key code issuer) cache)) [
      | inl absent ↦
          rw (missed w code issuer cache absent)
            (fresh-IsSound w code issuer cache, fresh-HoldsSound w code issuer cache h)
      | inr (c, found) ↦ elim (Bool-cases (ltb w.started_at c.expires_at)) [
        | inl within ↦
            rw (hit w code issuer cache found (ltb→lt w.started_at c.expires_at within))
              (h (cache_key code issuer) c found, h)
        | inr over ↦
            rw (expired w code issuer cache found (le_of w.started_at c.expires_at over))
              (fresh-IsSound w code issuer cache, fresh-HoldsSound w code issuer cache h)
      ]
    ]

nothing_there : (key : Text) (c : CacheEntry) → lookup key [] ≡ some c → ⊥
unfolding lookup
nothing_there key c found = cc found

run_calls-HoldsSound :
    (calls : List VerifyCall) (cache : Cache)
    → HoldsSound cache
    → HoldsSound (run_calls calls cache)
unfolding run_calls
run_calls-HoldsSound [] cache h = h
run_calls-HoldsSound (c ∷ calls) cache h =
    run_calls-HoldsSound calls (verify_asset c.world c.code c.issuer cache).1
      (verify_asset-IsSound c.world c.code c.issuer cache h).1

-- Whatever was asked before, from an empty cache on: an answer is for the asset of the call (as the key
-- spells it), has a score of at most 100, and says verified only with three checks that are passed.
pub run_calls-IsSound :
    (calls : List VerifyCall) (w : World) (code issuer : Text)
    → IsSound (cache_key code issuer) (verify_asset w code issuer (run_calls calls [])).0
run_calls-IsSound calls w code issuer =
    (verify_asset-IsSound w code issuer (run_calls calls [])
      (run_calls-HoldsSound calls [] (λ key c found. absurd (nothing_there key c found)))).0
