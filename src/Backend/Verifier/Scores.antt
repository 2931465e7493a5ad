-- ===== src/Backend/Verifier/Scores.antt =====
-- The scores of `AssetVerifier` (`backend/src/verifier.ts`): their bounds, and what a verified asset has.
use native.Mathlib.Nat.{le-div_iff_mul-le, div-lt_iff_lt-mul}
use swift_remit.Prelude.{
  ℕ, zero, suc, ◌+◌, ◌*◌, ◌≤◌, ◌<◌, ◌↔◌, if◌then◌else◌, ◌≡◌, inl, inr, true, false, List, [], ◌∷◌,
  All, arith, ltb, ◌||◌, Bool, Bool-cases, min, filter, length, ◌==◌, Option, none, some,
}
use swift_remit.Prelude.Int.{ℤ, pos}
use swift_remit.Prelude.Dict.{Text}
use swift_remit.Prelude.Strings.{text}
use swift_remit.Prelude.Numbers.{parse_int}
use swift_remit.Prelude.Result.{Result-cases}
use swift_remit.Backend.Verifier.{
  verified, Cache, verify_fresh, total_score, source_count, rounded, status_of, assess,
}
use swift_remit.Backend.Verifier.Checks.{
  VerificationSource, World, check_stellar_expert, check_stellar_toml, check_domain,
  check_trustlines, check_transaction_history, trustline_score, history_score, retry_request,
  source, text_or, at_least, is_recent,
}

split_le : (b : Bool) (x y : ℕ) → x ≤ 100 → y ≤ 100 → (if b then x else y) ≤ 100
split_le true x y h k = h
split_le false x y h k = k

abbrev pub InRange : VerificationSource → Type 0
InRange s = s.score ≤ 100

capped : (r : ℕ) → min (r * 20) 100 ≤ 100
capped r = omega arith

check_stellar_expert-InRange : (w : World) → InRange (check_stellar_expert w)
unfolding check_stellar_expert source
check_stellar_expert-InRange w = elim (Result-cases (retry_request w.expert_answer)) [
  | inr (e, failed) ↦ rw failed (omega arith)
  | inl (none, there) ↦ rw there (omega arith)
  | inl (some d, there) ↦ elim (Bool-cases (d.rating == 0)) [
    | inl unrated ↦ rw (there, unrated) (omega arith)
    | inr rating ↦ rw (there, rating) (capped d.rating)
  ]
]

trustline_score_le : (n : Option ℤ) → trustline_score n ≤ 100
unfolding trustline_score
trustline_score_le n = split_le (at_least n (some (pos 10_000))) 100 _ (omega arith) (
    split_le (at_least n (some (pos 1_000))) 80 _ (omega arith) (
      split_le (at_least n (some (pos 100))) 60 _ (omega arith)
        (split_le (at_least n (some (pos 10))) 40 20 (omega arith) (omega arith))))

check_trustlines-InRange : (w : World) → InRange (check_trustlines w)
unfolding check_trustlines source
check_trustlines-InRange w = elim (Result-cases (retry_request w.assets_answer)) [
  | inr (e, failed) ↦ rw failed (omega arith)
  | inl ([], there) ↦ rw there (omega arith)
  | inl (asset ∷ others, there) ↦
      rw there (trustline_score_le (parse_int (text_or (text "0") asset)))
]

check_domain-InRange : (w : World) (home : Option Text) → InRange (check_domain w home)
unfolding check_domain source
check_domain-InRange w none = omega arith
check_domain-InRange w (some []) = omega arith
check_domain-InRange w (some (c ∷ cs)) =
    elim (Result-cases (retry_request (w.toml_answer (c ∷ cs)))) [
      | inr (e, failed) ↦ rw failed (omega arith)
      | inl (body, there) ↦ elim (Result-cases (w.parse_toml body)) [
        | inr (e, failed) ↦ rw (there, failed) (omega arith)
        | inl (t, parsed) ↦ elim (Bool-cases (t.documentation || t.currencies || t.principals)) [
          | inl valid ↦ rw (there, parsed, valid) (omega arith)
          | inr invalid ↦ rw (there, parsed, invalid) (omega arith)
        ]
      ]
    ]

check_stellar_toml-InRange : (w : World) → InRange (check_stellar_toml w)
unfolding check_stellar_toml source
check_stellar_toml-InRange w = elim (Result-cases (retry_request w.account_answer)) [
  | inr (e, failed) ↦ rw failed (omega arith)
  | inl (home, there) ↦ rw there (check_domain-InRange w home)
]

history_score_le : (recent historical : Bool) → history_score recent historical ≤ 100
unfolding history_score
history_score_le recent historical = ground arith

check_transaction_history-InRange : (w : World) → InRange (check_transaction_history w)
unfolding check_transaction_history source
check_transaction_history-InRange w = elim (Result-cases (retry_request w.transactions_answer)) [
  | inr (e, failed) ↦ rw failed (omega arith)
  | inl (transactions, there) ↦ rw there (
      history_score_le (ltb 0 (length (filter (is_recent w.transactions_read_at) transactions)))
        (ltb 10 (length transactions)))
]

total_le :
    (sources : List VerificationSource)
    → All InRange sources
    → total_score sources ≤ 100 * source_count sources
unfolding total_score source_count
total_le [] h = omega arith
total_le (s ∷ sources) h = ground (arith, total_le sources h.1, h.0)

rounded_le : (total count : ℕ) → total ≤ 100 * count → rounded total count ≤ 100
unfolding rounded
rounded_le total zero h = omega arith
rounded_le total (suc n) h = omega (
  arith,
  (div-lt_iff_lt-mul {k = 2 * suc n} {x = 2 * total + suc n} {y = 101} (omega arith)).1
      (omega arith),
)

-- The rounded mean is at least 70 from 69.5 on.
rounded_pass :
    (total count : ℕ) → (70 ≤ rounded total count) ↔ ((0 < count) × (139 * count ≤ 2 * total))
unfolding rounded
rounded_pass total zero = ((λ h. absurd (omega arith)), (λ h. absurd (omega arith)))
rounded_pass total (suc n) =
    let mean = le-div_iff_mul-le {k = 2 * suc n} {x = 70} {y = 2 * total + suc n} (omega arith) in
    ((λ h. let k = mean.0 h in (omega arith, omega arith)), (λ h. mean.1 (omega arith)))

is_verified :
    (score count : ℕ) (sources : List VerificationSource)
    → (status_of score count sources ≡ verified) ↔ ((70 ≤ score) × (3 ≤ count))
unfolding status_of
is_verified score count sources = ground arith

-- The sources of a new result.
abbrev pub sources_of : World → List VerificationSource
sources_of w =
    check_stellar_expert w
    ∷ check_stellar_toml w
    ∷ check_trustlines w
    ∷ check_transaction_history w
    ∷ []

sources_of-InRange : (w : World) → All InRange (sources_of w)
sources_of-InRange w = (
  check_stellar_expert-InRange w,
  (
    check_stellar_toml-InRange w,
    (check_trustlines-InRange w, (check_transaction_history-InRange w, tt)),
  ),
)

-- Whatever the requests answer, a new result has a score of at most 100; it is verified exactly when at
-- least three of the four checks are passed and the mean of their scores is at least 69.5.
pub verify_fresh_lem :
    (w : World) (code issuer : Text) (cache : Cache)
    → ((verify_fresh w code issuer cache).0.reputation_score ≤ 100)
      × (((verify_fresh w code issuer cache).0.status ≡ verified) ↔ (
          (3 ≤ source_count (sources_of w))
          × (139 * source_count (sources_of w) ≤ 2 * total_score (sources_of w))))
unfolding verify_fresh assess
verify_fresh_lem w code issuer cache =
    let count = source_count (sources_of w) in
    let total = total_score (sources_of w) in
    let passes = rounded_pass total count in
    let status = is_verified (rounded total count) count (sources_of w) in
    (
      rounded_le total count (total_le (sources_of w) (sources_of-InRange w)),
      (
        (λ h. ((status.0 h).1, (passes.0 (status.0 h).0).1)),
        (λ h. status.1 (passes.1 (omega arith, h.1), h.0)),
      ),
    )
