-- ===== src/Backend/Verifier/Checks.antt =====
-- The four checks of `AssetVerifier` (`backend/src/verifier.ts`) and its `retryRequest`.
use swift_remit.Prelude.{
  ℕ, zero, suc, ◌+◌, ◌*◌, Bool, true, false, not, ◌&&◌, ◌||◌, Option, none, some, List, [], ◌∷◌,
  filter, length, leb, ltb, min, if◌then◌else◌, ◌==◌,
}
use swift_remit.Prelude.Int.{ℤ, pos, ltb_ℤ}
use swift_remit.Prelude.Dict.{Text}
use swift_remit.Prelude.Strings.{text}
use swift_remit.Prelude.Numbers.{parse_int}
use swift_remit.Prelude.Result.{Result, ok, err}

abbrev pub max_retries : ℕ
max_retries = 3

-- The details of a source. A count that is NaN is missing.
pub data Details : Type 0 where
  no_details : Details
  rated : ℕ → Option ℕ → Details
  toml_of : Text → Bool → Bool → Details
  counted : Option ℤ → Details
  history : ℕ → ℕ → Details

-- `VerificationSource`
pub record VerificationSource : Type 0 where
  pub name : Text
  pub verified : Bool
  pub score : ℕ
  pub details : Details

-- The data of an asset at Stellar Expert. A rating that is missing is 0.
pub record ExpertData : Type 0 where
  pub rating : ℕ
  pub age : Option ℕ

-- Which tables a stellar.toml has.
pub record TomlData : Type 0 where
  pub documentation : Bool
  pub currencies : Bool
  pub principals : Bool

-- What is around a call: the answers to the attempts of each request, the variable
-- `MIN_TRUSTLINE_COUNT`, and the readings of the clock. The records of an answer without a list are
-- the empty list; a time is missing where it is NaN.
pub record World : Type 0 where
  pub started_at : ℕ
  pub ended_at : ℕ
  pub min_trustline_count : Option Text
  pub expert_answer : ℕ → Result Text (Option ExpertData)
  pub account_answer : ℕ → Result Text (Option Text)
  pub toml_answer : Text → ℕ → Result Text Text
  pub parse_toml : Text → Result Text TomlData
  pub assets_answer : ℕ → Result Text (List (Option Text))
  pub transactions_answer : ℕ → Result Text (List (Option ℕ))
  pub transactions_read_at : ℕ

-- `retryRequest`, after `i` attempts, with `left` more rounds of its loop.
unfoldable pub retry_from : {A : Type 0} → ℕ → ℕ → ℕ → (ℕ → Result Text A) → Result Text A
retry_from retries zero i send = err (text "Max retries exceeded")
retry_from retries (suc left) i send = elim (send i) [
  | ok a ↦ ok a
  | err e ↦ if suc i == retries then err e else retry_from retries left (suc i) send
]

unfoldable pub retry_request : {A : Type 0} → (ℕ → Result Text A) → Result Text A
unfolding retry_from
retry_request send = retry_from max_retries max_retries 0 send

unfoldable pub source : Text → Bool → ℕ → Details → VerificationSource
source name verified score details = record {
  name = name;
  verified = verified;
  score = score;
  details = details;
}

-- `checkStellarExpert`
unfoldable pub check_stellar_expert : World → VerificationSource
unfolding retry_request source
check_stellar_expert w =
    let failed = source (text "Stellar Expert") false 0 no_details in
    elim (retry_request w.expert_answer) [
      | err e ↦ failed
      | ok answer ↦ elim answer [
        | none ↦ failed
        | some d ↦
            if d.rating == 0
            then failed
            else source (text "Stellar Expert") (leb 3 d.rating) (min (d.rating * 20) 100)
                (rated d.rating d.age)
      ]
    ]

-- From the home domain on.
unfoldable pub check_domain : World → Option Text → VerificationSource
unfolding retry_request source
check_domain w none = source (text "Stellar TOML") false 0 no_details
check_domain w (some []) = source (text "Stellar TOML") false 0 no_details
check_domain w (some (c ∷ cs)) = elim (retry_request (w.toml_answer (c ∷ cs))) [
  | err e ↦ source (text "Stellar TOML") false 0 no_details
  | ok body ↦ elim (w.parse_toml body) [
    | err e ↦ source (text "Stellar TOML") false 0 no_details
    | ok t ↦
        if t.documentation || t.currencies || t.principals
        then source (text "Stellar TOML") true 80 (toml_of (c ∷ cs) t.documentation t.currencies)
        else source (text "Stellar TOML") false 30 no_details
  ]
]

-- `checkStellarToml`
unfoldable pub check_stellar_toml : World → VerificationSource
unfolding retry_request source check_domain
check_stellar_toml w = elim (retry_request w.account_answer) [
  | err e ↦ source (text "Stellar TOML") false 0 no_details
  | ok home_domain ↦ check_domain w home_domain
]

-- `a >= b`, which does not hold of NaN.
unfoldable pub at_least : Option ℤ → Option ℤ → Bool
at_least none b = false
at_least (some a) none = false
at_least (some a) (some b) = not (ltb_ℤ a b)

-- `t || fallback`, for a text.
unfoldable pub text_or : Text → Option Text → Text
text_or fallback none = fallback
text_or fallback (some []) = fallback
text_or fallback (some (c ∷ cs)) = c ∷ cs

unfoldable pub trustline_score : Option ℤ → ℕ
unfolding at_least
trustline_score n =
    if at_least n (some (pos 10_000))
    then 100
    else if at_least n (some (pos 1_000))
    then 80
    else if at_least n (some (pos 100))
    then 60
    else if at_least n (some (pos 10))
    then 40
    else 20

-- `checkTrustlines`
unfoldable pub check_trustlines : World → VerificationSource
unfolding retry_request source at_least text_or trustline_score parse_int
check_trustlines w =
    let failed = source (text "Trustline Analysis") false 0 (counted (some (pos 0))) in
    elim (retry_request w.assets_answer) [
      | err e ↦ failed
      | ok records ↦ elim records [
        | [] ↦ failed
        | asset ∷ others ↦
            let n = parse_int (text_or (text "0") asset) in
            source (text "Trustline Analysis")
              (at_least n (parse_int (text_or (text "10") w.min_trustline_count)))
              (trustline_score n) (counted n)
      ]
    ]

-- `daysSince <= 30`
unfoldable pub is_recent : ℕ → Option ℕ → Bool
is_recent now none = false
is_recent now (some t) = leb now (t + 30 * (1000 * 60 * 60 * 24))

unfoldable pub history_score : Bool → Bool → ℕ
history_score recent historical =
    if recent && historical then 70 else if historical then 50 else if recent then 30 else 0

-- `checkTransactionHistory`
unfoldable pub check_transaction_history : World → VerificationSource
unfolding retry_request source is_recent history_score
check_transaction_history w = elim (retry_request w.transactions_answer) [
  | err e ↦ source (text "Transaction History") false 0 no_details
  | ok transactions ↦
      let recent = length (filter (is_recent w.transactions_read_at) transactions) in
      let active = ltb 0 recent in
      let historical = ltb 10 (length transactions) in
      source (text "Transaction History") (active && historical) (history_score active historical)
        (history (length transactions) recent)
]

-- `details?.count || 0`
unfoldable pub count_of : Details → ℤ
count_of no_details = pos 0
count_of (rated r age) = pos 0
count_of (toml_of d doc cur) = pos 0
count_of (counted none) = pos 0
count_of (counted (some n)) = n
count_of (history total recent) = pos 0
