-- ===== src/Backend/Sep24/Rows.antt =====
-- The rows of `sep24_transactions` and the statements of `backend/src/database.ts` on them, and what
-- `Sep24Service` (`backend/src/sep24-service.ts`) reads of anchors.
use swift_remit.Prelude.{
  ℕ, ◌+◌, ◌*◌, Bool, true, false, ◌&&◌, Option, none, some, List, [], ◌∷◌, filter, take, leb, ltb,
  if◌then◌else◌,
}
use swift_remit.Prelude.Dict.{Text, text_eq, ◌==◌, Dict, lookup, insert}
use swift_remit.Prelude.Strings.{text}
use swift_remit.Prelude.Ordered.{order}

-- `Sep24TransactionStatus`
pub data Sep24Status : Type 0 where
  pending_user_transfer_start pending_anchor pending_stellar : Sep24Status
  pending_external pending_trust pending_user : Sep24Status
  completed refunded expired error : Sep24Status

unfoldable pub Sep24Status-discrete : Discrete Sep24Status
Sep24Status-discrete = hlevel

abbrev pub same_sep24 : Sep24Status → Sep24Status → Bool
same_sep24 a b = elim (Sep24Status-discrete a b) [ yes h ↦ true | no h ↦ false ]

-- A row of `sep24_transactions`, in the columns that polling reads or writes.
pub record Sep24Row : Type 0 where
  pub anchor_id : Text
  pub status : Sep24Status
  pub amount_in : Option Text
  pub amount_out : Option Text
  pub amount_fee : Option Text
  pub stellar_transaction_id : Option Text
  pub external_transaction_id : Option Text
  pub message : Option Text
  pub last_polled : Option ℕ
  pub created_at : ℕ
  pub updated_at : ℕ

-- The service's counter, the table, and the refunds passed to the dispatcher.
pub record Sep24Db : Type 0 where
  pub transactions : Dict Text Sep24Row
  pub stalled_transactions_total : ℕ
  pub refund_events : List Text

-- `AnchorSep24Config`, in what polling reads.
pub record AnchorConfig : Type 0 where
  pub sep_server_url : Text
  pub polling_interval_minutes : ℕ
  pub timeout_minutes : ℕ

-- The transaction in the answer of an anchor.
pub record AnchorTransaction : Type 0 where
  pub status : Text
  pub amount_in : Option Text
  pub amount_out : Option Text
  pub amount_fee : Option Text
  pub stellar_transaction_id : Option Text
  pub external_transaction_id : Option Text
  pub message : Option Text

-- What a request gives: its data, an HTTP status that is an error, or no response.
pub data AnchorAnswer : Type 0 where
  answered : Option AnchorTransaction → AnchorAnswer
  http_error : ℕ → AnchorAnswer
  no_response : AnchorAnswer

-- What is around a round: the clock, `anchorTimeoutHours` in milliseconds, and for each attempt the answer.
pub record Round : Type 0 where
  pub now : ℕ
  pub anchor_timeout_ms : ℕ
  pub get : Text → Text → ℕ → AnchorAnswer

-- `mapAnchorStatusToInternal`
unfoldable pub map_anchor_status : Text → Sep24Status
map_anchor_status s =
    if s == text "pending_user_transfer_start"
    then pending_user_transfer_start
    else if s == text "pending_anchor"
    then pending_anchor
    else if s == text "pending_stellar"
    then pending_stellar
    else if s == text "pending_external"
    then pending_external
    else if s == text "pending_trust"
    then pending_trust
    else if s == text "pending_user"
    then pending_user
    else if s == text "completed"
    then completed
    else if s == text "refunded"
    then refunded
    else if s == text "expired"
    then expired
    else error

-- `status NOT IN ('completed', 'refunded', 'expired', 'error')`
unfoldable pub is_open : Sep24Status → Bool
is_open pending_user_transfer_start = true
is_open pending_anchor = true
is_open pending_stellar = true
is_open pending_external = true
is_open pending_trust = true
is_open pending_user = true
is_open completed = false
is_open refunded = false
is_open expired = false
is_open error = false

-- `last_polled IS NULL OR last_polled < NOW() - INTERVAL`
unfoldable pub poll_due : ℕ → ℕ → Option ℕ → Bool
poll_due now minutes none = true
poll_due now minutes (some t) = ltb (t + minutes * 60_000) now

abbrev pub older : Text × Sep24Row → Text × Sep24Row → Bool
older a b = leb a.1.created_at b.1.created_at

-- `getPendingSep24Transactions`
unfoldable pub get_pending : Text → ℕ → ℕ → Dict Text Sep24Row → List (Text × Sep24Row)
unfolding is_open poll_due order
get_pending anchor minutes now rows = take 50 (
    order older (
      filter
        (λ (e : Text × Sep24Row).
          e.1.anchor_id == anchor && is_open e.1.status && poll_due now minutes e.1.last_polled)
        rows))

-- `COALESCE($n, column)`, where an empty text is NULL.
unfoldable pub kept_or : Option Text → Option Text → Option Text
kept_or none old = old
kept_or (some []) old = old
kept_or (some (c ∷ cs)) old = some (c ∷ cs)

-- The columns that come with a status.
pub record UpdateDetails : Type 0 where
  pub amount_in : Option Text
  pub amount_out : Option Text
  pub amount_fee : Option Text
  pub stellar_transaction_id : Option Text
  pub external_transaction_id : Option Text
  pub message : Option Text

abbrev pub no_update_details : UpdateDetails
no_update_details = record {
  amount_in = none;
  amount_out = none;
  amount_fee = none;
  stellar_transaction_id = none;
  external_transaction_id = none;
  message = none;
}

unfoldable pub details_of : AnchorTransaction → UpdateDetails
details_of t = record {
  amount_in = t.amount_in;
  amount_out = t.amount_out;
  amount_fee = t.amount_fee;
  stellar_transaction_id = t.stellar_transaction_id;
  external_transaction_id = t.external_transaction_id;
  message = t.message;
}

-- The row that the UPDATE leaves.
unfoldable pub with_sep24_status : Sep24Status → UpdateDetails → ℕ → Sep24Row → Sep24Row
unfolding kept_or
with_sep24_status status d now r = record r {
  status = status;
  amount_in = kept_or d.amount_in r.amount_in;
  amount_out = kept_or d.amount_out r.amount_out;
  amount_fee = kept_or d.amount_fee r.amount_fee;
  stellar_transaction_id = kept_or d.stellar_transaction_id r.stellar_transaction_id;
  external_transaction_id = kept_or d.external_transaction_id r.external_transaction_id;
  message = kept_or d.message r.message;
  last_polled = some now;
  updated_at = now;
}

-- `updateSep24TransactionStatus`
unfoldable pub update_sep24_status : Text → Sep24Status → UpdateDetails → ℕ → Sep24Db → Sep24Db
unfolding with_sep24_status
update_sep24_status i status d now db = elim (lookup i db.transactions) [
  | none ↦ db
  | some r ↦ record db {
    transactions = insert i (with_sep24_status status d now r) db.transactions;
  }
]
