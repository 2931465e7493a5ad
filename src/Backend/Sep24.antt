-- ===== src/Backend/Sep24.antt =====
-- The polling of `Sep24Service` (`backend/src/sep24-service.ts`) and its webhook notification, over the table
-- `sep24_transactions` (`backend/src/database.ts`), whose `transaction_id` is unique. The answers of anchors
-- and the clock are parameters; the time is one for a round. The call of the contract for a refund, whose
-- errors are caught, leaves nothing in this state. What is passed to the dispatcher, whose errors are caught
-- too, is a list. A statement that the database refuses, which would end the round for one transaction,
-- and a status of an anchor that names a property of every JavaScript object are left out.
use swift_remit.Prelude.{
  ℕ, zero, suc, ◌+◌, ◌*◌, Bool, true, false, not, ◌&&◌, ◌||◌, Option, none, some, List, [], ◌∷◌,
  ◌++◌, filter, take, leb, ltb, if◌then◌else◌, ◌==◌ as same_number,
}
use swift_remit.Prelude.Dict.{Text, text_eq, ◌==◌, Dict, lookup, insert}
use swift_remit.Prelude.Strings.{text}
use swift_remit.Prelude.Result.{Result, ok, err, ⊤}
use swift_remit.Prelude.Ordered.{order}
unfoldable pub use swift_remit.Backend.Sep24.Rows.*
pub mod Rows
pub mod Polls
pub mod Overdue
mod Tests

-- An answer that ends the attempts: 404 and the other errors of the client, but for 429.
unfoldable pub gives_none : ℕ → Bool
gives_none status =
    same_number status 404 || (leb 400 status && ltb status 500 && not (same_number status 429))

-- `queryTransactionStatus`, after `attempt - 1` attempts, with `left` more of them.
unfoldable pub query_from : (ℕ → AnchorAnswer) → ℕ → ℕ → Option AnchorTransaction
unfolding gives_none
query_from get zero attempt = none
query_from get (suc left) attempt = elim (get attempt) [
  | answered t ↦ t
  | http_error status ↦ if gives_none status then none else query_from get left (suc attempt)
  | no_response ↦ query_from get left (suc attempt)
]

unfoldable pub query_transaction_status : Round → Text → Text → Option AnchorTransaction
unfolding query_from
query_transaction_status w url i = query_from (w.get url i) 3 1

-- `processExpiredRefund`. Whatever comes of the call to the contract, the row is marked; the transactions
-- that are polled are not refunded yet.
unfoldable pub process_expired_refund : Text → Sep24Row → ℕ → Sep24Db → Sep24Db
unfolding update_sep24_status
process_expired_refund i r now db =
    if same_sep24 r.status refunded
    then db
    else let marked = update_sep24_status i refunded no_update_details now db in
      record marked { refund_events = marked.refund_events ++ i ∷ [] }

-- A transaction that the anchor has held for too long.
unfoldable pub mark_stalled : Text → ℕ → Sep24Db → Sep24Db
unfolding update_sep24_status
mark_stalled i now db =
    let failed = update_sep24_status i error no_update_details now db in
    record failed { stalled_transactions_total = suc failed.stalled_transactions_total }

-- One round of the loop of `pollAnchorTransactions`.
unfoldable pub poll_one : Round → AnchorConfig → Text × Sep24Row → Sep24Db → Sep24Db
unfolding update_sep24_status mark_stalled process_expired_refund query_transaction_status
    map_anchor_status details_of
poll_one w config (i, r) db =
    if same_sep24 r.status pending_anchor && leb (r.created_at + w.anchor_timeout_ms) w.now
    then mark_stalled i w.now db
    else if ltb (r.created_at + config.timeout_minutes * 60_000) w.now
    then process_expired_refund i r w.now db
    else elim (query_transaction_status w config.sep_server_url i) [
      | none ↦ db
      | some t ↦
          if same_sep24 (map_anchor_status t.status) r.status
          then db
          else update_sep24_status i (map_anchor_status t.status) (details_of t) w.now db
    ]

unfoldable pub poll_list : Round → AnchorConfig → List (Text × Sep24Row) → Sep24Db → Sep24Db
unfolding poll_one
poll_list w config [] db = db
poll_list w config (e ∷ es) db = poll_list w config es (poll_one w config e db)

-- `pollAnchorTransactions`
unfoldable pub poll_anchor : Round → Text → AnchorConfig → Sep24Db → Sep24Db
unfolding get_pending poll_list
poll_anchor w anchor config db =
    poll_list w config (get_pending anchor config.polling_interval_minutes w.now db.transactions) db

-- `pollAllTransactions`
unfoldable pub poll_all : Round → Dict Text AnchorConfig → Sep24Db → Sep24Db
unfolding poll_anchor
poll_all w [] db = db
poll_all w ((anchor, config) ∷ configs) db = poll_all w configs (poll_anchor w anchor config db)

-- `handleWebhookNotification`
unfoldable pub handle_notification : Text → AnchorTransaction → ℕ → Sep24Db → Sep24Db
unfolding map_anchor_status details_of update_sep24_status
handle_notification i t now db =
    update_sep24_status i (map_anchor_status t.status) (details_of t) now db
