-- ===== src/Backend/Sep24/Tests.antt =====
-- The theorems on polls at a concrete input, and a run of a poll.
use swift_remit.Prelude.{ℕ, ◌≡◌, refl, none, some, [], ◌∷◌}
use swift_remit.Prelude.Dict.{Text, text_eq, Dict, lookup, has, insert}
use swift_remit.Prelude.Dict.Keys.{IsKeyed}
use swift_remit.Prelude.Strings.{text}
use swift_remit.Prelude.Ordered.{order}
use swift_remit.Backend.Sep24.{
  Sep24Status, Sep24Status-discrete, pending_user, completed, refunded, Sep24Row, Sep24Db,
  AnchorConfig, AnchorTransaction, answered, Round, poll_all,
}
use swift_remit.Backend.Sep24.{is_open, get_pending, poll_anchor}
use swift_remit.Backend.Sep24.Polls.{status_in_table, poll_all_final}
use swift_remit.Backend.Sep24.Overdue.{IsSettled, is_overdue, poll_anchor-Settled}

abbrev row : Sep24Status → ℕ → Sep24Row
row status created = record {
  anchor_id = text "x";
  status = status;
  amount_in = none;
  amount_out = none;
  amount_fee = none;
  stellar_transaction_id = none;
  external_transaction_id = none;
  message = none;
  last_polled = none;
  created_at = created;
  updated_at = created;
}

abbrev db : Sep24Db
db = record {
  transactions =
      (text "old", row pending_user 0)
      ∷ (text "done", row completed 0)
      ∷ (text "new", row pending_user 2_000_000)
      ∷ [];
  stalled_transactions_total = 0;
  refund_events = [];
}

abbrev says_completed : AnchorTransaction
says_completed = record {
  status = text "completed";
  amount_in = some (text "5");
  amount_out = none;
  amount_fee = none;
  stellar_transaction_id = none;
  external_transaction_id = none;
  message = none;
}

abbrev round : Round
round = record {
  now = 2_100_000;
  anchor_timeout_ms = 86_400_000;
  get = λ url i attempt. answered (some says_completed);
}

abbrev config : AnchorConfig
config = record { sep_server_url = text "u"; polling_interval_minutes = 5; timeout_minutes = 30 }

abbrev configs : Dict Text AnchorConfig
configs = (text "x", config) ∷ []

keyed : IsKeyed db.transactions
unfolding has
keyed = (refl, (refl, (refl, tt)))

found : lookup (text "done") db.transactions ≡ some (row completed 0)
unfolding lookup
found = refl

-- The transaction past its half hour is refunded, the other takes what the anchor says.
poll_run_old : status_in_table (text "old") (poll_all round configs db) ≡ some refunded
unfolding poll_all status_in_table lookup insert order Sep24Status-discrete
poll_run_old = refl

poll_run_new : status_in_table (text "new") (poll_all round configs db) ≡ some completed
unfolding poll_all status_in_table lookup insert order Sep24Status-discrete
poll_run_new = refl

poll_all_final_example :
    lookup (text "done") (poll_all round configs db).transactions ≡ some (row completed 0)
unfolding is_open
poll_all_final_example =
    poll_all_final round configs db keyed (text "done") (row completed 0) found refl

taken_up :
    lookup (text "old") (get_pending (text "x") 5 2_100_000 db.transactions)
    ≡ some (row pending_user 0)
unfolding get_pending lookup order Sep24Status-discrete
taken_up = refl

poll_anchor-Settled_example : IsSettled (text "old") (poll_anchor round (text "x") config db)
unfolding is_overdue
poll_anchor-Settled_example =
    poll_anchor-Settled round (text "x") config db keyed (text "old") (row pending_user 0) taken_up
      refl
