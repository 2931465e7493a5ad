-- ===== src/Backend/AnchorWebhooks/Tests.antt =====
-- The theorems on the webhooks of anchors at concrete inputs.
use swift_remit.Prelude.{ℕ, Bool, ◌≡◌, refl, ◌↔◌, true, false, Option, none, some, [], ◌∷◌}
use swift_remit.Prelude.Dict.{Text, text_eq, lookup, has, contains, insert, add}
use swift_remit.Prelude.Strings.{text}
use swift_remit.Prelude.Result.{ok, err, ⊤, Action}
use swift_remit.Backend.Kyc.{KycDb, pair_eq}
use swift_remit.Backend.Transactions.{
  TransactionStatus-discrete, TransactionKind-discrete, TransactionUpdate, Row, Tables, Statement,
  deposit, pending_anchor, pending_stellar, update_transaction_state, select_current,
}
use swift_remit.Backend.AnchorWebhooks.{
  Handler, Request, Headers, World, processed, RouteError, headers_of, validate_timestamp,
  handle_webhook,
}
use swift_remit.Backend.AnchorWebhooks.Authentic.{Authentic, Refused}
use swift_remit.Backend.AnchorWebhooks.Replays.{run_requests, no_replay}
use swift_remit.Backend.AnchorWebhooks.Routes.{
  Stores, Event, deposit_update, other_event, handle_update, handle_update_lem, route,
}
use swift_remit.Backend.AnchorWebhooks.Disputes.{AuditRow, DisputeDb}
use swift_remit.Backend.AnchorWebhooks.Disputes.Moves.{
  Moves, DisputeCall, raises, resolves, status_in, run_disputes, run_disputes-Moves,
}

abbrev no_fault : Statement → Option Text
no_fault s = none

abbrev row : Row
row = record {
  kind = deposit;
  status = pending_anchor;
  status_eta = none;
  amount_in = some (text "10");
  amount_out = none;
  amount_fee = none;
  stellar_transaction_id = none;
  external_transaction_id = none;
  kyc_status = none;
  kyc_fields = none;
  kyc_rejection_reason = none;
  message = none;
  updated_at = 0;
}

abbrev tables : Tables
tables = record { transactions = (text "t", row) ∷ []; history = [] }

abbrev to_stellar : TransactionUpdate
to_stellar = record {
  transaction_id = text "t";
  status = pending_stellar;
  status_eta = none;
  amount_in = none;
  amount_out = none;
  amount_fee = none;
  stellar_transaction_id = none;
  external_transaction_id = none;
  message = none;
}

abbrev no_kyc : KycDb
no_kyc = record { rows = []; synced = [] }

abbrev start : Handler Stores
start = record {
  anchors =
      (text "anchor", record { public_key = text "G"; webhook_secret = some (text "secret") }) ∷ [];
  nonces = [];
  processed_nonces = [];
  logs = [];
  suspicious = [];
  store = record { tables = tables; kyc = no_kyc };
}

-- The HMAC of a body is the secret and the body, and dates are the code of their first letter.
unfoldable first_letter : Text → Option ℕ
first_letter [] = none
first_letter (c ∷ cs) = some c

abbrev world : World
world = record {
  now = 100;
  parse_date = first_letter;
  hmac = λ secret body. secret;
  verify = λ body signature key. ok false;
  webhook_id = text "w";
  refuses_suspicious = λ row. false;
  refuses_query = λ query. false;
}

abbrev request : Text → Text → Request (Event ⊤)
request signature nonce = record {
  signature = some signature;
  timestamp = some (text "a");
  nonce = some nonce;
  anchor_id = some (text "anchor");
  raw_body = text "body";
  event = some (deposit_update to_stellar);
  transaction_id = some (text "t");
  remittance_id = none;
}

abbrev headers : Text → Text → Headers
headers signature nonce = record {
  signature = signature;
  timestamp = text "a";
  nonce = nonce;
  anchor_id = text "anchor";
}

abbrev nothing_else : ⊤ → Text → ℕ → Action Stores RouteError ⊤
nothing_else o anchor now s = (ok tt, s)

abbrev handlers : Event ⊤ → Text → ℕ → Action Stores RouteError ⊤
handlers = route no_fault none nothing_else

genuine_run :
    (handle_webhook handlers world (request (text "secret") (text "n")) start).0 ≡ processed
unfolding handle_webhook first_letter lookup has insert contains add route
    TransactionStatus-discrete TransactionKind-discrete
genuine_run = refl

abbrev idle : Text → Request (Event ⊤)
idle nonce = record (request (text "secret") nonce) { event = some (other_event tt) }

-- The same body and signature with another nonce are processed again.
second_run :
    (handle_webhook handlers world
      (idle (text "m"))
      (handle_webhook handlers world (idle (text "n")) start).1).0
    ≡ processed
unfolding handle_webhook first_letter lookup has insert contains add route
second_run = refl

complete :
    (signature : Text)
    → signature ≡ text "secret"
    → headers_of (request signature (text "n")) ≡ some (headers (text "secret") (text "n"))
unfolding headers_of
complete signature e = rw e refl

known :
    lookup (text "anchor") start.anchors
    ≡ some (record { public_key = text "G"; webhook_secret = some (text "secret") })
unfolding lookup
known = refl

timely : validate_timestamp world (text "a") ≡ true
unfolding validate_timestamp first_letter
timely = refl

no_replay_example :
    Refused handlers
      (run_requests handlers []
        (handle_webhook handlers world (request (text "secret") (text "n")) start).1)
      (handle_webhook handlers world (request (text "secret") (text "n")) (
        run_requests handlers []
          (handle_webhook handlers world (request (text "secret") (text "n")) start).1))
no_replay_example =
    no_replay handlers world (request (text "secret") (text "n")) start
      (headers (text "secret") (text "n"))
      (record { public_key = text "G"; webhook_secret = some (text "secret") })
      (complete (text "secret") refl) refl known timely refl [] world
      (request (text "secret") (text "n")) (headers (text "secret") (text "n"))
      (complete (text "secret") refl) refl refl

handle_update_lem_example :
    ((why : Text)
      → no_fault select_current ≡ some why
      → ((e : RouteError) × ((handle_update no_fault to_stellar deposit 5 tables).0 ≡ err e))
        × ((handle_update no_fault to_stellar deposit 5 tables).1 ≡ tables))
    × (no_fault select_current ≡ none
        → ((handle_update no_fault to_stellar deposit 5 tables).1
            ≡ (update_transaction_state no_fault to_stellar deposit 5 tables).1)
          × (((handle_update no_fault to_stellar deposit 5 tables).0 ≡ ok tt)
              ↔ ((update_transaction_state no_fault to_stellar deposit 5 tables).0 ≡ ok tt)))
handle_update_lem_example = handle_update_lem no_fault to_stellar deposit 5 tables

abbrev one_failed : DisputeDb
one_failed = record {
  transactions = (text "t", record { status = some (text "failed"); updated_at = 0 }) ∷ [];
  audit = [];
}

abbrev dispute : DisputeCall
dispute =
    raises
      (record {
        transaction_id = some (text "t");
        remittance_id = none;
        failed_at = some (some 50);
        sender = none;
        evidence_hash = none;
      })
      60

abbrev resolution : DisputeCall
resolution =
    resolves
      (record {
        admin_id = some (text "admin");
        transaction_id = none;
        remittance_id = some (text "t");
        resolution = some (text "sender");
        admin = none;
        in_favour_of_sender = some true;
        resulting_status = none;
      })
      70

abbrev taken : AuditRow → Bool
taken _ = true

refund_run :
    status_in (text "t") (run_disputes taken (dispute ∷ resolution ∷ []) one_failed)
    ≡ some (text "refunded")
unfolding run_disputes status_in lookup insert contains
refund_run = refl

run_disputes-Moves_example :
    Moves
      (status_in (text "t") one_failed)
      (status_in (text "t") (run_disputes taken (dispute ∷ resolution ∷ []) one_failed))
run_disputes-Moves_example =
    run_disputes-Moves taken (dispute ∷ resolution ∷ []) one_failed (text "t")
