-- ===== src/Backend/AnchorWebhooks/Requests.antt =====
-- The requests of anchors, what is around them, and `WebhookVerifier` (`backend/src/webhook-verifier.ts`). The
-- cryptography and the reading of dates are parameters, in `World`.
use swift_remit.Prelude.{
  ℕ, ◌-◌, ◌*◌, Bool, false, ◌&&◌, Option, none, some, [], ◌∷◌, length, leb, ◌==◌ as same_number,
}
use swift_remit.Prelude.Dict.{Text, text_eq, ◌==◌}
use swift_remit.Prelude.Result.{Result, ok, err}

pub record Anchor : Type 0 where
  pub public_key : Text
  pub webhook_secret : Option Text

-- A row of `webhook_logs`.
pub record LogRow : Type 0 where
  pub anchor_id : Text
  pub transaction_id : Text
  pub verified : Bool
  pub received_at : ℕ

-- `SuspiciousActivity`
pub record SuspiciousActivity : Type 0 where
  pub webhook_id : Text
  pub anchor_id : Text
  pub reason : Text
  pub timestamp : ℕ

-- A request: its headers, its body as it was sent, and what `req.body` says. An event without a handler
-- is missing.
pub record Request (V : Type 0) : Type 0 where
  pub signature : Option Text
  pub timestamp : Option Text
  pub nonce : Option Text
  pub anchor_id : Option Text
  pub raw_body : Text
  pub event : Option V
  pub transaction_id : Option Text
  pub remittance_id : Option Text

pub record Headers : Type 0 where
  pub signature : Text
  pub timestamp : Text
  pub nonce : Text
  pub anchor_id : Text

-- What `handleWebhook` asks of the database for each request, but for the rows of suspicious activity.
pub data HandlerQuery : Type 0 where
  select_anchor record_nonce log_webhook read_patterns : HandlerQuery

-- What is around a call. A date that is NaN is missing.
pub record World : Type 0 where
  pub now : ℕ
  pub parse_date : Text → Option ℕ
  pub hmac : Text → Text → Text
  pub verify : Text → Text → Text → Result Text Bool
  pub webhook_id : Text
  pub refuses_suspicious : SuspiciousActivity → Bool
  pub refuses_query : HandlerQuery → Bool

pub data Response : Type 0 where
  missing_headers anchor_not_found invalid_timestamp duplicate : Response
  invalid_nonce invalid_signature unknown_event processed internal_error : Response
  forbidden : Text → Response

pub data RouteError : Type 0 where
  webhook_auth_error : Text → RouteError
  other_error : Text → RouteError

unfoldable pub status_code : Response → ℕ
status_code missing_headers = 400
status_code anchor_not_found = 404
status_code invalid_timestamp = 401
status_code duplicate = 200
status_code invalid_nonce = 401
status_code invalid_signature = 401
status_code unknown_event = 400
status_code processed = 200
status_code internal_error = 500
status_code (forbidden why) = 403

-- A header that is set and not empty.
unfoldable pub truthy : Option Text → Option Text
truthy none = none
truthy (some []) = none
truthy (some (c ∷ cs)) = some (c ∷ cs)

-- `timestampWindow`
abbrev pub timestamp_window : ℕ
timestamp_window = 10 * 60 * 1000

-- Within the window around the clock, on either side.
unfoldable pub in_window : ℕ → Option ℕ → Bool
in_window now none = false
in_window now (some t) = leb (now - t) timestamp_window && leb (t - now) timestamp_window

-- `validateTimestamp`
unfoldable pub validate_timestamp : World → Text → Bool
unfolding in_window
validate_timestamp w timestamp = in_window w.now (w.parse_date timestamp)

-- `verifyHMAC`
unfoldable pub verify_hmac : World → Text → Text → Text → Bool
verify_hmac w payload signature secret =
    same_number (length signature) (length (w.hmac secret payload))
    && signature == w.hmac secret payload

-- `verifySignature`
unfoldable pub verify_signature : World → Text → Text → Text → Bool
verify_signature w payload signature key = elim (w.verify payload signature key) [
  | ok valid ↦ valid
  | err e ↦ false
]

-- With a secret the HMAC, or else the signature of the anchor's key.
unfoldable pub signature_valid : World → Text → Text → Anchor → Bool
unfolding verify_hmac verify_signature truthy
signature_valid w payload signature a = elim (truthy a.webhook_secret) [
  | some secret ↦ verify_hmac w payload signature secret
  | none ↦ verify_signature w payload signature a.public_key
]
