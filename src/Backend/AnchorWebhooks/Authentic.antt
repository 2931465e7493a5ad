-- ===== src/Backend/AnchorWebhooks/Authentic.antt =====
-- Which requests `handleWebhook` (`backend/src/webhook-handler.ts`) lets through to the handlers of the events.
use swift_remit.Prelude.{
  ℕ, ◌+◌, ◌-◌, ◌≤◌, ◌≡◌, ◌≢◌, refl, ◌⊎◌, inl, inr, Bool, true, false, ◌&&◌, Option, none, some,
  List, [], ◌∷◌, ◌++◌, arith, leb, leb→le, Bool-cases, Option-cases,
}
use swift_remit.Prelude.Dict.{Text, text_eq, contains, add, lookup, has, insert}
use swift_remit.Prelude.Result.{⊤, Action}
use swift_remit.Prelude.Strings.{text}
use swift_remit.Backend.Kyc.{pair_eq}
use swift_remit.Backend.AnchorWebhooks.{
  Anchor, Handler, Request, Headers, World, Response, invalid_timestamp, invalid_nonce,
  invalid_signature, processed, internal_error, RouteError, SuspiciousActivity, nonce_ttl,
  timestamp_window, in_window, validate_timestamp, select_anchor, record_nonce, signature_valid,
  headers_of, log_suspicious, refuse, process, check_signature, handle_webhook,
}

-- What a request is before it is processed.
pub record Authentic {S V : Type 0} (w : World) (q : Request V) (s : Handler S) : Type 0 where
  pub h : Headers
  pub a : Anchor
  pub complete : headers_of q ≡ some h
  pub known : lookup h.anchor_id s.anchors ≡ some a
  pub timely :
      (t : ℕ) × (w.parse_date h.timestamp ≡ some t)
      × (w.now ≤ t + timestamp_window)
      × (t ≤ w.now + timestamp_window)
  pub first : has (h.nonce, h.anchor_id) s.nonces ≡ false
  pub unseen : contains h.nonce s.processed_nonces ≡ false
  pub signed : signature_valid w q.raw_body h.signature a ≡ true

-- The state in which such a request is processed.
abbrev pub noted : {S : Type 0} → World → Headers → Handler S → Handler S
noted w h s = record s {
  nonces = insert (h.nonce, h.anchor_id) (w.now + nonce_ttl) s.nonces;
  processed_nonces = add h.nonce s.processed_nonces;
}

left_true : (a b : Bool) → (a && b) ≡ true → a ≡ true
left_true a b h = ground arith

right_true : (a b : Bool) → (a && b) ≡ true → b ≡ true
right_true a b h = ground arith

in_window_lem :
    (now : ℕ) (sent : Option ℕ)
    → in_window now sent ≡ true
    → (t : ℕ) × (sent ≡ some t) × (now ≤ t + timestamp_window) × (t ≤ now + timestamp_window)
unfolding in_window
in_window_lem now none h = absurd (cc h)
in_window_lem now (some t) h =
    let after =
      leb→le (now - t) timestamp_window (left_true (leb (now - t) timestamp_window) _ h) in
    let before =
      leb→le (t - now) timestamp_window (right_true _ (leb (t - now) timestamp_window) h) in
    (t, refl, omega arith, omega arith)

timely_of :
    (w : World) (timestamp : Text)
    → validate_timestamp w timestamp ≡ true
    → (t : ℕ) × (w.parse_date timestamp ≡ some t)
      × (w.now ≤ t + timestamp_window)
      × (t ≤ w.now + timestamp_window)
unfolding validate_timestamp
timely_of w timestamp h = in_window_lem w.now (w.parse_date timestamp) h

-- A refusal changes the log of suspicious activity at most.
pub refuse_lem :
    {S : Type 0} (w : World) (anchor reason : Text) (response : Response) (s : Handler S)
    → (refuse w anchor reason response s ≡ (internal_error, s))
      ⊎ ((sus : List SuspiciousActivity) × (refuse w anchor reason response s
            ≡ (response, record s { suspicious = sus })))
unfolding refuse log_suspicious
refuse_lem w anchor reason response s =
    let row : SuspiciousActivity = record {
      webhook_id = text "unknown";
      anchor_id = anchor;
      reason = reason;
      timestamp = w.now;
    } in
    elim (Bool-cases (w.refuses_suspicious row)) [
      | inl refused ↦ inl (rw (refuse, refused) refl)
      | inr taken ↦ inr (s.suspicious ++ row ∷ [], rw (refuse, taken) refl)
    ]

module _ {S V : Type 0} (route : V → Text → ℕ → Action S RouteError ⊤) where
  -- Nothing was routed.
  abbrev pub Refused : Handler S → Response × Handler S → Type 0
  Refused s answer = (answer.1.store ≡ s.store) × (answer.0 ≢ processed)

  refuse-Refused :
      (w : World) (anchor reason : Text) (response : Response) (s : Handler S)
      → response ≢ processed
      → Refused s (refuse w anchor reason response s)
  refuse-Refused w anchor reason response s ne = elim (refuse_lem w anchor reason response s) [
    | inl lost ↦ rw lost (refl, (λ e. cc e))
    | inr (sus, logged) ↦ rw logged (refl, ne)
  ]

  check_signature-cases :
      (w : World) (q : Request V) (h : Headers) (a : Anchor) (s : Handler S)
      → Refused s (check_signature route w q h a s)
        ⊎ ((contains h.nonce s.processed_nonces ≡ false)
            × (signature_valid w q.raw_body h.signature a ≡ true)
            × (check_signature route w q h a s
                ≡ process route w q h.anchor_id
                    (record s { processed_nonces = add h.nonce s.processed_nonces })))
  unfolding check_signature
  check_signature-cases w q h a s = elim (Bool-cases (contains h.nonce s.processed_nonces)) [
    | inl seen ↦ inl (
        rw (check_signature, seen)
          (refuse-Refused w h.anchor_id (text "Duplicate nonce (replay attack)") invalid_nonce s
            (λ e. cc e)))
    | inr unseen ↦ elim (Bool-cases (signature_valid w q.raw_body h.signature a)) [
      | inl signed ↦ inr (unseen, signed, rw (check_signature, unseen, signed) refl)
      | inr forged ↦ inl (
          rw (check_signature, unseen, forged)
            (refuse-Refused w h.anchor_id (text "Invalid signature") invalid_signature
              (record s { processed_nonces = add h.nonce s.processed_nonces }) (λ e. cc e)))
    ]
  ]

  -- From the record of the nonce on.
  recorded :
      (w : World) (q : Request V) (s : Handler S) (h : Headers) (a : Anchor)
      → headers_of q ≡ some h
      → w.refuses_query select_anchor ≡ false
      → lookup h.anchor_id s.anchors ≡ some a
      → validate_timestamp w h.timestamp ≡ true
      → w.refuses_query record_nonce ≡ false
      → Refused s (handle_webhook route w q s)
        ⊎ ((auth : Authentic w q s) × (handle_webhook route w q s
              ≡ process route w q auth.h.anchor_id (noted w auth.h s)))
  unfolding handle_webhook
  recorded w q s h a complete read known timely kept =
      elim (Bool-cases (has (h.nonce, h.anchor_id) s.nonces)) [
        | inl old ↦
            inl (rw (handle_webhook, complete, read, known, timely, kept, old) (refl, (λ e. cc e)))
        | inr first ↦
            let stored : Handler S = record s {
              nonces = insert (h.nonce, h.anchor_id) (w.now + nonce_ttl) s.nonces;
            } in
            elim (check_signature-cases w q h a stored) [
              | inl refused ↦
                  inl (rw (handle_webhook, complete, read, known, timely, kept, first) refused)
              | inr (unseen, signed, runs) ↦ inr (
                record {
                  h = h;
                  a = a;
                  complete = complete;
                  known = known;
                  timely = timely_of w h.timestamp timely;
                  first = first;
                  unseen = unseen;
                  signed = signed;
                },
                rw (handle_webhook, complete, read, known, timely, kept, first) runs,
              )
            ]
      ]

  pub handle_webhook_lem :
      (w : World) (q : Request V) (s : Handler S)
      → Refused s (handle_webhook route w q s)
        ⊎ ((auth : Authentic w q s) × (handle_webhook route w q s
              ≡ process route w q auth.h.anchor_id (noted w auth.h s)))
  unfolding handle_webhook
  handle_webhook_lem w q s = elim (Option-cases (headers_of q)) [
    | inl incomplete ↦ inl (rw (handle_webhook, incomplete) (refl, (λ e. cc e)))
    | inr (h, complete) ↦ elim (Bool-cases (w.refuses_query select_anchor)) [
      | inl unread ↦ inl (rw (handle_webhook, complete, unread) (refl, (λ e. cc e)))
      | inr read ↦ elim (Option-cases (lookup h.anchor_id s.anchors)) [
        | inl unknown ↦ inl (rw (handle_webhook, complete, read, unknown) (refl, (λ e. cc e)))
        | inr (a, known) ↦ elim (Bool-cases (validate_timestamp w h.timestamp)) [
          | inr late ↦ inl (
              rw (handle_webhook, complete, read, known, late)
                (refuse-Refused w h.anchor_id (text "Invalid timestamp") invalid_timestamp s
                  (λ e. cc e)))
          | inl timely ↦ elim (Bool-cases (w.refuses_query record_nonce)) [
            | inl lost ↦
                inl (rw (handle_webhook, complete, read, known, timely, lost) (refl, (λ e. cc e)))
            | inr kept ↦ recorded w q s h a complete read known timely kept
          ]
        ]
      ]
    ]
  ]
