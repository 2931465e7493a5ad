-- ===== src/Backend/AnchorWebhooks/Nonces.antt =====
-- What `handleWebhook` (`backend/src/webhook-handler.ts`) does to the nonces and the anchors.
use swift_remit.Prelude.{
  ℕ, ◌+◌, ◌≡◌, refl, ◌∙◌, inl, inr, Bool, true, false, ◌||◌, Option, some, List, [], ◌∷◌, arith,
  Bool-cases, Option-cases,
}
use swift_remit.Prelude.Dict.{
  Text, Dict, text_eq, contains, add, lookup, has, insert, has-insert, ==_refl, ◌==◌,
}
use swift_remit.Prelude.Result.{⊤, Action}
use swift_remit.Prelude.Strings.{text}
use swift_remit.Backend.Kyc.{pair_eq}
use swift_remit.Backend.AnchorWebhooks.{
  Anchor, Handler, Request, Headers, World, Response, invalid_timestamp, invalid_nonce,
  invalid_signature, select_anchor, record_nonce, log_webhook, read_patterns, RouteError,
  SuspiciousActivity, nonce_ttl, validate_timestamp, signature_valid, headers_of, joined,
  or_unknown, log_suspicious, refuse, run_route, note_reasons, process, check_signature,
  handle_webhook,
}
use swift_remit.Backend.AnchorWebhooks.Authentic.{refuse_lem}

or_true : (a b : Bool) → b ≡ true → (a || b) ≡ true
or_true a b h = ground arith

-- The table of the nonces.
has-insert_self :
    (n : Text × Text) (t : ℕ) (nonces : Dict (Text × Text) ℕ) → has n (insert n t nonces) ≡ true
has-insert_self n t nonces = rw (has-insert, ==_refl n) refl

has-insert_old :
    (n m : Text × Text) (t : ℕ) (nonces : Dict (Text × Text) ℕ)
    → has n nonces ≡ true
    → has n (insert m t nonces) ≡ true
has-insert_old n m t nonces there = rw has-insert (or_true (m == n) (has n nonces) there)

-- The anchors and the nonces stay.
abbrev Keeps : {S : Type 0} → Handler S → Handler S → Type 0
Keeps s t = (t.anchors ≡ s.anchors) × (t.nonces ≡ s.nonces)

refuse-Keeps :
    {S : Type 0} (w : World) (anchor reason : Text) (response : Response) (s : Handler S)
    → Keeps s (refuse w anchor reason response s).1
refuse-Keeps w anchor reason response s = elim (refuse_lem w anchor reason response s) [
  | inl lost ↦ rw lost (refl, refl)
  | inr (sus, logged) ↦ rw logged (refl, refl)
]

log_suspicious-Keeps :
    {S : Type 0} (w : World) (anchor reason : Text) (webhook : Option Text) (s : Handler S)
    → Keeps s (log_suspicious w anchor reason webhook s).1
unfolding log_suspicious
log_suspicious-Keeps w anchor reason webhook s =
    let row : SuspiciousActivity = record {
      webhook_id = or_unknown webhook;
      anchor_id = anchor;
      reason = reason;
      timestamp = w.now;
    } in
    elim (Bool-cases (w.refuses_suspicious row)) [
      | inl refused ↦ rw (log_suspicious, refused) (refl, refl)
      | inr taken ↦ rw (log_suspicious, taken) (refl, refl)
    ]

module _ {S V : Type 0} (route : V → Text → ℕ → Action S RouteError ⊤) where
  run_route-Keeps :
      (w : World) (q : Request V) (anchor : Text) (s : Handler S)
      → Keeps s (run_route route w q anchor s).1
  unfolding run_route
  run_route-Keeps w q anchor s = elim (Option-cases q.event) [
    | inl unknown ↦ rw unknown (refl, refl)
    | inr (v, e) ↦ rw e (refl, refl)
  ]

  note_reasons-Keeps :
      (w : World) (q : Request V) (anchor : Text) (reasons : List Text) (s : Handler S)
      → Keeps s (note_reasons route w q anchor reasons s).1
  unfolding note_reasons
  note_reasons-Keeps w q anchor [] s = run_route-Keeps w q anchor s
  note_reasons-Keeps w q anchor (r ∷ rs) s =
      let logs = log_suspicious w anchor (joined (r ∷ rs)) (some w.webhook_id) s in
      let kept = log_suspicious-Keeps w anchor (joined (r ∷ rs)) (some w.webhook_id) s in
      elim (Bool-cases logs.0) [
        | inl taken ↦
            let routed = run_route-Keeps w q anchor logs.1 in
            rw (note_reasons, taken) (routed.0 ∙ kept.0, routed.1 ∙ kept.1)
        | inr lost ↦ rw (note_reasons, lost) kept
      ]

  process-Keeps :
      (w : World) (q : Request V) (anchor : Text) (s : Handler S)
      → Keeps s (process route w q anchor s).1
  unfolding process
  process-Keeps w q anchor s = elim (Bool-cases (w.refuses_query log_webhook)) [
    | inl lost ↦ rw lost (refl, refl)
    | inr logged ↦ elim (Bool-cases (w.refuses_query read_patterns)) [
      | inl unread ↦ rw (logged, unread) (refl, refl)
      | inr read ↦ rw (logged, read) (note_reasons-Keeps w q anchor _ _)
    ]
  ]

  check_signature-Keeps :
      (w : World) (q : Request V) (h : Headers) (a : Anchor) (s : Handler S)
      → Keeps s (check_signature route w q h a s).1
  unfolding check_signature
  check_signature-Keeps w q h a s = elim (Bool-cases (contains h.nonce s.processed_nonces)) [
    | inl seen ↦
        rw (check_signature, seen)
          (refuse-Keeps w h.anchor_id (text "Duplicate nonce (replay attack)") invalid_nonce s)
    | inr unseen ↦ elim (Bool-cases (signature_valid w q.raw_body h.signature a)) [
      | inl signed ↦
          rw (check_signature, unseen, signed)
            (process-Keeps w q h.anchor_id
              (record s { processed_nonces = add h.nonce s.processed_nonces }))
      | inr forged ↦
          rw (check_signature, unseen, forged)
            (refuse-Keeps w h.anchor_id (text "Invalid signature") invalid_signature
              (record s { processed_nonces = add h.nonce s.processed_nonces }))
    ]
  ]

  -- The nonce of a request with its headers, a known anchor and a timely stamp is noted, unless the
  -- database refuses what comes first.
  pub handle_webhook-noted :
      (w : World) (q : Request V) (s : Handler S) (h : Headers) (a : Anchor)
      → headers_of q ≡ some h
      → w.refuses_query select_anchor ≡ false
      → lookup h.anchor_id s.anchors ≡ some a
      → validate_timestamp w h.timestamp ≡ true
      → w.refuses_query record_nonce ≡ false
      → has (h.nonce, h.anchor_id) (handle_webhook route w q s).1.nonces ≡ true
  unfolding handle_webhook
  handle_webhook-noted w q s h a complete read known timely kept =
      elim (Bool-cases (has (h.nonce, h.anchor_id) s.nonces)) [
        | inl old ↦ rw (handle_webhook, complete, read, known, timely, kept, old) old
        | inr first ↦
            let stored : Handler S = record s {
              nonces = insert (h.nonce, h.anchor_id) (w.now + nonce_ttl) s.nonces;
            } in
            rw
              (
                handle_webhook,
                complete,
                read,
                known,
                timely,
                kept,
                first,
                (check_signature-Keeps w q h a stored).1,
              )
              (has-insert_self (h.nonce, h.anchor_id) (w.now + nonce_ttl) s.nonces)
      ]

  -- The anchors stay, and so does every nonce.
  abbrev Grows : Handler S → Handler S → Type 0
  Grows s t =
      (t.anchors ≡ s.anchors) × ((n : Text × Text) → has n s.nonces ≡ true → has n t.nonces ≡ true)

  check_signature-Grows :
      (w : World) (q : Request V) (h : Headers) (a : Anchor) (s : Handler S)
      → Grows s
          (check_signature route w q h a
            (record s { nonces = insert (h.nonce, h.anchor_id) (w.now + nonce_ttl) s.nonces })).1
  check_signature-Grows w q h a s =
      let stored : Handler S = record s {
        nonces = insert (h.nonce, h.anchor_id) (w.now + nonce_ttl) s.nonces;
      } in
      let kept = check_signature-Keeps w q h a stored in
      (
        kept.0,
        (λ n there.
            rw kept.1 (has-insert_old n (h.nonce, h.anchor_id) (w.now + nonce_ttl) s.nonces there)),
      )

  pub handle_webhook-Grows :
      (w : World) (q : Request V) (s : Handler S) → Grows s (handle_webhook route w q s).1
  unfolding handle_webhook
  handle_webhook-Grows w q s = elim (Option-cases (headers_of q)) [
    | inl incomplete ↦ rw (handle_webhook, incomplete) (refl, (λ n there. there))
    | inr (h, complete) ↦ elim (Bool-cases (w.refuses_query select_anchor)) [
      | inl unread ↦ rw (handle_webhook, complete, unread) (refl, (λ n there. there))
      | inr read ↦ elim (Option-cases (lookup h.anchor_id s.anchors)) [
        | inl unknown ↦ rw (handle_webhook, complete, read, unknown) (refl, (λ n there. there))
        | inr (a, known) ↦ elim (Bool-cases (validate_timestamp w h.timestamp)) [
          | inr late ↦
              let kept =
                refuse-Keeps w h.anchor_id (text "Invalid timestamp") invalid_timestamp s in
              rw (handle_webhook, complete, read, known, late)
                (kept.0, (λ n there. rw kept.1 there))
          | inl timely ↦ elim (Bool-cases (w.refuses_query record_nonce)) [
            | inl lost ↦
                rw (handle_webhook, complete, read, known, timely, lost) (refl, (λ n there. there))
            | inr kept ↦ elim (Bool-cases (has (h.nonce, h.anchor_id) s.nonces)) [
              | inl old ↦
                  rw (handle_webhook, complete, read, known, timely, kept, old)
                    (refl, (λ n there. there))
              | inr first ↦
                  rw (handle_webhook, complete, read, known, timely, kept, first)
                    (check_signature-Grows w q h a s)
            ]
          ]
        ]
      ]
    ]
  ]
