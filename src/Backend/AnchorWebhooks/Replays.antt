-- ===== src/Backend/AnchorWebhooks/Replays.antt =====
-- Requests with a nonce that `recordWebhookNonce` (`backend/src/database.ts`) has noted, as
-- `handleWebhook` (`backend/src/webhook-handler.ts`) answers them.
use swift_remit.Prelude.{
  ℕ, ◌≡◌, sym, ap, ◌∙◌, inl, inr, true, false, Option, none, some, List, [], ◌∷◌,
}
use swift_remit.Prelude.Dict.{Text, text_eq, lookup, has}
use swift_remit.Prelude.Result.{⊤, Action}
use swift_remit.Backend.Kyc.{pair_eq}
use swift_remit.Backend.AnchorWebhooks.{
  Anchor, Handler, Request, Headers, World, select_anchor, record_nonce, RouteError,
  validate_timestamp, headers_of, handle_webhook,
}
use swift_remit.Backend.AnchorWebhooks.Authentic.{Refused, handle_webhook_lem}
use swift_remit.Backend.AnchorWebhooks.Nonces.{handle_webhook-noted, handle_webhook-Grows}

same_headers : (h k : Headers) → some h ≡ some k → h ≡ k
same_headers h k = ap (λ (o : Option Headers). elim o [ none ↦ h | some t ↦ t ])

module _ {S V : Type 0} (route : V → Text → ℕ → Action S RouteError ⊤) where
  -- A nonce that is noted refuses every request with it.
  noted-Refused :
      (w : World) (q : Request V) (s : Handler S) (h : Headers)
      → headers_of q ≡ some h
      → has (h.nonce, h.anchor_id) s.nonces ≡ true
      → Refused route s (handle_webhook route w q s)
  noted-Refused w q s h complete old = elim (handle_webhook_lem route w q s) [
    | inl refused ↦ refused
    | inr (auth, runs) ↦
        let same = same_headers auth.h h (sym auth.complete ∙ complete) in
        absurd
          (cc (auth.first, ap (λ (k : Headers). has (k.nonce, k.anchor_id) s.nonces) same, old))
  ]

  unfoldable pub run_requests : List (World × Request V) → Handler S → Handler S
  unfolding handle_webhook
  run_requests [] s = s
  run_requests ((w, q) ∷ calls) s = run_requests calls (handle_webhook route w q s).1

  run_requests-Grows :
      (calls : List (World × Request V)) (s : Handler S) (n : Text × Text)
      → has n s.nonces ≡ true
      → has n (run_requests calls s).nonces ≡ true
  unfolding run_requests
  run_requests-Grows [] s n there = there
  run_requests-Grows ((w, q) ∷ calls) s n there =
      run_requests-Grows calls (handle_webhook route w q s).1 n
        ((handle_webhook-Grows route w q s).1 n there)

  -- Once a request got past the check of its time, where the database refused neither to read the anchor nor
  -- to record the nonce, whatever came of it and whatever requests follow, no request with its nonce and
  -- anchor is processed any more while the nonces are kept.
  pub no_replay :
      (w : World) (q : Request V) (s : Handler S) (h : Headers) (a : Anchor)
      → headers_of q ≡ some h
      → w.refuses_query select_anchor ≡ false
      → lookup h.anchor_id s.anchors ≡ some a
      → validate_timestamp w h.timestamp ≡ true
      → w.refuses_query record_nonce ≡ false
      → (calls : List (World × Request V)) (v : World) (r : Request V) (k : Headers)
      → headers_of r ≡ some k
      → k.nonce ≡ h.nonce
      → k.anchor_id ≡ h.anchor_id
      → Refused route
          (run_requests calls (handle_webhook route w q s).1)
          (handle_webhook route v r (run_requests calls (handle_webhook route w q s).1))
  no_replay w q s h a complete read known timely kept calls v r k again nonce anchor =
      noted-Refused v r (run_requests calls (handle_webhook route w q s).1) k again (
        run_requests-Grows calls (handle_webhook route w q s).1 (k.nonce, k.anchor_id)
          (rw (nonce, anchor)
            (handle_webhook-noted route w q s h a complete read known timely kept)))
