-- ===== src/Backend/Kyc/Guard.antt =====
-- The middleware of `createTransferGuard` (`backend/src/transfer-guard.ts`). It reads the clock once
-- in `getStatusForUser` and once more; whether `getStatusForUser` throws is a parameter.
use swift_remit.Prelude.{
  ℕ, ◌≤◌, ◌≡◌, ◌≢◌, refl, sym, ap, ◌↔◌, inl, inr, Bool, true, false, ◌&&◌, Option, none, some, [],
  ◌∷◌, any, arith, if◌then◌else◌, Bool-cases,
}
use swift_remit.Prelude.Dict.{Text, text_eq, Dict, lookup}
use swift_remit.Prelude.Dict.Keys.{IsKeyed}
use swift_remit.Prelude.Strings.{text}
use swift_remit.Backend.Kyc.{
  approved, re_verification_pending, is_status, anchor_record, KycRow, UserAnchor, UserKycStatus,
  pair_eq, Reason, no_kyc_record, re_verification, kyc_expired, kyc_rejected, kyc_pending,
  AnchorKycRecord, has_expired, is_current, rows_for, get_status_for_user,
}
use swift_remit.Backend.Kyc.Decision.{
  get_status_can_transfer, rows_for_none, decide_lem, is_status_iff, and_left,
}

-- `next()`, or the response.
pub data GuardResult : Type 0 where
  next : GuardResult
  unauthorized : GuardResult
  forbidden : Text → Text → GuardResult
  internal_server_error : GuardResult

-- The `switch` on the reason.
unfoldable pub refusal : Option Reason → GuardResult
refusal none = forbidden (text "KYC_NOT_APPROVED") (text "KYC not approved")
refusal (some kyc_expired) = forbidden (text "KYC_EXPIRED") (text "KYC has expired")
refusal (some re_verification) =
    forbidden (text "KYC_RE_VERIFICATION_PENDING") (text "KYC re-verification in progress")
refusal (some kyc_pending) = forbidden (text "KYC_PENDING") (text "KYC pending")
refusal (some no_kyc_record) = forbidden (text "KYC_PENDING") (text "KYC pending")
refusal (some kyc_rejected) = forbidden (text "KYC_NOT_APPROVED") (text "KYC rejected")

abbrev pub expired_approved : ℕ → AnchorKycRecord → Bool
expired_approved now a = is_status a.kyc_status approved && has_expired now a.expires_at

abbrev pub in_re_verification : AnchorKycRecord → Bool
in_re_verification a = is_status a.kyc_status re_verification_pending

-- What follows the status.
unfoldable pub respond : UserKycStatus → ℕ → GuardResult
unfolding refusal
respond s now =
    if s.can_transfer
    then if any (expired_approved now) s.anchors
      then forbidden (text "KYC_EXPIRED") (text "KYC has expired")
      else if any in_re_verification s.anchors
      then forbidden (text "KYC_RE_VERIFICATION_PENDING") (text "KYC re-verification in progress")
      else next
    else refusal s.reason

-- The middleware, for `req.user?.id`.
unfoldable pub transfer_guard : Option Text → Bool → ℕ → ℕ → Dict UserAnchor KycRow → GuardResult
unfolding respond
transfer_guard none fails status_time now d = unauthorized
transfer_guard (some []) fails status_time now d = unauthorized
transfer_guard (some (c ∷ cs)) fails status_time now d =
    if fails
    then internal_server_error
    else respond (get_status_for_user (c ∷ cs) status_time d) now

refusal_not : (r : Option Reason) → refusal r ≢ next
unfolding refusal
refusal_not none h = cc
refusal_not (some kyc_expired) h = cc
refusal_not (some re_verification) h = cc
refusal_not (some kyc_pending) h = cc
refusal_not (some no_kyc_record) h = cc
refusal_not (some kyc_rejected) h = cc

respond_next :
    (s : UserKycStatus) (now : ℕ)
    → (respond s now ≡ next) ↔ (
        (s.can_transfer ≡ true)
        × (any (expired_approved now) s.anchors ≡ false)
        × (any in_re_verification s.anchors ≡ false))
unfolding respond
respond_next s now = elim (Bool-cases s.can_transfer) [
  | inr no_transfer ↦ (
    (λ h. absurd (refusal_not s.reason (rw no_transfer at h))),
    (λ (can, _, _). absurd (cc (can, no_transfer))),
  )
  | inl can ↦ elim (Bool-cases (any (expired_approved now) s.anchors)) [
    | inl old ↦
        ((λ h. absurd (cc (rw (can, old) at h))), (λ (_, fresh, _). absurd (cc (fresh, old))))
    | inr fresh ↦ elim (Bool-cases (any in_re_verification s.anchors)) [
      | inl re ↦
          ((λ h. absurd (cc (rw (can, fresh, re) at h))), (λ (_, _, free). absurd (cc (free, re))))
      | inr free ↦ ((λ h. (can, fresh, free)), (λ h. rw (can, fresh, free) refl))
    ]
  ]
]

-- A user with an approved record, none of whose approved records has expired and none of
-- whose records is in re-verification.
pub record Admits (id : Text) (now : ℕ) (d : Dict UserAnchor KycRow) : Type 0 where
  pub named : id ≢ []
  pub approval : (a : Text) × (r : KycRow) × (lookup (id, a) d ≡ some r) × (r.kyc_status ≡ approved)
  pub fresh :
      (a : Text) (r : KycRow)
      → lookup (id, a) d ≡ some r
      → r.kyc_status ≡ approved
      → has_expired now r.expires_at ≡ false
  pub free :
      (a : Text) (r : KycRow) → lookup (id, a) d ≡ some r → r.kyc_status ≢ re_verification_pending

same_text : (i j : Text) → some i ≡ some j → i ≡ j
same_text i j = ap (λ (o : Option Text). elim o [ none ↦ [] | some t ↦ t ])

fresh_row :
    (now : ℕ) (a : Text) (r : KycRow)
    → expired_approved now (anchor_record a r) ≡ false
    → r.kyc_status ≡ approved
    → has_expired now r.expires_at ≡ false
fresh_row now a r h e = rw (sym h, (is_status_iff r.kyc_status approved).1 e) refl

expired_row :
    (now : ℕ) (a : Text) (r : KycRow)
    → (r.kyc_status ≡ approved → has_expired now r.expires_at ≡ false)
    → expired_approved now (anchor_record a r) ≡ false
expired_row now a r h = elim (Bool-cases (is_status r.kyc_status approved)) [
  | inl b ↦ rw (h ((is_status_iff r.kyc_status approved).0 b), b) refl
  | inr b ↦ rw b refl
]

not_in_re :
    (a : Text) (r : KycRow)
    → r.kyc_status ≢ re_verification_pending
    → in_re_verification (anchor_record a r) ≡ false
not_in_re a r h = elim (Bool-cases (is_status r.kyc_status re_verification_pending)) [
  | inl b ↦ absurd (h ((is_status_iff r.kyc_status re_verification_pending).0 b))
  | inr b ↦ b
]

respond-Admits :
    (id : Text) (t now : ℕ) (d : Dict UserAnchor KycRow)
    → IsKeyed d
    → id ≢ []
    → respond (get_status_for_user id t d) now ≡ next
    → Admits id now d
unfolding get_status_for_user
respond-Admits id t now d keyed named h =
    let (can, fresh, free) = (respond_next (get_status_for_user id t d) now).0 h in
    let ((a, r, there, current), no_re) = (get_status_can_transfer id t d keyed).0 can in
    let anchors = (decide_lem (rows_for id d) t).1 in
    record {
      named = named;
      approval = (
        a,
        r,
        there,
        (is_status_iff r.kyc_status approved).0
            (and_left (is_status r.kyc_status approved) _ current),
      );
      fresh = λ a r there.
          fresh_row now a r
            ((rows_for_none (expired_approved now) id d keyed).0 (rw anchors at fresh) a r there);
      free = no_re;
    }

has_expired_earlier :
    (t now : ℕ) (e : Option ℕ) → t ≤ now → has_expired now e ≡ false → has_expired t e ≡ false
has_expired_earlier t now none le h = refl
has_expired_earlier t now (some x) le h = ground arith

current_row :
    (t now : ℕ) (a : Text) (r : KycRow)
    → t ≤ now
    → r.kyc_status ≡ approved
    → has_expired now r.expires_at ≡ false
    → is_current t r.kyc_status r.expires_at ≡ true
current_row t now a r le e fresh =
    rw ((is_status_iff r.kyc_status approved).1 e, has_expired_earlier t now r.expires_at le fresh)
      refl

Admits-respond :
    (id : Text) (t now : ℕ) (d : Dict UserAnchor KycRow)
    → t ≤ now
    → IsKeyed d
    → Admits id now d
    → respond (get_status_for_user id t d) now ≡ next
unfolding get_status_for_user
Admits-respond id t now d le keyed may =
    let (a, r, there, e) = may.approval in
    let anchors = (decide_lem (rows_for id d) t).1 in
    (respond_next (get_status_for_user id t d) now).1 (
      (get_status_can_transfer id t d keyed).1
          ((a, r, there, current_row t now a r le e (may.fresh a r there e)), may.free),
      rw anchors (
          (rows_for_none (expired_approved now) id d keyed).1
            (λ a r there. expired_row now a r (may.fresh a r there))),
      rw anchors (
          (rows_for_none in_re_verification id d keyed).1
            (λ a r there. not_in_re a r (may.free a r there))),
    )

-- When the second reading of the clock is not before the first: the request goes on exactly when the
-- status could be read, and the user is signed in, has an approved record, no approved record that
-- has expired at the second reading, and no record in re-verification.
pub transfer_guard_next :
    (user : Option Text) (fails : Bool) (status_time now : ℕ) (d : Dict UserAnchor KycRow)
    → status_time ≤ now
    → IsKeyed d
    → (transfer_guard user fails status_time now d ≡ next)
      ↔ ((fails ≡ false) × (id : Text) × (user ≡ some id) × Admits id now d)
unfolding transfer_guard
transfer_guard_next none fails t now d le keyed =
    ((λ h. absurd (cc h)), (λ (_, id, there, _). absurd (cc there)))
transfer_guard_next (some []) fails t now d le keyed = (
  (λ h. absurd (cc h)),
  (λ (_, id, there, may). absurd (may.named (same_text id [] (sym there)))),
)
transfer_guard_next (some (c ∷ cs)) true t now d le keyed =
    ((λ h. absurd (cc h)), (λ (f, _, _, _). absurd (cc f)))
transfer_guard_next (some (c ∷ cs)) false t now d le keyed = (
  (λ h. (refl, c ∷ cs, refl, respond-Admits (c ∷ cs) t now d keyed (λ e. cc e) h)),
  (λ (_, id, there, may).
      rw (same_text (c ∷ cs) id there) (Admits-respond id t now d le keyed may)),
)
