-- ===== src/Backend/Kyc/Decision.antt =====
-- Whom `getStatusForUser` (`backend/src/kyc-upsert-service.ts`) lets transfer.
use swift_remit.Prelude.{
  ℕ, ◌≡◌, ◌≢◌, refl, sym, ◌∙◌, ◌↔◌, inl, inr, Bool, true, false, not, ◌&&◌, ◌||◌, none, some, List,
  [], ◌∷◌, any, arith, leb, if◌then◌else◌, Bool-cases,
}
use swift_remit.Prelude.Dict.{Text, Dict, text_beq_iff, text_eq, ◌==◌, ==_refl, lookup}
use swift_remit.Prelude.Dict.Keys.{IsKeyed, any-lookup}
use swift_remit.Backend.Kyc.{
  pending, approved, UserKycStatus, rejected, status_result, has_expired, re_verification,
  kyc_expired, kyc_rejected, kyc_pending, re_verification_pending, is_status, KycStatus,
  AnchorKycRecord, KycRow, UserAnchor, pair_eq, place, anchor_record, rows_for, is_current, decide,
  get_status_for_user,
}

pub and_left : (a b : Bool) → (a && b) ≡ true → a ≡ true
and_left a b h = ground arith

pub and_right : (a b : Bool) → (a && b) ≡ true → b ≡ true
and_right a b h = ground arith

not_both : (b : Bool) → b ≡ true → ¬ (not b ≡ true)
not_both b h k = ground arith

pub is_status_iff : (s t : KycStatus) → (is_status s t ≡ true) ↔ (s ≡ t)
is_status_iff s t = ground arith

any-place :
    (p : AnchorKycRecord → Bool) (a : AnchorKycRecord) (bs : List AnchorKycRecord)
    → any p (place a bs) ≡ (p a || any p bs)
unfolding place
any-place p a [] = refl
any-place p a (b ∷ bs) = elim (Bool-cases (leb b.verified_at a.verified_at)) [
  | inl before ↦ rw before refl
  | inr later ↦ rw (later, any-place p a bs) (ground arith)
]

any-rows_for :
    (p : AnchorKycRecord → Bool) (user : Text) (d : Dict UserAnchor KycRow)
    → any p (rows_for user d) ≡ any (λ ((u, a), r). u == user && p (anchor_record a r)) d
unfolding rows_for
any-rows_for p user [] = refl
any-rows_for p user (((u, a), r) ∷ d) = elim (Bool-cases (u == user)) [
  | inl own ↦ rw (own, any-place, any-rows_for p user d) refl
  | inr other ↦ rw (other, any-rows_for p user d) refl
]

-- A row of the user passes a test.
pub rows_for-some :
    (p : AnchorKycRecord → Bool) (user : Text) (d : Dict UserAnchor KycRow)
    → IsKeyed d
    → (any p (rows_for user d) ≡ true)
      ↔ ((a : Text) × (r : KycRow) × (lookup (user, a) d ≡ some r) × (p (anchor_record a r) ≡ true))
rows_for-some p user d keyed =
    let own : UserAnchor × KycRow → Bool = λ ((u, a), r). u == user && p (anchor_record a r) in
    let found = any-lookup own d keyed in
    (
      (λ b.
          let ((u, a), r, there, q) = found.0 (rw (sym (any-rows_for p user d)) b) in
          (
            a,
            r,
            rw (sym ((text_beq_iff u user).0 (and_left (u == user) (p (anchor_record a r)) q)))
                there,
            and_right (u == user) (p (anchor_record a r)) q,
          )),
      (λ (a, r, there, q). rw any-rows_for (found.1 ((user, a), r, there, rw (==_refl user) q))),
    )

-- No row of the user passes a test.
pub rows_for_none :
    (p : AnchorKycRecord → Bool) (user : Text) (d : Dict UserAnchor KycRow)
    → IsKeyed d
    → (any p (rows_for user d) ≡ false)
      ↔ ((a : Text) (r : KycRow) → lookup (user, a) d ≡ some r → p (anchor_record a r) ≡ false)
rows_for_none p user d keyed = (
  (λ no_row a r there. elim (Bool-cases (p (anchor_record a r))) [
    | inl q ↦ absurd (cc (no_row, (rows_for-some p user d keyed).1 (a, r, there, q)))
    | inr q ↦ q
  ]),
  (λ none_there. elim (Bool-cases (any p (rows_for user d))) [
    | inl b ↦
        let (a, r, there, q) = (rows_for-some p user d keyed).0 b in
        absurd (cc (none_there a r there, q))
    | inr b ↦ b
  ]),
)

-- The result by what some row is: in re-verification, current, expired, rejected.
abbrev verdict : Bool → Bool → Bool → Bool → List AnchorKycRecord → ℕ → UserKycStatus
verdict b₁ b₂ b₃ b₄ rows now =
    if b₁
    then status_result pending false (some re_verification) rows now
    else if b₂
    then status_result approved true none rows now
    else if b₃
    then status_result rejected false (some kyc_expired) rows now
    else if b₄
    then status_result rejected false (some kyc_rejected) rows now
    else status_result pending false (some kyc_pending) rows now

verdict_lem :
    (b₁ b₂ b₃ b₄ : Bool) (rows : List AnchorKycRecord) (now : ℕ)
    → ((verdict b₁ b₂ b₃ b₄ rows now).can_transfer ≡ (not b₁ && b₂))
      × ((verdict b₁ b₂ b₃ b₄ rows now).anchors ≡ rows)
verdict_lem true b₂ b₃ b₄ rows now = (refl, refl)
verdict_lem false true b₃ b₄ rows now = (refl, refl)
verdict_lem false false true b₄ rows now = (refl, refl)
verdict_lem false false false true rows now = (refl, refl)
verdict_lem false false false false rows now = (refl, refl)

pub decide_lem :
    (rows : List AnchorKycRecord) (now : ℕ)
    → ((decide rows now).can_transfer ≡ (
        not (any (λ a. is_status a.kyc_status re_verification_pending) rows)
        && any (λ a. is_current now a.kyc_status a.expires_at) rows))
      × ((decide rows now).anchors ≡ rows)
unfolding decide
decide_lem [] now = (refl, refl)
decide_lem (r ∷ rs) now =
    verdict_lem (any (λ a. is_status a.kyc_status re_verification_pending) (r ∷ rs))
      (any (λ a. is_current now a.kyc_status a.expires_at) (r ∷ rs))
      (any (λ a. is_status a.kyc_status approved && has_expired now a.expires_at) (r ∷ rs))
      (any (λ a. is_status a.kyc_status rejected) (r ∷ rs)) (r ∷ rs) now

-- A user can transfer exactly when some anchor's record is approved and has not expired, and no
-- anchor's record is in re-verification.
pub get_status_can_transfer :
    (user : Text) (now : ℕ) (d : Dict UserAnchor KycRow)
    → IsKeyed d
    → ((get_status_for_user user now d).can_transfer ≡ true) ↔ (
        ((a : Text) × (r : KycRow) × (lookup (user, a) d ≡ some r)
          × (is_current now r.kyc_status r.expires_at ≡ true))
        × ((a : Text) (r : KycRow)
            → lookup (user, a) d ≡ some r
            → r.kyc_status ≢ re_verification_pending))
unfolding get_status_for_user
get_status_can_transfer user now d keyed =
    let re : AnchorKycRecord → Bool = λ a. is_status a.kyc_status re_verification_pending in
    let current : AnchorKycRecord → Bool = λ a. is_current now a.kyc_status a.expires_at in
    let rows = rows_for user d in
    (
      (λ can.
          let both : (not (any re rows) && any current rows) ≡ true =
            sym (decide_lem rows now).0 ∙ can in
          (
            (rows_for-some current user d keyed).0
                (and_right (not (any re rows)) (any current rows) both),
            (λ a r there e.
                not_both (any re rows)
                  ((rows_for-some re user d keyed).1
                    (a, r, there, (is_status_iff r.kyc_status re_verification_pending).1 e))
                  (and_left (not (any re rows)) (any current rows) both)),
          )),
      (λ (c, free). elim (Bool-cases (any re rows)) [
        | inl b ↦
            let (a, r, there, e) = (rows_for-some re user d keyed).0 b in
            absurd (free a r there ((is_status_iff r.kyc_status re_verification_pending).0 e))
        | inr b ↦ (decide_lem rows now).0 ∙ rw (b, (rows_for-some current user d keyed).1 c) refl
      ]),
    )
