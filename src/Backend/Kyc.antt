-- ===== src/Backend/Kyc.antt =====
-- `KycUpsertService` (`backend/src/kyc-upsert-service.ts`) over the table `user_kyc_status`, which has
-- one row for each user and anchor, and the guard of transfers (`backend/src/transfer-guard.ts`).
-- Times are milliseconds. The database orders rows of one time as it likes: here the first in the
-- table comes first. Whether the database refuses a statement, and whether the call to the contract
-- fails, are parameters; the calls to the contract are kept in the order in which they are made.
use swift_remit.Prelude.{
  ℕ, ◌≡◌, refl, Bool, true, false, not, ◌&&◌, ◌||◌, Option, none, some, List, [], ◌∷◌, ◌++◌, any,
  leb, ltb, if◌then◌else◌, ◌↔◌, arith,
}
use swift_remit.Prelude.Dict.{
  Eq, Text, Dict, text_beq, text_beq_iff, text_eq, ◌==◌, lookup, insert, contains,
}
use swift_remit.Prelude.Strings.{text}
use swift_remit.Prelude.Result.{Result, ok, err, ⊤, Action, ◌>>=◌, ◌>>◌}
pub mod Decision
pub mod Newest
pub mod Guard
mod Tests

-- `KycStatus`
pub data KycStatus : Type 0 where
  pending approved rejected expired re_verification_pending : KycStatus

unfoldable pub KycStatus-discrete : Discrete KycStatus
KycStatus-discrete = hlevel

abbrev pub is_status : KycStatus → KycStatus → Bool
is_status s t = elim (KycStatus-discrete s t) [ yes h ↦ true | no h ↦ false ]

-- `KycLevel`
pub data KycLevel : Type 0 where
  basic intermediate advanced : KycLevel

-- `KycRecord`
pub record KycRecord : Type 0 where
  pub user_id : Text
  pub anchor_id : Text
  pub kyc_status : KycStatus
  pub kyc_level : Option KycLevel
  pub rejection_reason : Option Text
  pub verified_at : ℕ
  pub expires_at : Option ℕ

-- A row of `user_kyc_status` under its user and anchor.
pub record KycRow : Type 0 where
  pub kyc_status : KycStatus
  pub kyc_level : Option KycLevel
  pub rejection_reason : Option Text
  pub verified_at : ℕ
  pub expires_at : Option ℕ
  pub updated_at : ℕ

-- `AnchorKycRecord`
pub record AnchorKycRecord : Type 0 where
  pub anchor_id : Text
  pub kyc_status : KycStatus
  pub kyc_level : Option KycLevel
  pub verified_at : ℕ
  pub expires_at : Option ℕ
  pub rejection_reason : Option Text

pub data Reason : Type 0 where
  no_kyc_record re_verification kyc_expired kyc_rejected kyc_pending : Reason

-- `UserKycStatus`
pub record UserKycStatus : Type 0 where
  pub overall_status : KycStatus
  pub can_transfer : Bool
  pub reason : Option Reason
  pub anchors : List AnchorKycRecord
  pub last_checked : ℕ

pub record SyncCall : Type 0 where
  pub user : Text
  pub approved : Bool
  pub expires_at : Option ℕ

abbrev pub UserAnchor : Type 0
UserAnchor = Text × Text

abbrev pub pair_beq : UserAnchor → UserAnchor → Bool
pair_beq (a, b) (c, d) = text_beq a c && text_beq b d

pub pair_beq_iff : (p q : UserAnchor) → (pair_beq p q ≡ true) ↔ (p ≡ q)
pair_beq_iff (a, b) (c, d) = ground (arith, text_beq_iff a c, text_beq_iff b d)

instance abbrev pub pair_eq : Eq UserAnchor
pair_eq = record { beq = pair_beq; beq_iff = pair_beq_iff }

pub record KycDb : Type 0 where
  pub rows : Dict UserAnchor KycRow
  pub synced : List SyncCall

-- What `upsert` throws.
pub data UpsertError : Type 0 where
  validation_error : KycStatus → UpsertError
  refused : Text → UpsertError

-- `VALID_STATUSES`
unfoldable pub is_valid_status : KycStatus → Bool
is_valid_status pending = true
is_valid_status approved = true
is_valid_status rejected = true
is_valid_status re_verification_pending = true
is_valid_status expired = false

-- The row that the statement would write.
unfoldable pub row_of : KycRecord → ℕ → KycRow
row_of r now = record {
  kyc_status = r.kyc_status;
  kyc_level = r.kyc_level;
  rejection_reason = r.rejection_reason;
  verified_at = r.verified_at;
  expires_at = r.expires_at;
  updated_at = now;
}

-- INSERT … ON CONFLICT … WHERE user_kyc_status.verified_at < EXCLUDED.verified_at: the number of rows
-- that were written, and the table.
unfoldable pub write_row : KycRecord → ℕ → Dict UserAnchor KycRow → Bool × Dict UserAnchor KycRow
unfolding row_of
write_row r now d = elim (lookup (r.user_id, r.anchor_id) d) [
  | none ↦ (true, insert (r.user_id, r.anchor_id) (row_of r now) d)
  | some old ↦
      if ltb old.verified_at r.verified_at
      then (true, insert (r.user_id, r.anchor_id) (row_of r now) d)
      else (false, d)
]

-- The call to the contract, which is caught when it throws.
unfoldable pub sync_status : KycRecord → List SyncCall
sync_status r =
    if is_status r.kyc_status approved
    then record { user = r.user_id; approved = true; expires_at = r.expires_at } ∷ []
    else if is_status r.kyc_status rejected
    then record { user = r.user_id; approved = false; expires_at = none } ∷ []
    else []

-- `upsert`
unfoldable pub upsert : Option Text → KycRecord → ℕ → Action KycDb UpsertError ⊤
unfolding is_valid_status write_row sync_status
upsert refuses r now db =
    if not (is_valid_status r.kyc_status)
    then (err (validation_error r.kyc_status), db)
    else elim refuses [
      | some why ↦ (err (refused why), db)
      | none ↦
          let (written, rows) = write_row r now db.rows in
          (
            ok tt,
            record {
              rows = rows;
              synced = if written then db.synced ++ sync_status r else db.synced;
            },
          )
    ]

-- `ORDER BY verified_at DESC`
unfoldable pub place : AnchorKycRecord → List AnchorKycRecord → List AnchorKycRecord
place a [] = a ∷ []
place a (b ∷ bs) = if leb b.verified_at a.verified_at then a ∷ b ∷ bs else b ∷ place a bs

-- The object that a row is mapped to.
abbrev pub anchor_record : Text → KycRow → AnchorKycRecord
anchor_record a r = record {
  anchor_id = a;
  kyc_status = r.kyc_status;
  kyc_level = r.kyc_level;
  verified_at = r.verified_at;
  expires_at = r.expires_at;
  rejection_reason = r.rejection_reason;
}

-- `SELECT … WHERE user_id = $1 ORDER BY verified_at DESC`, and the map to `AnchorKycRecord`.
unfoldable pub rows_for : Text → Dict UserAnchor KycRow → List AnchorKycRecord
unfolding place
rows_for user [] = []
rows_for user (((u, a), r) ∷ d) =
    let rest = rows_for user d in if u == user then place (anchor_record a r) rest else rest

-- `r.expires_at && r.expires_at <= now`
abbrev pub has_expired : ℕ → Option ℕ → Bool
has_expired now none = false
has_expired now (some t) = leb t now

abbrev pub status_result :
    KycStatus → Bool → Option Reason → List AnchorKycRecord → ℕ → UserKycStatus
status_result s can why anchors now = record {
  overall_status = s;
  can_transfer = can;
  reason = why;
  anchors = anchors;
  last_checked = now;
}

abbrev pub is_current : ℕ → KycStatus → Option ℕ → Bool
is_current now s e = is_status s approved && not (has_expired now e)

-- The decision of `getStatusForUser` on the rows.
unfoldable pub decide : List AnchorKycRecord → ℕ → UserKycStatus
decide [] now = status_result pending false (some no_kyc_record) [] now
decide (r ∷ rs) now =
    let rows = r ∷ rs in
    if any (λ a. is_status a.kyc_status re_verification_pending) rows
    then status_result pending false (some re_verification) rows now
    else if any (λ a. is_current now a.kyc_status a.expires_at) rows
    then status_result approved true none rows now
    else if any (λ a. is_status a.kyc_status approved && has_expired now a.expires_at) rows
    then status_result rejected false (some kyc_expired) rows now
    else if any (λ a. is_status a.kyc_status rejected) rows
    then status_result rejected false (some kyc_rejected) rows now
    else status_result pending false (some kyc_pending) rows now

-- `getStatusForUser`
unfoldable pub get_status_for_user : Text → ℕ → Dict UserAnchor KycRow → UserKycStatus
unfolding rows_for decide
get_status_for_user user now d = decide (rows_for user d) now
