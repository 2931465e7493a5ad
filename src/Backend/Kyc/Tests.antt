-- ===== src/Backend/Kyc/Tests.antt =====
-- The theorems on the KYC records at concrete inputs.
use swift_remit.Prelude.{
  ℕ, ◌≤◌, ◌≡◌, ◌≢◌, ◌↔◌, inr, true, false, Option, none, some, List, [], ◌∷◌, All, arith,
}
use swift_remit.Prelude.Dict.{Text, lookup, text_eq}
use swift_remit.Prelude.Dict.Keys.{IsKeyed}
use swift_remit.Prelude.Strings.{text}
use swift_remit.Backend.Kyc.{
  KycRecord, KycRow, KycDb, KycStatus, pair_eq, approved, rejected, re_verification_pending,
  is_current, get_status_for_user, upsert,
}
use swift_remit.Backend.Kyc.Decision.{get_status_can_transfer}
use swift_remit.Backend.Kyc.Guard.{next, Admits, transfer_guard, transfer_guard_next}
use swift_remit.Backend.Kyc.Newest.{
  UpsertCall, key_of, is_taken, run_upserts, IsSince, upsert_swap, run_upserts_newest,
  run_upserts-IsKeyed,
}

abbrev entry : Text → KycStatus → ℕ → Option ℕ → KycRecord
entry anchor status at expires = record {
  user_id = text "u";
  anchor_id = anchor;
  kyc_status = status;
  kyc_level = none;
  rejection_reason = none;
  verified_at = at;
  expires_at = expires;
}

abbrev old_rejection : KycRecord
old_rejection = entry (text "x") rejected 5 none

abbrev new_approval : KycRecord
new_approval = entry (text "x") approved 8 (some 100)

abbrev empty : KycDb
empty = record { rows = []; synced = [] }

-- The older record arrives last.
abbrev calls : List UpsertCall
calls =
    record { entry = new_approval; now = 10; refuses = none }
    ∷ record { entry = old_rejection; now = 11; refuses = none }
    ∷ []

abbrev db : KycDb
db = run_upserts calls empty

keyed : IsKeyed db.rows
keyed = run_upserts-IsKeyed calls empty tt

get_status_can_transfer_example :
    ((get_status_for_user (text "u") 50 db.rows).can_transfer ≡ true) ↔ (
      ((a : Text) × (r : KycRow) × (lookup (text "u", a) db.rows ≡ some r)
        × (is_current 50 r.kyc_status r.expires_at ≡ true))
      × ((a : Text) (r : KycRow)
          → lookup (text "u", a) db.rows ≡ some r
          → r.kyc_status ≢ re_verification_pending))
get_status_can_transfer_example = get_status_can_transfer (text "u") 50 db.rows keyed

fifty_le : 50 ≤ 51
fifty_le = omega arith

transfer_guard_next_example :
    (transfer_guard (some (text "u")) false 50 51 db.rows ≡ next)
    ↔ ((false ≡ false) × (id : Text) × (some (text "u") ≡ some id) × Admits id 51 db.rows)
transfer_guard_next_example =
    transfer_guard_next (some (text "u")) false 50 51 db.rows fifty_le keyed

times_differ : new_approval.verified_at ≢ old_rejection.verified_at
times_differ = omega arith

upsert_swap_example :
    lookup
      (text "u", text "x")
      (upsert none old_rejection 11 (upsert none new_approval 10 empty).1).1.rows
    ≡ lookup
        (text "u", text "x")
        (upsert none new_approval 10 (upsert none old_rejection 11 empty).1).1.rows
upsert_swap_example =
    upsert_swap new_approval old_rejection 10 11 none none empty (inr times_differ)
      (text "u", text "x")

run_upserts_newest_example :
    All
      (λ (c : UpsertCall).
        is_taken c.refuses c.entry ≡ true
        → IsSince (key_of c.entry) c.entry.verified_at (run_upserts calls empty))
      calls
run_upserts_newest_example = run_upserts_newest calls empty
