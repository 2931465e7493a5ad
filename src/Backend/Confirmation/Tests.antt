-- ===== src/Backend/Confirmation/Tests.antt =====
-- The theorems on the confirmations at a concrete action.
use swift_remit.Prelude.{ℕ, ◌≡◌, refl, ◌↔◌, true, Option, some, none, [], ◌∷◌, arith}
use swift_remit.Prelude.Dict.{Text, text_eq, lookup}
use swift_remit.Prelude.Strings.{text}
use swift_remit.Prelude.Result.{ok, err}
use swift_remit.Backend.Confirmation
use swift_remit.Backend.Confirmation.{
  PendingAdminAction, AdminDb, already_confirmed, is_set, confirm_check, signed, confirm_update,
  confirm,
}
use swift_remit.Backend.Confirmation.FourEyes.{Confirmable, different, confirm_lem, confirm_race}

abbrev action : PendingAdminAction
action = record {
  operation = Confirmation.update_fee;
  initiated_by = text "A";
  params = text "{}";
  expires_at = 100;
  confirmed_by = none;
  confirmed_at = none;
  created_at = 0;
}

abbrev db : AdminDb
db = record { actions = (text "x", action) ∷ []; audit = [] }

found : lookup (text "x") db.actions ≡ some action
unfolding lookup
found = refl

by_b : Confirmable (text "x") (text "B") 50 db action
by_b = record {
  there = found;
  pending = refl;
  in_time = omega arith;
  other = different (text "A") (text "B") refl;
}

by_c : Confirmable (text "x") (text "C") 60 db action
by_c = record {
  there = found;
  pending = refl;
  in_time = omega arith;
  other = different (text "A") (text "C") refl;
}

confirm_lem_example :
    (((r : Option PendingAdminAction) × ((confirm none (text "x") (text "B") 50 db).0 ≡ ok r)) ↔ (
      ((a : PendingAdminAction) × Confirmable (text "x") (text "B") 50 db a)
      × (◌≡◌ {A = Option Text} none none)))
    × ((a : PendingAdminAction)
        → Confirmable (text "x") (text "B") 50 db a
        → (lookup (text "x") (confirm none (text "x") (text "B") 50 db).1.actions
            ≡ some (signed a (text "B") 50))
          × (is_set (some (text "B")) ≡ true
              → (again : Option Text) (second : Text) (later : ℕ)
              → (confirm again
                  (text "x")
                  second
                  later
                  (confirm none (text "x") (text "B") 50 db).1).0
                ≡ err already_confirmed))
confirm_lem_example = confirm_lem none (text "x") (text "B") 50 db

confirm_race_example :
    let (first, between) = confirm_update none (text "x") (text "B") 50 action db in
    let (second, after) = confirm_update none (text "x") (text "C") 60 action between in
    (confirm_check (text "x") (text "B") 50 db ≡ ok action)
    × (confirm_check (text "x") (text "C") 60 db ≡ ok action)
    × (first ≡ ok (some (signed action (text "B") 50)))
    × (lookup (text "x") between.actions ≡ some (signed action (text "B") 50))
    × (second ≡ ok (some (signed action (text "C") 60)))
    × (lookup (text "x") after.actions ≡ some (signed action (text "C") 60))
confirm_race_example = confirm_race (text "x") (text "B") (text "C") 50 60 db action by_b by_c
