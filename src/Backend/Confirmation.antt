-- ===== src/Backend/Confirmation.antt =====
-- `AdminConfirmationService` (`backend/src/admin-confirmation.ts`) over the table
-- `pending_admin_actions`. The identifier of a new action comes from the database and is an argument.
-- `confirm` sends two statements: its checks on what the first has read, and the update, are two
-- functions, so that another call can come between them. The parameters of an action are a text. Whether
-- the database takes an entry of the audit log, which is written last, is an argument.
use swift_remit.Prelude.{
  ℕ, ◌+◌, ◌*◌, Bool, true, false, not, ◌&&◌, Option, none, some, List, [], ◌∷◌, ◌++◌, leb, ltb,
  if◌then◌else◌,
}
use swift_remit.Prelude.Dict.{Text, text_eq, ◌==◌, Dict, lookup, insert}
use swift_remit.Prelude.Strings.{text}
use swift_remit.Prelude.Result.{Result, ok, err, ⊤, Action, pure, modify, ◌>>=◌, ◌>>◌}
pub mod FourEyes
mod Tests

-- `HighRiskOperation`
pub data HighRiskOperation : Type 0 where
  withdraw_fees remove_agent update_fee : HighRiskOperation

unfoldable pub operation_name : HighRiskOperation → Text
operation_name withdraw_fees = text "withdraw_fees"
operation_name remove_agent = text "remove_agent"
operation_name update_fee = text "update_fee"

-- `PendingAdminAction`, under its identifier.
pub record PendingAdminAction : Type 0 where
  pub operation : HighRiskOperation
  pub initiated_by : Text
  pub params : Text
  pub expires_at : ℕ
  pub confirmed_by : Option Text
  pub confirmed_at : Option ℕ
  pub created_at : ℕ

-- What is passed to `auditLog.log`.
pub record AuditEntry : Type 0 where
  pub admin_address : Text
  pub action : Text
  pub target : Text
  pub params_json : Text

pub record AdminDb : Type 0 where
  pub actions : Dict Text PendingAdminAction
  pub audit : List AuditEntry

pub data ConfirmError : Type 0 where
  not_found : Text → ConfirmError
  already_confirmed has_expired own_action : ConfirmError
  log_failed : Text → ConfirmError

-- `EXPIRY_HOURS * 60 * 60 * 1000`
abbrev pub expiry_ms : ℕ
expiry_ms = 1 * 60 * 60 * 1000

-- `auditLog.log`
unfoldable pub log_entry : Option Text → AuditEntry → Action AdminDb ConfirmError ⊤
log_entry none entry db = (ok tt, record db { audit = db.audit ++ entry ∷ [] })
log_entry (some why) entry db = (err (log_failed why), db)

-- The row that the INSERT makes.
unfoldable pub new_action : HighRiskOperation → Text → Text → ℕ → PendingAdminAction
new_action op admin params now = record {
  operation = op;
  initiated_by = admin;
  params = params;
  expires_at = now + expiry_ms;
  confirmed_by = none;
  confirmed_at = none;
  created_at = now;
}

-- `initiate`
unfoldable pub initiate :
    Option Text
    → HighRiskOperation
    → Text
    → Text
    → Text
    → ℕ
    → Action AdminDb ConfirmError PendingAdminAction
unfolding operation_name new_action log_entry
initiate refuses op admin params id now = do
  modify (λ db. record db { actions = insert id (new_action op admin params now) db.actions })
  log_entry refuses (record {
    admin_address = admin;
    action = operation_name op ++ text ".initiated";
    target = id;
    params_json = params;
  })
  pure (new_action op admin params now)

-- `get`
unfoldable pub get_action : Text → AdminDb → Option PendingAdminAction
get_action id db = lookup id db.actions

-- `if (existing.confirmed_by)`
abbrev pub is_set : Option Text → Bool
is_set none = false
is_set (some []) = false
is_set (some (c ∷ cs)) = true

-- The reading and the checks of `confirm`.
unfoldable pub confirm_check : Text → Text → ℕ → AdminDb → Result ConfirmError PendingAdminAction
unfolding get_action
confirm_check id admin now db = elim (get_action id db) [
  | none ↦ err (not_found id)
  | some a ↦
      if is_set a.confirmed_by
      then err already_confirmed
      else if ltb a.expires_at now
      then err has_expired
      else if a.initiated_by == admin
      then err own_action
      else ok a
]

abbrev pub signed : PendingAdminAction → Text → ℕ → PendingAdminAction
signed a admin now = record a { confirmed_by = some admin; confirmed_at = some now }

-- The UPDATE of `confirm`, with what it returns; that is `undefined` when the row is gone.
unfoldable pub sign_action :
    Text → Text → ℕ → Action AdminDb ConfirmError (Option PendingAdminAction)
sign_action id admin now db = elim (lookup id db.actions) [
  | none ↦ (ok none, db)
  | some a ↦ (
    ok (some (signed a admin now)),
    record db { actions = insert id (signed a admin now) db.actions },
  )
]

-- What `confirm` does after its checks, for the action that was read.
unfoldable pub confirm_update :
    Option Text
    → Text
    → Text
    → ℕ
    → PendingAdminAction
    → Action AdminDb ConfirmError (Option PendingAdminAction)
unfolding operation_name log_entry sign_action
confirm_update refuses id admin now existing = do
  action ← sign_action id admin now
  log_entry refuses (record {
    admin_address = admin;
    action = operation_name existing.operation ++ text ".confirmed";
    target = id;
    params_json = existing.params;
  })
  pure action

-- `confirm`, when nothing comes between.
unfoldable pub confirm :
    Option Text → Text → Text → ℕ → Action AdminDb ConfirmError (Option PendingAdminAction)
unfolding confirm_check confirm_update
confirm refuses id admin now db = elim (confirm_check id admin now db) [
  | err e ↦ (err e, db)
  | ok a ↦ confirm_update refuses id admin now a db
]

-- `purgeExpired`: how many rows were deleted, and the table.
unfoldable pub purge_expired : ℕ → Dict Text PendingAdminAction → ℕ × Dict Text PendingAdminAction
purge_expired now [] = (0, [])
purge_expired now ((id, a) ∷ d) =
    let (n, rest) = purge_expired now d in
    elim a.confirmed_by [
      | some by ↦ (n, (id, a) ∷ rest)
      | none ↦ if leb a.expires_at now then (n + 1, rest) else (n, (id, a) ∷ rest)
    ]
