-- ===== src/Backend/Confirmation/FourEyes.antt =====
-- The rule of two administrators in `backend/src/admin-confirmation.ts`.
use swift_remit.Prelude.{
  ℕ, ◌≤◌, ◌≡◌, ◌≢◌, refl, sym, ap, ◌↔◌, inl, inr, true, false, Option, some, none, ltb, arith,
  Bool-cases, Option-cases,
}
use swift_remit.Prelude.Dict.{Text, text_eq, text_beq_iff, ◌==◌, lookup, insert, lookup-insert_self}
use swift_remit.Prelude.Result.{Result, ok, err, ◌>>=◌, Result-cases}
use swift_remit.Backend.Confirmation.{
  PendingAdminAction, AdminDb, ConfirmError, already_confirmed, log_failed, is_set, log_entry,
  sign_action, get_action, confirm_check, signed, confirm_update, confirm,
}

-- The action is there, is not confirmed and has not expired, and another administrator initiated it.
pub record Confirmable (id admin : Text) (now : ℕ) (db : AdminDb) (a : PendingAdminAction)
    : Type 0 where
  pub there : lookup id db.actions ≡ some a
  pub pending : is_set a.confirmed_by ≡ false
  pub in_time : now ≤ a.expires_at
  pub other : a.initiated_by ≢ admin

ok_inj :
    (x a : PendingAdminAction) → Path (Result ConfirmError PendingAdminAction) (ok x) (ok a) → x ≡ a
ok_inj x a = ap (λ (r : Result ConfirmError PendingAdminAction). elim r [ ok y ↦ y | err e ↦ x ])

not_late : (e now : ℕ) → ltb e now ≡ false → now ≤ e
not_late e now h = ground arith

in_time_test : (e now : ℕ) → now ≤ e → ltb e now ≡ false
in_time_test e now h = ground arith

pub different : (s t : Text) → (s == t) ≡ false → s ≢ t
different s t h e = cc (h, (text_beq_iff s t).1 e)

other_test : (s t : Text) → s ≢ t → (s == t) ≡ false
other_test s t h = elim (Bool-cases (s == t)) [
  | inl same ↦ absurd (h ((text_beq_iff s t).0 same))
  | inr other ↦ other
]

-- A confirmed action is refused.
already :
    (id admin : Text) (now : ℕ) (db : AdminDb) (a : PendingAdminAction)
    → lookup id db.actions ≡ some a
    → is_set a.confirmed_by ≡ true
    → confirm_check id admin now db ≡ err already_confirmed
unfolding confirm_check get_action
already id admin now db a found done = rw (found, confirm_check, done) refl

confirm_check-Confirmable :
    (id admin : Text) (now : ℕ) (db : AdminDb) (a : PendingAdminAction)
    → confirm_check id admin now db ≡ ok a
    → Confirmable id admin now db a
unfolding confirm_check get_action
confirm_check-Confirmable id admin now db a h = elim (Option-cases (lookup id db.actions)) [
  | inl absent ↦ absurd (cc (rw (absent, confirm_check) at h))
  | inr (x, found) ↦ elim (Bool-cases (is_set x.confirmed_by)) [
    | inl done ↦ absurd (cc (rw (found, confirm_check, done) at h))
    | inr open_yet ↦ elim (Bool-cases (ltb x.expires_at now)) [
      | inl late ↦ absurd (cc (rw (found, confirm_check, open_yet, late) at h))
      | inr timely ↦ elim (Bool-cases (x.initiated_by == admin)) [
        | inl own ↦ absurd (cc (rw (found, confirm_check, open_yet, timely, own) at h))
        | inr other ↦
            rw (sym (ok_inj x a (rw (found, confirm_check, open_yet, timely, other) at h)))
              (record {
                there = found;
                pending = open_yet;
                in_time = not_late x.expires_at now timely;
                other = λ e. different x.initiated_by admin other e;
              })
      ]
    ]
  ]
]

Confirmable-confirm_check :
    (id admin : Text) (now : ℕ) (db : AdminDb) (a : PendingAdminAction)
    → Confirmable id admin now db a
    → confirm_check id admin now db ≡ ok a
unfolding confirm_check get_action
Confirmable-confirm_check id admin now db a h =
    rw
      (
        h.there,
        confirm_check,
        h.pending,
        in_time_test a.expires_at now h.in_time,
        other_test a.initiated_by admin h.other,
      )
      refl

-- The update is of the row that is there then, for an action `x` that was read before.
update-result :
    (id admin : Text) (now : ℕ) (x a : PendingAdminAction) (db : AdminDb)
    → lookup id db.actions ≡ some a
    → (confirm_update none id admin now x db).0 ≡ ok (some (signed a admin now))
unfolding confirm_update sign_action log_entry lookup
update-result id admin now x a db there = rw (there, confirm_update, ◌>>=◌, sign_action) refl

update-refused :
    (why id admin : Text) (now : ℕ) (x a : PendingAdminAction) (db : AdminDb)
    → lookup id db.actions ≡ some a
    → (confirm_update (some why) id admin now x db).0 ≡ err (log_failed why)
unfolding confirm_update sign_action log_entry lookup
update-refused why id admin now x a db there = rw (there, confirm_update, ◌>>=◌, sign_action) refl

sign_action-actions :
    (id admin : Text) (now : ℕ) (a : PendingAdminAction) (db : AdminDb)
    → lookup id db.actions ≡ some a
    → (sign_action id admin now db).1.actions ≡ insert id (signed a admin now) db.actions
unfolding sign_action
sign_action-actions id admin now a db there = rw (there, sign_action) refl

-- The row is signed, whether the log takes its entry or not.
update-actions :
    (log : Option Text) (id admin : Text) (now : ℕ) (x a : PendingAdminAction) (db : AdminDb)
    → lookup id db.actions ≡ some a
    → (confirm_update log id admin now x db).1.actions ≡ insert id (signed a admin now) db.actions
unfolding confirm_update sign_action log_entry lookup
update-actions none id admin now x a db there =
    rw (there, confirm_update, ◌>>=◌, sign_action) (sign_action-actions id admin now a db there)
update-actions (some why) id admin now x a db there =
    rw (there, confirm_update, ◌>>=◌, sign_action) (sign_action-actions id admin now a db there)

update-lookup :
    (log : Option Text) (id admin : Text) (now : ℕ) (x a : PendingAdminAction) (db : AdminDb)
    → lookup id db.actions ≡ some a
    → lookup id (confirm_update log id admin now x db).1.actions ≡ some (signed a admin now)
update-lookup log id admin now x a db there =
    rw (update-actions log id admin now x a db there)
      (lookup-insert_self id (signed a admin now) db.actions)

confirm-update :
    (log : Option Text) (id admin : Text) (now : ℕ) (db : AdminDb) (a : PendingAdminAction)
    → Confirmable id admin now db a
    → confirm log id admin now db ≡ confirm_update log id admin now a db
unfolding confirm
confirm-update log id admin now db a k =
    rw (Confirmable-confirm_check id admin now db a k, confirm) refl

confirm-lookup :
    (log : Option Text) (id admin : Text) (now : ℕ) (db : AdminDb) (a : PendingAdminAction)
    → Confirmable id admin now db a
    → lookup id (confirm log id admin now db).1.actions ≡ some (signed a admin now)
confirm-lookup log id admin now db a k =
    rw (confirm-update log id admin now db a k) (update-lookup log id admin now a a db k.there)

-- What a confirmation that succeeds had.
confirm-Confirmable :
    (log : Option Text) (id admin : Text) (now : ℕ) (db : AdminDb) (r : Option PendingAdminAction)
    → (confirm log id admin now db).0 ≡ ok r
    → ((a : PendingAdminAction) × Confirmable id admin now db a) × (log ≡ none)
unfolding confirm
confirm-Confirmable log id admin now db r h = elim (Result-cases (confirm_check id admin now db)) [
  | inr (e, bad) ↦ absurd (cc (rw (bad, confirm) at h))
  | inl (a, fine) ↦
      let k = confirm_check-Confirmable id admin now db a fine in
      (
        (a, k),
        (elim (Option-cases log) [
          | inl taken ↦ taken
          | inr (why, refused) ↦ absurd (
              cc (
                update-refused why id admin now a a db k.there,
                rw (confirm-update log id admin now db a k, refused) at h,
              ))
        ]),
      )
]

-- A confirmation succeeds exactly when the action is there, is not confirmed, has not expired, and was
-- initiated by another administrator, and the audit log takes its entry. Whenever the four conditions on the
-- action hold, also when the log refuses the entry, the action then carries the name of who confirmed
-- it, and an administrator with a name confirms it for good: any later call for it is refused.
pub confirm_lem :
    (log : Option Text) (id admin : Text) (now : ℕ) (db : AdminDb)
    → (((r : Option PendingAdminAction) × ((confirm log id admin now db).0 ≡ ok r))
        ↔ (((a : PendingAdminAction) × Confirmable id admin now db a) × (log ≡ none)))
      × ((a : PendingAdminAction)
          → Confirmable id admin now db a
          → (lookup id (confirm log id admin now db).1.actions ≡ some (signed a admin now))
            × (is_set (some admin) ≡ true
                → (again : Option Text) (second : Text) (later : ℕ)
                → (confirm again id second later (confirm log id admin now db).1).0
                  ≡ err already_confirmed))
unfolding confirm
confirm_lem log id admin now db = (
  (
    (λ (r, h). confirm-Confirmable log id admin now db r h),
    (λ ((a, k), taken). (
      some (signed a admin now),
      rw (confirm-update log id admin now db a k, taken)
          (update-result id admin now a a db k.there),
    )),
  ),
  (λ a k. (
    confirm-lookup log id admin now db a k,
    (λ named again second later.
        rw
          (
            already id second later (confirm log id admin now db).1 (signed a admin now)
                (confirm-lookup log id admin now db a k) named,
            confirm,
          )
          refl),
  )),
)

-- The checks do not guard the update. Of two calls that have both passed their checks on the same action,
-- before either has updated it, both succeed when the log takes their entries; the table has the name of
-- the first after the first update, and that of the second only after the second.
pub confirm_race :
    (id one two : Text) (now later : ℕ) (db : AdminDb) (a : PendingAdminAction)
    → Confirmable id one now db a
    → Confirmable id two later db a
    → let (first, between) = confirm_update none id one now a db in
      let (second, after) = confirm_update none id two later a between in
      (confirm_check id one now db ≡ ok a)
      × (confirm_check id two later db ≡ ok a)
      × (first ≡ ok (some (signed a one now)))
      × (lookup id between.actions ≡ some (signed a one now))
      × (second ≡ ok (some (signed a two later)))
      × (lookup id after.actions ≡ some (signed a two later))
confirm_race id one two now later db a k l =
    let between = (confirm_update none id one now a db).1 in
    let there = update-lookup none id one now a a db k.there in
    (
      Confirmable-confirm_check id one now db a k,
      Confirmable-confirm_check id two later db a l,
      update-result id one now a a db k.there,
      there,
      update-result id two later a (signed a one now) between there,
      update-lookup none id two later a (signed a one now) between there,
    )
