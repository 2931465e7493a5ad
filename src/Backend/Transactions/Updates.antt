-- ===== src/Backend/Transactions/Updates.antt =====
-- What `updateTransactionState` (`backend/src/transaction-state.ts`) does to the tables.
use mathlib.Core.Path.{subst}
use swift_remit.Prelude.{
  arith, ℕ, ◌≡◌, refl, sym, ap, ◌∙◌, ◌⊎◌, inl, inr, true, Bool-cases, Option-cases, Option, none,
  some, [], ◌∷◌, ◌++◌,
}
use swift_remit.Prelude.Dict.{Text, text_eq, lookup, insert, lookup-insert_self}
use swift_remit.Prelude.Result.{Result, ok, err, ⊤, Action}
use swift_remit.Backend.Transactions.{
  TransactionKind, TransactionUpdate, Row, Tables, Statement, UpdateError, refused, begin,
  select_status, update_row, log_transition, commit, commit_answer, connect, rollback, select_row,
  in_transaction, catch_error, check_transition, Session, attempt_update, session_of, begin_work,
  commit_work, rollback_work, writes, visible, update_transaction, log_state, updated_row,
  validate_transition, update_transaction_state, not_found, invalid_transition,
}

-- The tables after an accepted update of the row `r`: its history row is written from the new status.
abbrev pub moved : TransactionUpdate → ℕ → Row → Tables → Tables
moved u now r db = record {
  transactions = insert u.transaction_id (updated_row u now r) db.transactions;
  history =
      db.history
      ++ record {
        transaction_id = u.transaction_id;
        from_status = u.status;
        to_status = u.status;
        changed_at = now;
      }
        ∷ [];
}

pub same_row : (r s : Row) → some r ≡ some s → r ≡ s
same_row r s = ap (λ (o : Option Row). elim o [ none ↦ r | some x ↦ x ])

pub select_row-lookup :
    (i : Text) (k : TransactionKind) (db : Tables) (r : Row)
    → select_row i k db ≡ some r
    → lookup i db.transactions ≡ some r
unfolding select_row
select_row-lookup i k db r h = ground arith

module _ (refuses : Statement → Option Text) (u : TransactionUpdate) (kind : TransactionKind)
    (now : ℕ) where
  abbrev fresh : Tables → Session
  fresh db = record { committed = db; in_progress = none }

  abbrev working : Tables → Tables → Session
  working db t = record { committed = db; in_progress = some t }

  -- How the `try` block ends: with an error before COMMIT has been taken, or after.
  abbrev Ends : Tables → Result UpdateError ⊤ × Session → Type 0
  Ends db o =
      ((e : UpdateError) × (s : Session) × (o ≡ (err e, s)) × (s.committed ≡ db))
      ⊎ ((r : Row) × (select_row u.transaction_id kind db ≡ some r)
          × (validate_transition r.status u.status kind ≡ true)
          × ((o ≡ (ok tt, fresh (moved u now r db)))
              ⊎ ((w : Text) × (refuses commit_answer ≡ some w)
                  × (o ≡ (err (refused w), fresh (moved u now r db))))))

  update_moved :
      (db : Tables) (r : Row)
      → select_row u.transaction_id kind db ≡ some r
      → update_transaction u kind now db
        ≡ record db { transactions = insert u.transaction_id (updated_row u now r) db.transactions }
  unfolding update_transaction
  update_moved db r found = rw (found, update_transaction) refl

  log_moved :
      (db : Tables) (r : Row)
      → select_row u.transaction_id kind db ≡ some r
      → log_state u now (update_transaction u kind now db) ≡ moved u now r db
  log_moved db r found =
      rw (update_moved db r found)
        (unfold log_state updated_row in rw (log_state, lookup-insert_self) refl)

  found_Ends :
      (db : Tables) (r : Row)
      → refuses begin ≡ none
      → refuses select_status ≡ none
      → select_row u.transaction_id kind db ≡ some r
      → validate_transition r.status u.status kind ≡ true
      → Ends db (attempt_update refuses u kind now (fresh db))
  unfolding attempt_update check_transition begin_work commit_work writes visible lookup insert
  found_Ends db r h1 h2 found valid = elim (Option-cases (refuses update_row)) [
    | inr (w, h) ↦ inl (refused w, working db db, rw (h1, h2, found, valid, h) refl, refl)
    | inl h3 ↦ elim (Option-cases (refuses log_transition)) [
      | inr (w, h) ↦ inl (
        refused w,
        working db (update_transaction u kind now db),
        rw (h1, h2, found, valid, h3, h) refl,
        refl,
      )
      | inl h4 ↦ elim (Option-cases (refuses commit)) [
        | inr (w, h) ↦ inl (
          refused w,
          working db (log_state u now (update_transaction u kind now db)),
          rw (h1, h2, found, valid, h3, h4, h) refl,
          refl,
        )
        | inl h5 ↦ elim (Option-cases (refuses commit_answer)) [
          | inl h6 ↦ inr (
            r,
            found,
            valid,
            inl (
                rw (h1, h2, found, valid, h3, h4, h5, h6)
                  (ap (λ t. (ok tt, fresh t)) (log_moved db r found))),
          )
          | inr (w, h6) ↦ inr (
            r,
            found,
            valid,
            inr (
              w,
              h6,
              rw (h1, h2, found, valid, h3, h4, h5, h6)
                  (ap (λ t. (err (refused w), fresh t)) (log_moved db r found)),
            ),
          )
        ]
      ]
    ]
  ]

  attempt-Ends : (db : Tables) → Ends db (attempt_update refuses u kind now (fresh db))
  unfolding attempt_update check_transition begin_work visible lookup
  attempt-Ends db = elim (Option-cases (refuses begin)) [
    | inr (w, h) ↦ inl (refused w, fresh db, rw h refl, refl)
    | inl h1 ↦ elim (Option-cases (refuses select_status)) [
      | inr (w, h) ↦ inl (refused w, working db db, rw (h1, h) refl, refl)
      | inl h2 ↦ elim (Option-cases (select_row u.transaction_id kind db)) [
        | inl absent ↦
            inl (not_found u.transaction_id, working db db, rw (h1, h2, absent) refl, refl)
        | inr (r, found) ↦ elim (Bool-cases (validate_transition r.status u.status kind)) [
          | inl valid ↦ found_Ends db r h1 h2 found valid
          | inr invalid ↦ inl (
            invalid_transition r.status u.status kind u.transaction_id,
            working db db,
            rw (h1, h2, found, invalid) refl,
            refl,
          )
        ]
      ]
    ]
  ]

  abbrev Closed : Session → Result UpdateError ⊤ × Session → Type 0
  Closed t o =
      ((x : UpdateError) × (o.0 ≡ err x))
      × (o.1.committed ≡ t.committed)
      × (refuses rollback ≡ none → o.1.in_progress ≡ none)

  -- What `catch` does to the outcome of the `try` block.
  catch_error-Closed : (t : Session) (e : UpdateError) → Closed t (catch_error refuses (err e, t))
  unfolding catch_error rollback_work
  catch_error-Closed t e = elim (Option-cases (refuses rollback)) [
    | inl k ↦ ((e, rw k refl), rw k refl, (λ taken. rw k refl))
    | inr (w, k) ↦ ((refused w, rw k refl), rw k refl, (λ taken. absurd (cc (taken, k))))
  ]

  caught :
      (body : Action Session UpdateError ⊤) (s t : Session) (e : UpdateError)
      → body s ≡ (err e, t)
      → Closed t (in_transaction refuses body s)
  unfolding in_transaction
  caught body s t e h = subst (Closed t) (sym (ap (catch_error refuses) h)) (catch_error-Closed t e)

  uncaught :
      (body : Action Session UpdateError ⊤) (s t : Session)
      → body s ≡ (ok tt, t)
      → in_transaction refuses body s ≡ (ok tt, t)
  unfolding in_transaction catch_error
  uncaught body s t h = ap (catch_error refuses) h

  -- The tables and the connection after the call.
  abbrev Call : Tables → Result UpdateError ⊤ × Session
  Call db = session_of refuses u kind now (fresh db)

  abbrev Rolled : Tables → Type 0
  Rolled db = refuses rollback ≡ none → (Call db).1.in_progress ≡ none

  connected :
      (db : Tables)
      → refuses connect ≡ none
      → Call db ≡ in_transaction refuses (attempt_update refuses u kind now) (fresh db)
  unfolding session_of
  connected db h = rw (session_of, h) refl

  -- The call changes nothing and ends with an error, or moves the row and ends well, or moves the row
  -- and ends with an error when the answer to COMMIT is lost.
  session_cases :
      (db : Tables)
      → Rolled db
        × ((((e : UpdateError) × ((Call db).0 ≡ err e)) × ((Call db).1.committed ≡ db))
            ⊎ ((r : Row) × (select_row u.transaction_id kind db ≡ some r)
                × (validate_transition r.status u.status kind ≡ true)
                × ((Call db).1.committed ≡ moved u now r db)
                × (((Call db).0 ≡ ok tt)
                    ⊎ (((w : Text) × (refuses commit_answer ≡ some w))
                        × ((e : UpdateError) × ((Call db).0 ≡ err e))))))
  session_cases db = elim (Option-cases (refuses connect)) [
    | inr (w, h) ↦
        unfold session_of in
        (
          (λ taken. rw (session_of, h) refl),
          inl ((refused w, rw (session_of, h) refl), rw (session_of, h) refl),
        )
    | inl h ↦ rw (connected db h) (elim (attempt-Ends db) [
      | inl (e, s, ended, same) ↦
          let c = caught (attempt_update refuses u kind now) (fresh db) s e ended in
          (c.2, inl (c.0, c.1 ∙ same))
      | inr (r, found, valid, inl ended) ↦
          let c =
            uncaught (attempt_update refuses u kind now) (fresh db) (fresh (moved u now r db))
              ended in
          (
            (λ taken. ap (λ o. o.1.in_progress) c),
            inr (r, found, valid, ap (λ o. o.1.committed) c, inl (ap (λ o. o.0) c)),
          )
      | inr (r, found, valid, inr (w, lost, ended)) ↦
          let c =
            caught (attempt_update refuses u kind now) (fresh db) (fresh (moved u now r db))
              (refused w) ended in
          (c.2, inr (r, found, valid, c.1, inr ((w, lost), c.0)))
    ])
  ]

  -- What the call leaves in the tables.
  pub update_cases :
      (db : Tables)
      → (((e : UpdateError) × ((update_transaction_state refuses u kind now db).0 ≡ err e))
          × ((update_transaction_state refuses u kind now db).1 ≡ db))
        ⊎ ((r : Row) × (select_row u.transaction_id kind db ≡ some r)
            × (validate_transition r.status u.status kind ≡ true)
            × ((update_transaction_state refuses u kind now db).1 ≡ moved u now r db)
            × (((update_transaction_state refuses u kind now db).0 ≡ ok tt)
                ⊎ (((w : Text) × (refuses commit_answer ≡ some w))
                    × ((e : UpdateError) × ((update_transaction_state refuses u kind now db).0
                          ≡ err e)))))
  unfolding update_transaction_state
  update_cases db = (session_cases db).1

  -- When the call ends with an error, both tables are as they were, unless the answer to COMMIT was
  -- lost; and however it ends, the connection goes back with no transaction open, unless ROLLBACK was
  -- refused.
  pub update_atomic :
      (db : Tables)
      → ((e : UpdateError)
          → refuses commit_answer ≡ none
          → (update_transaction_state refuses u kind now db).0 ≡ err e
          → (update_transaction_state refuses u kind now db).1 ≡ db)
        × (refuses rollback ≡ none
            → (session_of refuses u kind now
                (record { committed = db; in_progress = none })).1.in_progress
              ≡ none)
  update_atomic db = (
    (λ e answered h. elim (update_cases db) [
      | inl (thrown, same) ↦ same
      | inr (r, found, valid, after, inl done) ↦ absurd (cc (done, h))
      | inr (r, found, valid, after, inr ((w, lost), thrown)) ↦ absurd (cc (lost, answered))
    ]),
    (session_cases db).0,
  )
