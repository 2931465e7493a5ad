-- ===== src/Backend/Sep24/Overdue.antt =====
-- What a poll of an anchor (`backend/src/sep24-service.ts`) does to transactions that are past their time.
use mathlib.Core.Path.{subst}
use swift_remit.Prelude.{
  ℕ, ◌+◌, ◌*◌, ◌≡◌, refl, sym, ap, ◌∙◌, ◌⊎◌, inl, inr, Bool, true, false, ◌&&◌, none, some, List,
  [], ◌∷◌, leb, ltb, All, Bool-cases, Option-cases,
}
use swift_remit.Prelude.Dict.{Text, text_eq, text_beq_iff, ◌==◌, lookup, lookup-insert_self}
use swift_remit.Prelude.Dict.Keys.{IsKeyed}
use swift_remit.Prelude.Ordered.{All-map}
use swift_remit.Backend.Sep24.{
  Sep24Status, pending_user_transfer_start, pending_anchor, pending_stellar, pending_external,
  pending_trust, pending_user, completed, refunded, expired, error, same_sep24,
  Sep24Status-discrete, Sep24Row, Sep24Db, AnchorConfig, Round, UpdateDetails, no_update_details,
  is_open, get_pending, update_sep24_status, with_sep24_status, process_expired_refund,
  mark_stalled, poll_one, poll_list, poll_anchor,
}
use swift_remit.Backend.Sep24.Polls.{
  status_in, status_in_table, Local-poll_one, same_sep24_row, pending_open,
}

-- Out of the polls: refunded or in error.
unfoldable pub IsSettled : Text → Sep24Db → Type 0
IsSettled i db = (status_in_table i db ≡ some refunded) ⊎ (status_in_table i db ≡ some error)

-- The transaction's time with the anchor is over.
unfoldable pub is_overdue : Round → AnchorConfig → Sep24Row → Bool
is_overdue w c r = ltb (r.created_at + c.timeout_minutes * 60_000) w.now

some_not_none : (s : Sep24Status) → none ≡ some s → ⊥
some_not_none s h = cc h

update-status :
    (i : Text) (status s : Sep24Status) (d : UpdateDetails) (now : ℕ) (db : Sep24Db)
    → status_in_table i db ≡ some s
    → status_in_table i (update_sep24_status i status d now db) ≡ some status
unfolding update_sep24_status status_in_table status_in
update-status i status s d now db there = elim (Option-cases (lookup i db.transactions)) [
  | inl absent ↦ absurd (some_not_none s (sym (ap status_in absent) ∙ there))
  | inr (r, found) ↦
      rw (found, update_sep24_status)
        (ap status_in (lookup-insert_self i (with_sep24_status status d now r) db.transactions))
]

open_not_refunded : (s : Sep24Status) → is_open s ≡ true → same_sep24 s refunded ≡ false
unfolding is_open Sep24Status-discrete
open_not_refunded pending_user_transfer_start h = refl
open_not_refunded pending_anchor h = refl
open_not_refunded pending_stellar h = refl
open_not_refunded pending_external h = refl
open_not_refunded pending_trust h = refl
open_not_refunded pending_user h = refl
open_not_refunded completed h = refl
open_not_refunded refunded h = absurd (cc h)
open_not_refunded expired h = refl
open_not_refunded error h = refl

poll_one-Settled :
    (w : Round) (c : AnchorConfig) (i : Text) (r : Sep24Row) (db : Sep24Db) (s : Sep24Status)
    → status_in_table i db ≡ some s
    → is_open r.status ≡ true
    → is_overdue w c r ≡ true
    → IsSettled i (poll_one w c (i, r) db)
unfolding IsSettled poll_one mark_stalled process_expired_refund is_overdue lookup status_in_table
poll_one-Settled w c i r db s there opened late =
    elim (Bool-cases
      (same_sep24 r.status pending_anchor && leb (r.created_at + w.anchor_timeout_ms) w.now)) [
        | inl stalled ↦
            inr (rw (stalled, poll_one) (update-status i error s no_update_details w.now db there))
        | inr moving ↦ inl (
            rw (moving, poll_one, late, process_expired_refund, open_not_refunded r.status opened)
              (update-status i refunded s no_update_details w.now db there))
      ]

poll_one-others :
    (w : Round) (c : AnchorConfig) (i j : Text) (r : Sep24Row) (db : Sep24Db)
    → (i == j) ≡ false
    → status_in_table j (poll_one w c (i, r) db) ≡ status_in_table j db
unfolding status_in_table status_in
poll_one-others w c i j r db other = ap status_in ((Local-poll_one w c i r db).1 j other)

module _ (w : Round) (c : AnchorConfig) (j : Text) where
  -- Every entry for the transaction is open and past its time.
  abbrev IsLate : Text × Sep24Row → Type 0
  IsLate e = (e.0 == j) ≡ true → (is_open e.1.status ≡ true) × (is_overdue w c e.1 ≡ true)

  poll_same :
      (i : Text) (r : Sep24Row) (db : Sep24Db) (s : Sep24Status)
      → (i == j) ≡ true
      → IsLate (i, r)
      → status_in_table j db ≡ some s
      → IsSettled j (poll_one w c (i, r) db)
  poll_same i r db s same late there =
      let at_j = (text_beq_iff i j).0 same in
      subst (λ k. IsSettled k (poll_one w c (i, r) db)) at_j
        (poll_one-Settled w c i r db s (subst (λ k. status_in_table k db ≡ some s) (sym at_j) there)
          (late same).0 (late same).1)

  Settled-status :
      (db : Sep24Db) → IsSettled j db → (s : Sep24Status) × (status_in_table j db ≡ some s)
  unfolding IsSettled
  Settled-status db (inl h) = (refunded, h)
  Settled-status db (inr h) = (error, h)

  Settled-others :
      (i : Text) (r : Sep24Row) (db : Sep24Db)
      → (i == j) ≡ false
      → IsSettled j db
      → IsSettled j (poll_one w c (i, r) db)
  unfolding IsSettled
  Settled-others i r db other (inl h) = inl (poll_one-others w c i j r db other ∙ h)
  Settled-others i r db other (inr h) = inr (poll_one-others w c i j r db other ∙ h)

  poll_list-stays :
      (es : List (Text × Sep24Row)) (db : Sep24Db)
      → All IsLate es
      → IsSettled j db
      → IsSettled j (poll_list w c es db)
  unfolding poll_list
  poll_list-stays [] db late h = h
  poll_list-stays ((i, r) ∷ es) db late h =
      poll_list-stays es (poll_one w c (i, r) db) late.1 (elim (Bool-cases (i == j)) [
        | inl same ↦ let found = Settled-status db h in poll_same i r db found.0 same late.0 found.1
        | inr other ↦ Settled-others i r db other h
      ])

  poll_list-Settled :
      (es : List (Text × Sep24Row)) (db : Sep24Db) (r : Sep24Row) (s : Sep24Status)
      → All IsLate es
      → lookup j es ≡ some r
      → status_in_table j db ≡ some s
      → IsSettled j (poll_list w c es db)
  unfolding poll_list lookup
  poll_list-Settled [] db r s late taken there = absurd (cc taken)
  poll_list-Settled ((i, q) ∷ es) db r s late taken there = elim (Bool-cases (i == j)) [
    | inl same ↦
        poll_list-stays es (poll_one w c (i, q) db) late.1 (poll_same i q db s same late.0 there)
    | inr other ↦
        poll_list-Settled es (poll_one w c (i, q) db) r s late.1 (rw other at taken)
          (poll_one-others w c i j q db other ∙ there)
  ]

-- What a search finds has what all entries have.
lookup-All :
    (P : Text × Sep24Row → Type 0) (j : Text) (r : Sep24Row) (es : List (Text × Sep24Row))
    → All P es
    → lookup j es ≡ some r
    → P (j, r)
unfolding lookup
lookup-All P j r [] h found = absurd (cc found)
lookup-All P j r ((i, q) ∷ es) h found = elim (Bool-cases (i == j)) [
  | inl same ↦
      subst P (λ t. ((text_beq_iff i j).0 same t, same_sep24_row q r (rw same at found) t)) h.0
  | inr other ↦ lookup-All P j r es h.1 (rw other at found)
]

-- While the database takes every statement, a poll of an anchor settles every transaction that it takes up
-- and whose time with the anchor is over: it is refunded or in error afterwards, whatever the anchor says
-- and whatever else is polled with it.
pub poll_anchor-Settled :
    (w : Round) (anchor : Text) (c : AnchorConfig) (db : Sep24Db)
    → IsKeyed db.transactions
    → (j : Text) (r : Sep24Row)
    → lookup j (get_pending anchor c.polling_interval_minutes w.now db.transactions) ≡ some r
    → is_overdue w c r ≡ true
    → IsSettled j (poll_anchor w anchor c db)
unfolding poll_anchor status_in_table status_in
poll_anchor-Settled w anchor c db keyed j r taken late =
    let es = get_pending anchor c.polling_interval_minutes w.now db.transactions in
    let all = pending_open anchor c.polling_interval_minutes w.now db.transactions keyed in
    let there : lookup j db.transactions ≡ some r =
      (lookup-All (λ e. (lookup e.0 db.transactions ≡ some e.1) × (is_open e.1.status ≡ true)) j r
        es all taken).0 in
    poll_list-Settled w c j es db r r.status
      (All-map (λ e h same. (h.1, late_row e.0 e.1 same h.0 there)) es all) taken (read there)
  where
    late_row :
        (i : Text) (q : Sep24Row)
        → (i == j) ≡ true
        → lookup i db.transactions ≡ some q
        → lookup j db.transactions ≡ some r
        → is_overdue w c q ≡ true
    late_row i q same found there =
        let row = same_sep24_row r q (
          sym there
          ∙ sym (ap (λ k. lookup k db.transactions) ((text_beq_iff i j).0 same))
          ∙ found) in
        subst (λ x. is_overdue w c x ≡ true) row late

    read : lookup j db.transactions ≡ some r → status_in_table j db ≡ some r.status
    read there = ap status_in there
