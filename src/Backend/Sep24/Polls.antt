-- ===== src/Backend/Sep24/Polls.antt =====
-- What a poll of all anchors (`backend/src/sep24-service.ts`) does to transactions.
use swift_remit.Prelude.{
  ℕ, ◌+◌, ◌*◌, ◌≡◌, refl, sym, ap, ◌∙◌, ◌⊎◌, inl, inr, Bool, true, false, ◌&&◌, Option, none, some,
  List, [], ◌∷◌, arith, leb, ltb, All, filter, if◌then◌else◌, Bool-cases, Option-cases,
}
use swift_remit.Prelude.Dict.{
  Text, text_eq, text_beq_iff, ◌==◌, ==_refl, Dict, lookup, insert, lookup-insert,
}
use swift_remit.Prelude.Dict.Keys.{IsKeyed, IsKeyed-insert, first_key}
use swift_remit.Prelude.Ordered.{order, All-map, All-filter, All-take, All-order, filter-All}
use swift_remit.Backend.Sep24.{
  Sep24Status, pending_anchor, refunded, error, same_sep24, Sep24Row, Sep24Db, AnchorConfig, Round,
  UpdateDetails, no_update_details, details_of, map_anchor_status, is_open, poll_due, older,
  get_pending, with_sep24_status, update_sep24_status, query_transaction_status,
  process_expired_refund, mark_stalled, poll_one, poll_list, poll_anchor, poll_all,
}

unfoldable pub status_in : Option Sep24Row → Option Sep24Status
status_in none = none
status_in (some r) = some r.status

unfoldable pub status_in_table : Text → Sep24Db → Option Sep24Status
unfolding status_in
status_in_table i db = status_in (lookup i db.transactions)

-- What one update does to the table.
update_table :
    (i : Text) (status : Sep24Status) (d : UpdateDetails) (now : ℕ) (db : Sep24Db)
    → ((update_sep24_status i status d now db).transactions ≡ db.transactions)
      ⊎ ((row : Sep24Row) × ((update_sep24_status i status d now db).transactions
            ≡ insert i row db.transactions))
unfolding update_sep24_status
update_table i status d now db = elim (Option-cases (lookup i db.transactions)) [
  | inl absent ↦ inl (rw (absent, update_sep24_status) refl)
  | inr (r, found) ↦ inr (with_sep24_status status d now r, rw (found, update_sep24_status) refl)
]

-- Keys stay single, and the rows of other transactions stay.
abbrev pub Local : Text → Sep24Db → Sep24Db → Type 0
Local i db after =
    (IsKeyed db.transactions → IsKeyed after.transactions)
    × ((j : Text) → (i == j) ≡ false → lookup j after.transactions ≡ lookup j db.transactions)

Local-refl : (i : Text) (db : Sep24Db) → Local i db db
Local-refl i db = ((λ h. h), (λ j other. refl))

Local-update :
    (i : Text) (status : Sep24Status) (d : UpdateDetails) (now : ℕ) (db : Sep24Db)
    → Local i db (update_sep24_status i status d now db)
Local-update i status d now db = elim (update_table i status d now db) [
  | inl same ↦ ((λ h. rw same h), (λ j other. rw same refl))
  | inr (row, made) ↦ (
    (λ h. rw made (IsKeyed-insert i row db.transactions h)),
    (λ j other. ap (lookup j) made ∙ lookup-insert i j row db.transactions ∙ kept row j other),
  )
]
  where
    kept :
        (row : Sep24Row) (j : Text)
        → (i == j) ≡ false
        → (if i == j then some row else lookup j db.transactions) ≡ lookup j db.transactions
    kept row j other = rw other refl

Local-refund :
    (i : Text) (r : Sep24Row) (now : ℕ) (db : Sep24Db)
    → Local i db (process_expired_refund i r now db)
unfolding process_expired_refund
Local-refund i r now db = elim (Bool-cases (same_sep24 r.status refunded)) [
  | inl done ↦ rw (done, process_expired_refund) (Local-refl i db)
  | inr due ↦ rw (due, process_expired_refund) (Local-update i refunded no_update_details now db)
]

pub Local-poll_one :
    (w : Round) (c : AnchorConfig) (i : Text) (r : Sep24Row) (db : Sep24Db)
    → Local i db (poll_one w c (i, r) db)
unfolding poll_one mark_stalled
Local-poll_one w c i r db =
    elim (Bool-cases
      (same_sep24 r.status pending_anchor && leb (r.created_at + w.anchor_timeout_ms) w.now)) [
        | inl stalled ↦ rw (stalled, poll_one) (Local-update i error no_update_details w.now db)
        | inr moving ↦ elim (Bool-cases (ltb (r.created_at + c.timeout_minutes * 60_000) w.now)) [
          | inl late ↦ rw (moving, poll_one, late) (Local-refund i r w.now db)
          | inr in_time ↦ elim (Option-cases (query_transaction_status w c.sep_server_url i)) [
            | inl silent ↦ rw (moving, poll_one, in_time, silent) (Local-refl i db)
            | inr (t, said) ↦ elim (Bool-cases (same_sep24 (map_anchor_status t.status) r.status)) [
              | inl same ↦ rw (moving, poll_one, in_time, said, same) (Local-refl i db)
              | inr other ↦
                  rw (moving, poll_one, in_time, said, other)
                    (Local-update i (map_anchor_status t.status) (details_of t) w.now db)
            ]
          ]
        ]
      ]

poll_list-Keyed :
    (w : Round) (c : AnchorConfig) (es : List (Text × Sep24Row)) (db : Sep24Db)
    → IsKeyed db.transactions
    → IsKeyed (poll_list w c es db).transactions
unfolding poll_list
poll_list-Keyed w c [] db h = h
poll_list-Keyed w c ((i, r) ∷ es) db h =
    poll_list-Keyed w c es (poll_one w c (i, r) db) ((Local-poll_one w c i r db).0 h)

poll_list-others :
    (w : Round) (c : AnchorConfig) (j : Text) (es : List (Text × Sep24Row)) (db : Sep24Db)
    → All (λ (e : Text × Sep24Row). (e.0 == j) ≡ false) es
    → lookup j (poll_list w c es db).transactions ≡ lookup j db.transactions
unfolding poll_list
poll_list-others w c j [] db h = refl
poll_list-others w c j ((i, r) ∷ es) db h =
    poll_list-others w c j es (poll_one w c (i, r) db) h.1 ∙ (Local-poll_one w c i r db).1 j h.0

pub same_sep24_row : (a b : Sep24Row) → some a ≡ some b → a ≡ b
same_sep24_row a b = ap (λ (o : Option Sep24Row). elim o [ none ↦ a | some t ↦ t ])

-- An entry is what its key leads to.
entries_found :
    (rows : Dict Text Sep24Row)
    → IsKeyed rows
    → All (λ (e : Text × Sep24Row). lookup e.0 rows ≡ some e.1) rows
unfolding lookup
entries_found [] h = tt
entries_found ((i, r) ∷ rows) h = (
  rw (==_refl i) refl,
  All-map (λ e there. first_key i e.0 e.1 r rows h.0 there) rows (entries_found rows h.1),
)

All-both :
    (P Q : Text × Sep24Row → Type 0) (es : List (Text × Sep24Row))
    → All P es
    → All Q es
    → All (λ e. P e × Q e) es
All-both P Q [] h k = tt
All-both P Q (e ∷ es) h k = ((h.0, k.0), All-both P Q es h.1 k.1)

middle_true : (a b c : Bool) → (a && b && c) ≡ true → b ≡ true
middle_true a b c h = ground arith

-- An entry of an open transaction is not that of one which is not.
not_final :
    (rows : Dict Text Sep24Row) (j : Text) (r : Sep24Row)
    → lookup j rows ≡ some r
    → is_open r.status ≡ false
    → (e : Text × Sep24Row) → lookup e.0 rows ≡ some e.1
    → is_open e.1.status ≡ true
    → (e.0 == j) ≡ false
not_final rows j r found final e there opened = elim (Bool-cases (e.0 == j)) [
  | inr other ↦ other
  | inl same ↦
      let found_e : lookup j rows ≡ some e.1 =
        sym (ap (λ k. lookup k rows) ((text_beq_iff e.0 j).0 same)) ∙ there in
      let row = same_sep24_row e.1 r (sym found_e ∙ found) in
      absurd (cc (opened, ap (λ (q : Sep24Row). is_open q.status) row, final))
]

module _ (anchor : Text) (minutes now : ℕ) (rows : Dict Text Sep24Row) (keyed : IsKeyed rows) where
  abbrev wanted : Text × Sep24Row → Bool
  wanted e = e.1.anchor_id == anchor && is_open e.1.status && poll_due now minutes e.1.last_polled

  -- What a poll takes up is in the table and open.
  pub pending_open :
      All
        (λ (e : Text × Sep24Row). (lookup e.0 rows ≡ some e.1) × (is_open e.1.status ≡ true))
        (get_pending anchor minutes now rows)
  unfolding get_pending
  pending_open =
      let there : Text × Sep24Row → Type 0 = λ e. lookup e.0 rows ≡ some e.1 in
      let asked : Text × Sep24Row → Type 0 = λ e. wanted e ≡ true in
      let P : Text × Sep24Row → Type 0 = λ e. there e × (is_open e.1.status ≡ true) in
      All-take P 50 (order older (filter wanted rows)) (
        All-order older P (filter wanted rows) (
          All-map
            (λ e (h : there e × asked e). (
              h.0,
              middle_true (e.1.anchor_id == anchor) (is_open e.1.status)
                  (poll_due now minutes e.1.last_polled) h.1,
            ))
            (filter wanted rows)
            (All-both there asked (filter wanted rows)
              (All-filter there wanted rows (entries_found rows keyed)) (filter-All wanted rows))))

  pending_others :
      (j : Text) (r : Sep24Row)
      → lookup j rows ≡ some r
      → is_open r.status ≡ false
      → All (λ (e : Text × Sep24Row). (e.0 == j) ≡ false) (get_pending anchor minutes now rows)
  pending_others j r found final =
      All-map (λ e h. not_final rows j r found final e h.0 h.1)
        (get_pending anchor minutes now rows) pending_open

-- A poll of all anchors leaves every transaction that is completed, refunded, expired or in error as it is,
-- whatever the anchors say.
pub poll_all_final :
    (w : Round) (configs : Dict Text AnchorConfig) (db : Sep24Db)
    → IsKeyed db.transactions
    → (j : Text) (r : Sep24Row) → lookup j db.transactions ≡ some r
    → is_open r.status ≡ false
    → lookup j (poll_all w configs db).transactions ≡ some r
unfolding poll_all poll_anchor
poll_all_final w [] db keyed j r found final = found
poll_all_final w ((anchor, c) ∷ configs) db keyed j r found final =
    let es = get_pending anchor c.polling_interval_minutes w.now db.transactions in
    let others =
      pending_others anchor c.polling_interval_minutes w.now db.transactions keyed j r found
        final in
    poll_all_final w configs (poll_anchor w anchor c db) (poll_list-Keyed w c es db keyed) j r
      (poll_list-others w c j es db others ∙ found) final
