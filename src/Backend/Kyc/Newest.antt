-- ===== src/Backend/Kyc/Newest.antt =====
-- Sequences of calls of `upsert` (`backend/src/kyc-upsert-service.ts`), and the order in which their
-- records arrive.
use swift_remit.Prelude.{
  ℕ, ◌≤◌, ◌≡◌, ◌≢◌, refl, sym, ◌∙◌, ◌⊎◌, inl, inr, Bool, true, false, Option, none, some, List, [],
  ◌∷◌, All, arith, ltb, if◌then◌else◌, Bool-cases, Option-cases,
}
use swift_remit.Prelude.Dict.{Text, ◌==◌, Dict, lookup, insert, lookup-insert, lookup-insert_self}
use swift_remit.Prelude.Dict.Keys.{IsKeyed, IsKeyed-insert}
use swift_remit.Backend.Kyc.{
  KycRecord, KycRow, KycDb, UserAnchor, pair_eq, pair_beq_iff, is_valid_status, row_of, write_row,
  upsert,
}

abbrev pub key_of : KycRecord → UserAnchor
key_of r = (r.user_id, r.anchor_id)

-- What becomes of the row that the record is about.
abbrev pub merged : KycRecord → ℕ → Option KycRow → Option KycRow
merged r now none = some (row_of r now)
merged r now (some old) =
    if ltb old.verified_at r.verified_at then some (row_of r now) else some old

-- A write either puts the row of the record in its place or leaves the table.
write_row_cases :
    (r : KycRecord) (now : ℕ) (d : Dict UserAnchor KycRow)
    → (((write_row r now d).1 ≡ insert (key_of r) (row_of r now) d)
        × (merged r now (lookup (key_of r) d) ≡ some (row_of r now)))
      ⊎ (((write_row r now d).1 ≡ d) × (merged r now (lookup (key_of r) d) ≡ lookup (key_of r) d))
unfolding write_row
write_row_cases r now d = elim (Option-cases (lookup (key_of r) d)) [
  | inl absent ↦ inl (rw (absent, write_row) refl, rw absent refl)
  | inr (old, found) ↦ elim (Bool-cases (ltb old.verified_at r.verified_at)) [
    | inl newer ↦ inl (rw (found, write_row, newer) refl, rw (found, newer) refl)
    | inr older ↦ inr (rw (found, write_row, older) refl, rw (found, older) refl)
  ]
]

lookup-write_row_own :
    (r : KycRecord) (now : ℕ) (d : Dict UserAnchor KycRow)
    → lookup (key_of r) (write_row r now d).1 ≡ merged r now (lookup (key_of r) d)
lookup-write_row_own r now d = elim (write_row_cases r now d) [
  | inl (w, m) ↦ rw (w, lookup-insert_self, m) refl
  | inr (w, m) ↦ rw (w, m) refl
]

lookup-write_row_other :
    (r : KycRecord) (now : ℕ) (k : UserAnchor) (d : Dict UserAnchor KycRow)
    → (key_of r == k) ≡ false
    → lookup k (write_row r now d).1 ≡ lookup k d
lookup-write_row_other r now k d h = elim (write_row_cases r now d) [
  | inl (w, m) ↦ rw (w, lookup-insert, h) refl
  | inr (w, m) ↦ rw w refl
]

-- Reading after a write.
pub lookup-write_row :
    (r : KycRecord) (now : ℕ) (k : UserAnchor) (d : Dict UserAnchor KycRow)
    → lookup k (write_row r now d).1
      ≡ (if key_of r == k then merged r now (lookup k d) else lookup k d)
lookup-write_row r now k d = elim (Bool-cases (key_of r == k)) [
  | inl same ↦ rw (same, sym ((pair_beq_iff (key_of r) k).0 same)) (lookup-write_row_own r now d)
  | inr other ↦ rw (other, lookup-write_row_other r now k d other) refl
]

merged_swap :
    (r s : KycRecord) (r_now s_now : ℕ) (o : Option KycRow)
    → r.verified_at ≢ s.verified_at
    → merged s s_now (merged r r_now o) ≡ merged r r_now (merged s s_now o)
unfolding row_of
merged_swap r s r_now s_now none h = ground arith
merged_swap r s r_now s_now (some old) h = ground arith

write_row_swap :
    (r s : KycRecord) (r_now s_now : ℕ) (d : Dict UserAnchor KycRow)
    → (key_of r ≢ key_of s) ⊎ (r.verified_at ≢ s.verified_at)
    → (k : UserAnchor)
    → lookup k (write_row s s_now (write_row r r_now d).1).1
      ≡ lookup k (write_row r r_now (write_row s s_now d).1).1
write_row_swap r s r_now s_now d apart k =
    rw (lookup-write_row, lookup-write_row, lookup-write_row, lookup-write_row)
      (elim (Bool-cases (key_of r == k)) [
        | inl own_r ↦ elim (Bool-cases (key_of s == k)) [
          | inl own_s ↦
              rw (own_r, own_s)
                (merged_swap r s r_now s_now (lookup k d) (elim apart [
                  | inl keys ↦ absurd (
                      keys (
                        (pair_beq_iff (key_of r) k).0 own_r
                        ∙ sym ((pair_beq_iff (key_of s) k).0 own_s)))
                  | inr times ↦ times
                ]))
          | inr other_s ↦ rw (own_r, other_s) refl
        ]
        | inr other_r ↦ rw other_r refl
      ])

pub write_row-IsKeyed :
    (r : KycRecord) (now : ℕ) (d : Dict UserAnchor KycRow)
    → IsKeyed d
    → IsKeyed (write_row r now d).1
write_row-IsKeyed r now d h = elim (write_row_cases r now d) [
  | inl (w, m) ↦ rw w (IsKeyed-insert (key_of r) (row_of r now) d h)
  | inr (w, m) ↦ rw w h
]

-- Whether the call gets as far as the table.
abbrev pub is_taken : Option Text → KycRecord → Bool
is_taken none r = is_valid_status r.kyc_status
is_taken (some why) r = false

upsert-rows :
    (refuses : Option Text) (r : KycRecord) (now : ℕ) (db : KycDb)
    → (upsert refuses r now db).1.rows
      ≡ (if is_taken refuses r then (write_row r now db.rows).1 else db.rows)
unfolding upsert
upsert-rows none r now db = elim (Bool-cases (is_valid_status r.kyc_status)) [
  | inl good ↦ rw good refl
  | inr bad ↦ rw bad refl
]
upsert-rows (some why) r now db = elim (Bool-cases (is_valid_status r.kyc_status)) [
  | inl good ↦ rw good refl
  | inr bad ↦ rw bad refl
]

-- Two records that are for different rows, or of different times, leave the same rows whichever of
-- them arrives first, also when one of them is refused or not valid.
pub upsert_swap :
    (r s : KycRecord) (r_now s_now : ℕ) (r_refuses s_refuses : Option Text) (db : KycDb)
    → (key_of r ≢ key_of s) ⊎ (r.verified_at ≢ s.verified_at)
    → (k : UserAnchor)
    → lookup k (upsert s_refuses s s_now (upsert r_refuses r r_now db).1).1.rows
      ≡ lookup k (upsert r_refuses r r_now (upsert s_refuses s s_now db).1).1.rows
upsert_swap r s r_now s_now r_refuses s_refuses db apart k =
    rw (upsert-rows, upsert-rows, upsert-rows, upsert-rows)
      (elim (Bool-cases (is_taken r_refuses r)) [
        | inl r_in ↦ elim (Bool-cases (is_taken s_refuses s)) [
          | inl s_in ↦ rw (r_in, s_in) (write_row_swap r s r_now s_now db.rows apart k)
          | inr s_out ↦ rw (r_in, s_out) refl
        ]
        | inr r_out ↦ rw r_out refl
      ])

-- One call, with its clock and what the database refuses.
pub record UpsertCall : Type 0 where
  pub entry : KycRecord
  pub now : ℕ
  pub refuses : Option Text

unfoldable pub run_upserts : List UpsertCall → KycDb → KycDb
run_upserts [] db = db
run_upserts (c ∷ cs) db = run_upserts cs (upsert c.refuses c.entry c.now db).1

-- The row under a key is at least as new as a time.
pub IsSince : UserAnchor → ℕ → KycDb → Type 0
IsSince k t db = (row : KycRow) × (lookup k db.rows ≡ some row) × (t ≤ row.verified_at)

merged_since :
    (r : KycRecord) (now t : ℕ) (row : KycRow)
    → t ≤ row.verified_at
    → (new : KycRow) × (merged r now (some row) ≡ some new) × (t ≤ new.verified_at)
unfolding row_of
merged_since r now t row le = elim (Bool-cases (ltb row.verified_at r.verified_at)) [
  | inl newer ↦ (row_of r now, rw newer refl, ground (arith, newer, le))
  | inr older ↦ (row, rw older refl, le)
]

merged_self :
    (r : KycRecord) (now : ℕ) (o : Option KycRow)
    → (new : KycRow) × (merged r now o ≡ some new) × (r.verified_at ≤ new.verified_at)
unfolding row_of
merged_self r now none = (row_of r now, refl, omega arith)
merged_self r now (some old) = elim (Bool-cases (ltb old.verified_at r.verified_at)) [
  | inl newer ↦ (row_of r now, rw newer refl, omega arith)
  | inr older ↦ (old, rw older refl, ground (arith, older))
]

IsSince-upsert :
    (k : UserAnchor) (t : ℕ) (c : UpsertCall) (db : KycDb)
    → IsSince k t db
    → IsSince k t (upsert c.refuses c.entry c.now db).1
unfolding IsSince
IsSince-upsert k t c db (row, found, le) = elim (Bool-cases (is_taken c.refuses c.entry)) [
  | inr out ↦ (row, rw (upsert-rows, out) found, le)
  | inl taken ↦ elim (Bool-cases (key_of c.entry == k)) [
    | inr other ↦ (row, rw (upsert-rows, taken, lookup-write_row, other) found, le)
    | inl own ↦
        let (new, m, since) = merged_since c.entry c.now t row le in
        (new, rw (upsert-rows, taken, lookup-write_row, own, found) m, since)
  ]
]

upsert-IsSince :
    (c : UpsertCall) (db : KycDb)
    → is_taken c.refuses c.entry ≡ true
    → IsSince (key_of c.entry) c.entry.verified_at (upsert c.refuses c.entry c.now db).1
unfolding IsSince
upsert-IsSince c db taken =
    let (new, m, since) = merged_self c.entry c.now (lookup (key_of c.entry) db.rows) in
    (new, rw (upsert-rows, taken, lookup-write_row_own) m, since)

run_upserts-IsSince :
    (k : UserAnchor) (t : ℕ) (cs : List UpsertCall) (db : KycDb)
    → IsSince k t db
    → IsSince k t (run_upserts cs db)
unfolding run_upserts
run_upserts-IsSince k t [] db h = h
run_upserts-IsSince k t (c ∷ cs) db h =
    run_upserts-IsSince k t cs (upsert c.refuses c.entry c.now db).1 (IsSince-upsert k t c db h)

-- After any calls, for each of them whose record is valid and is not refused: the user and anchor of
-- the record have a row, and it is not older than the record.
pub run_upserts_newest :
    (cs : List UpsertCall) (db : KycDb)
    → All
        (λ (c : UpsertCall).
          is_taken c.refuses c.entry ≡ true
          → IsSince (key_of c.entry) c.entry.verified_at (run_upserts cs db))
        cs
unfolding run_upserts
run_upserts_newest [] db = tt
run_upserts_newest (c ∷ cs) db = (
  (λ taken.
      run_upserts-IsSince (key_of c.entry) c.entry.verified_at cs
        (upsert c.refuses c.entry c.now db).1 (upsert-IsSince c db taken)),
  run_upserts_newest cs (upsert c.refuses c.entry c.now db).1,
)

-- The table that the calls build has one row for each user and anchor.
pub run_upserts-IsKeyed :
    (cs : List UpsertCall) (db : KycDb) → IsKeyed db.rows → IsKeyed (run_upserts cs db).rows
unfolding run_upserts
run_upserts-IsKeyed [] db h = h
run_upserts-IsKeyed (c ∷ cs) db h = run_upserts-IsKeyed cs (upsert c.refuses c.entry c.now db).1 (
    rw upsert-rows (elim (Bool-cases (is_taken c.refuses c.entry)) [
      | inl taken ↦ rw taken (write_row-IsKeyed c.entry c.now db.rows h)
      | inr out ↦ rw out h
    ]))
