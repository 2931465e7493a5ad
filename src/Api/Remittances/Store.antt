-- ===== src/Api/Remittances/Store.antt =====
-- What `getById` of `api/src/db/remittanceStore.ts` reads after `create` and `updateStatus`, and the key of
-- the table.
use swift_remit.Prelude.{
  ℕ, ◌≡◌, ◌≢◌, ◌⊎◌, ◌/◌, refl, ap, inl, inr, true, false, Option, none, some, List, [], ◌∷◌, ◌++◌,
  map, any, find?, All, arith, if◌then◌else◌, Bool-cases, Option-cases,
}
use swift_remit.Prelude.Dict.{Text, text_eq, text_beq_iff, ◌==◌, ==_refl}
use swift_remit.Prelude.Result.{ok, err}
use swift_remit.Api.Remittances.{
  RemittanceStatus, RemittanceRow, Remittance, NewRemittance, Platform, duplicate_key, map_row,
  get_by_id, new_row, create, with_status, update_status,
}
use swift_remit.Api.Remittances.Pages.{IsUnique}

-- A call that writes.
pub data StoreCall : Type 0 where
  creates : NewRemittance → ℕ → StoreCall
  updates_status : Text → RemittanceStatus → ℕ → StoreCall

unfoldable pub run_calls : Platform → List StoreCall → List RemittanceRow → List RemittanceRow
unfolding create update_status
run_calls p [] rows = rows
run_calls p (creates n now ∷ calls) rows = run_calls p calls (create p n now rows).1
run_calls p (updates_status id s now ∷ calls) rows =
    run_calls p calls (update_status p id s now rows).1

text_differs : (a b : Text) → (a == b) ≡ false → a ≢ b
text_differs a b h e = absurd (cc (h, ap (λ t. a == t) e, ==_refl a))

with_status-id :
    (id : Text) (s : RemittanceStatus) (now : ℕ) (r : RemittanceRow)
    → (with_status id s now r).id ≡ r.id
unfolding with_status
with_status-id id s now r = elim (Bool-cases (r.id == id)) [
  | inl same ↦ rw same refl
  | inr other ↦ rw other refl
]

All-append {κ} :
    (P : RemittanceRow → Type κ) (rows : List RemittanceRow) (r : RemittanceRow)
    → All P rows
    → P r
    → All P (rows ++ r ∷ [])
All-append P [] r h p = (p, tt)
All-append P (s ∷ rows) r h p = (h.0, All-append P rows r h.1 p)

-- The table after an insertion of a new identifier.
append-IsUnique :
    (r : RemittanceRow) (rows : List RemittanceRow)
    → any (λ (s : RemittanceRow). s.id == r.id) rows ≡ false
    → IsUnique rows
    → IsUnique (rows ++ r ∷ [])
append-IsUnique r [] h u = (tt, tt)
append-IsUnique r (s ∷ rows) h u = elim (Bool-cases (s.id == r.id)) [
  | inl same ↦ absurd (cc (rw same at h))
  | inr other ↦ (
    All-append (λ (z : RemittanceRow). s.id ≢ z.id) rows r u.0 (text_differs s.id r.id other),
    append-IsUnique r rows (rw other at h) u.1,
  )
]

other_ids :
    (id : Text) (s : RemittanceStatus) (now : ℕ) (j : Text) (rows : List RemittanceRow)
    → All (λ (z : RemittanceRow). j ≢ z.id) rows
    → All (λ (z : RemittanceRow). j ≢ z.id) (map (with_status id s now) rows)
other_ids id s now j [] h = tt
other_ids id s now j (r ∷ rows) h =
    ((rw (with_status-id id s now r) h.0), other_ids id s now j rows h.1)

map-IsUnique :
    (id : Text) (s : RemittanceStatus) (now : ℕ) (rows : List RemittanceRow)
    → IsUnique rows
    → IsUnique (map (with_status id s now) rows)
map-IsUnique id s now [] u = tt
map-IsUnique id s now (r ∷ rows) u = (
  other_ids id s now (with_status id s now r).id rows (rw (with_status-id id s now r) u.0),
  map-IsUnique id s now rows u.1,
)

-- Whatever is created and updated, no identifier has two rows.
pub run_calls-IsUnique :
    (p : Platform) (calls : List StoreCall) (rows : List RemittanceRow)
    → IsUnique rows
    → IsUnique (run_calls p calls rows)
unfolding run_calls create update_status new_row
run_calls-IsUnique p [] rows u = u
run_calls-IsUnique p (creates n now ∷ calls) rows u =
    elim (Bool-cases (any (λ (s : RemittanceRow). s.id == n.id) rows)) [
      | inl old ↦ rw (old, create) (run_calls-IsUnique p calls rows u)
      | inr new ↦
          rw (new, create)
            (run_calls-IsUnique p calls (rows ++ new_row n now ∷ [])
              (append-IsUnique (new_row n now) rows new u))
    ]
run_calls-IsUnique p (updates_status id s now ∷ calls) rows u =
    run_calls-IsUnique p calls (map (with_status id s now) rows) (map-IsUnique id s now rows u)

same_row : (a b : RemittanceRow) → some a ≡ some b → a ≡ b
same_row a b = ap (λ (o : Option RemittanceRow). elim o [ none ↦ a | some t ↦ t ])

not_second : (a b j : Text) → (a == j) ≡ true → (a == b) ≡ false → (b == j) ≡ false
not_second a b j h k = ground (arith, text_beq_iff a j, text_beq_iff a b, text_beq_iff b j)

find?-append :
    (j : Text) (r : RemittanceRow) (rows : List RemittanceRow)
    → any (λ (s : RemittanceRow). s.id == r.id) rows ≡ false
    → find? (λ (s : RemittanceRow). s.id == j) (rows ++ r ∷ [])
      ≡ (if r.id == j then some r else find? (λ (s : RemittanceRow). s.id == j) rows)
find?-append j r [] h = refl
find?-append j r (s ∷ rows) h = elim (Bool-cases (s.id == r.id)) [
  | inl same ↦ absurd (cc (rw same at h))
  | inr other ↦ elim (Bool-cases (s.id == j)) [
    | inl here ↦ rw (here, not_second s.id r.id j here other) refl
    | inr there ↦ rw (there, find?-append j r rows (rw other at h)) refl
  ]
]

find?-map :
    (id : Text) (st : RemittanceStatus) (now : ℕ) (j : Text) (rows : List RemittanceRow)
    → find? (λ (s : RemittanceRow). s.id == j) (map (with_status id st now) rows)
      ≡ elim (find? (λ (s : RemittanceRow). s.id == j) rows) [
        | none ↦ none
        | some r ↦ some (with_status id st now r)
      ]
unfolding with_status
find?-map id st now j [] = refl
find?-map id st now j (r ∷ rows) = elim (Bool-cases (r.id == j)) [
  | inl here ↦ rw (with_status-id id st now r, here) refl
  | inr there ↦ rw (with_status-id id st now r, there) (find?-map id st now j rows)
]

not_mine : (id j i : Text) → (id == j) ≡ false → (i == j) ≡ true → (i == id) ≡ false
not_mine id j i h k = ground (arith, text_beq_iff i j, text_beq_iff i id, text_beq_iff id j)

find?-id :
    (j : Text) (rows : List RemittanceRow) (r : RemittanceRow)
    → find? (λ (s : RemittanceRow). s.id == j) rows ≡ some r
    → (r.id == j) ≡ true
find?-id j [] r e = absurd (cc e)
find?-id j (s ∷ rows) r e = elim (Bool-cases (s.id == j)) [
  | inl here ↦ rw (← same_row s r (rw here at e)) here
  | inr there ↦ find?-id j rows r (rw there at e)
]

find?-with_status :
    (p : Platform) (id : Text) (st : RemittanceStatus) (now : ℕ) (j : Text)
    (rows : List RemittanceRow)
    → get_by_id p j (map (with_status id st now) rows)
      ≡ elim (find? (λ (s : RemittanceRow). s.id == j) rows) [
        | none ↦ none
        | some r ↦ some (map_row p (with_status id st now r))
      ]
unfolding get_by_id
find?-with_status p id st now j rows =
    elim (Option-cases (find? (λ (s : RemittanceRow). s.id == j) rows)) [
      | inl absent ↦ rw (get_by_id, find?-map id st now j rows, absent) refl
      | inr (r, found) ↦ rw (get_by_id, find?-map id st now j rows, found) refl
    ]

created_found :
    (p : Platform) (n : NewRemittance) (now : ℕ) (rows : List RemittanceRow) (j : Text)
    → any (λ (s : RemittanceRow). s.id == n.id) rows ≡ false
    → get_by_id p j (create p n now rows).1
      ≡ (if n.id == j then some (map_row p (new_row n now)) else get_by_id p j rows)
unfolding new_row create get_by_id map_row
created_found p n now rows j new =
    let appended = find?-append j (new_row n now) rows new in
    elim (Bool-cases (n.id == j)) [
      | inl mine ↦ rw (create, new, get_by_id, appended, mine) refl
      | inr other ↦ rw (create, new, get_by_id, appended, other) refl
    ]

-- What `create` returns is what `getById` then finds; other identifiers are found as before. With an
-- identifier that is taken it fails, and the table stays.
pub create_lem :
    (p : Platform) (n : NewRemittance) (now : ℕ) (rows : List RemittanceRow)
    → ((any (λ (s : RemittanceRow). s.id == n.id) rows ≡ true)
        × (create p n now rows ≡ (err duplicate_key, rows)))
      ⊎ ((made : Remittance) × ((create p n now rows).0 ≡ ok made)
          × (made.status ≡ n.status)
          × ((j : Text)
              → get_by_id p j (create p n now rows).1
                ≡ (if n.id == j then some made else get_by_id p j rows)))
unfolding create new_row map_row
create_lem p n now rows = elim (Bool-cases (any (λ (s : RemittanceRow). s.id == n.id) rows)) [
  | inl old ↦ inl (old, rw old refl)
  | inr new ↦
      inr (map_row p (new_row n now), rw new refl, refl, λ j. created_found p n now rows j new)
]

-- `updateStatus` returns the row with the new status and time, or nothing for an identifier that has no
-- row, and the rows of other identifiers are found as before.
pub update_status_lem :
    (p : Platform) (id : Text) (st : RemittanceStatus) (now : ℕ) (rows : List RemittanceRow)
    → ((update_status p id st now rows).0 ≡ elim (get_by_id p id rows) [
      | none ↦ none
      | some r ↦ some (record r { status = st; updated_at = now / 1000 })
    ])
      × ((j : Text)
          → (id == j) ≡ false
          → get_by_id p j (update_status p id st now rows).1 ≡ get_by_id p j rows)
unfolding update_status get_by_id
update_status_lem p id st now rows = (
  elim (Option-cases (find? (λ (s : RemittanceRow). s.id == id) rows)) [
    | inl absent ↦ rw (find?-with_status p id st now id rows, absent) refl
    | inr (r, found) ↦
        rw
          (
            find?-with_status p id st now id rows,
            found,
            with_status,
            map_row,
            find?-id id rows r found,
          )
          refl
  ],
  λ j other. elim (Option-cases (find? (λ (s : RemittanceRow). s.id == j) rows)) [
    | inl absent ↦ rw (find?-with_status p id st now j rows, get_by_id, absent) refl
    | inr (r, found) ↦
        rw
          (
            find?-with_status p id st now j rows,
            get_by_id,
            found,
            with_status,
            not_mine id j r.id other (find?-id j rows r found),
          )
          refl
  ],
)
