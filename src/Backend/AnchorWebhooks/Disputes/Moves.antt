-- ===== src/Backend/AnchorWebhooks/Disputes/Moves.antt =====
-- How the dispute handlers (`backend/src/webhook-handler.ts`) move the status of a transaction.
use swift_remit.Prelude.{
  ℕ, ◌≡◌, refl, sym, ap, ◌∙◌, inl, inr, Bool, true, false, Option, none, some, List, [], ◌∷◌,
  if◌then◌else◌, Bool-cases, Option-cases,
}
use swift_remit.Prelude.Dict.{
  Text, text_eq, text_beq_iff, ◌==◌, contains, lookup, insert, lookup-insert,
}
use swift_remit.Prelude.Strings.{text}
use swift_remit.Backend.AnchorWebhooks.{truthy}
use swift_remit.Backend.AnchorWebhooks.Disputes.{
  StatusRow, AuditRow, raised, resolved, DisputeDb, RaisedPayload, ResolvedPayload, disputed,
  dispute_id, current_status, in_dispute_window, set_dispute_status, log_dispute, resolution_status,
  admin_or, handle_dispute_raised, handle_dispute_resolved,
}

-- The moves of a dispute.
pub data DisputeStep : Text → Text → Type 0 where
  failed_disputed : DisputeStep (text "failed") disputed
  error_disputed : DisputeStep (text "error") (text "disputed")
  disputed_refunded : DisputeStep (text "disputed") (text "refunded")
  disputed_completed : DisputeStep (text "disputed") (text "completed")

-- Any number of them.
pub data Moves : Option Text → Option Text → Type 0 where
  stays : (s : Option Text) → Moves s s
  moves : (a b : Text) (t : Option Text) → DisputeStep a b → Moves (some b) t → Moves (some a) t

Moves-trans : (s t u : Option Text) → Moves s t → Moves t u → Moves s u
Moves-trans s t u (stays _) k = k
Moves-trans s t u (moves a b _ step rest) k = moves a b u step (Moves-trans (some b) t u rest k)

pub data DisputeCall : Type 0 where
  raises : RaisedPayload → ℕ → DisputeCall
  resolves : ResolvedPayload → ℕ → DisputeCall

abbrev pub status_read : Option StatusRow → Option Text
status_read none = none
status_read (some r) = r.status

unfoldable pub status_in : Text → DisputeDb → Option Text
status_in i db = status_read (lookup i db.transactions)

truthy-some : (o : Option Text) (t : Text) → truthy o ≡ some t → o ≡ some t
unfolding truthy
truthy-some none t h = absurd (cc h)
truthy-some (some []) t h = absurd (cc h)
truthy-some (some (c ∷ cs)) t h = h

-- The row that a current status is read from.
found_row :
    (i : Text) (db : DisputeDb) (status : Text)
    → current_status i db ≡ some status
    → (r : StatusRow) × (lookup i db.transactions ≡ some r) × (r.status ≡ some status)
unfolding current_status
found_row i db status h = elim (Option-cases (lookup i db.transactions)) [
  | inl absent ↦ absurd (cc (rw (absent, current_status) at h))
  | inr (r, found) ↦ (r, found, truthy-some r.status status (rw (found, current_status) at h))
]

status_at :
    (j : Text) (db : DisputeDb) (r : StatusRow)
    → lookup j db.transactions ≡ some r
    → status_in j db ≡ r.status
unfolding status_in
status_at j db r found = ap status_read found

set_is :
    (i to : Text) (now : ℕ) (db : DisputeDb) (r : StatusRow)
    → lookup i db.transactions ≡ some r
    → (set_dispute_status i to now db).transactions
      ≡ insert i (record { status = some to; updated_at = now }) db.transactions
unfolding set_dispute_status
set_is i to now db r found = rw (found, set_dispute_status) refl

written :
    (i j to : Text) (now : ℕ) (db : DisputeDb) (r : StatusRow)
    → lookup i db.transactions ≡ some r
    → (i == j) ≡ true
    → status_in j (set_dispute_status i to now db) ≡ some to
written i j to now db r found same =
    status_at j (set_dispute_status i to now db) (record { status = some to; updated_at = now })
      (rw (set_is i to now db r found, lookup-insert, same) refl)

unwritten :
    (i j to : Text) (now : ℕ) (db : DisputeDb) (r : StatusRow)
    → lookup i db.transactions ≡ some r
    → (i == j) ≡ false
    → status_in j (set_dispute_status i to now db) ≡ status_in j db
unfolding status_in
unwritten i j to now db r found other =
    let same_row : lookup j (set_dispute_status i to now db).transactions
        ≡ lookup j db.transactions =
      ap (lookup j) (set_is i to now db r found)
      ∙ lookup-insert i j (record { status = some to; updated_at = now }) db.transactions
      ∙ ap
          (λ b.
            if b
            then some (record { status = some to; updated_at = now })
            else lookup j db.transactions)
          other in
    ap status_read same_row

-- A write moves the one transaction.
set-Moves :
    (i to : Text) (now : ℕ) (db : DisputeDb) (status : Text)
    → current_status i db ≡ some status
    → DisputeStep status to
    → (j : Text) → Moves (status_in j db) (status_in j (set_dispute_status i to now db))
unfolding set_dispute_status
set-Moves i to now db status h step j =
    let (r, found, is) = found_row i db status h in
    elim (Bool-cases (i == j)) [
      | inl same ↦
          let e = (text_beq_iff i j).0 same in
          let before = sym (ap (λ k. lookup k db.transactions) e) ∙ found in
          rw (status_at j db r before ∙ is, written i j to now db r found same)
            (moves status to (some to) step (stays (some to)))
      | inr other ↦ rw (unwritten i j to now db r found other) (stays (status_in j db))
    ]

log_dispute-status :
    (takes : AuditRow → Bool) (row : AuditRow) (db : DisputeDb)
    → (log_dispute takes row db).transactions ≡ db.transactions
unfolding log_dispute
log_dispute-status takes row db = elim (Bool-cases (takes row)) [
  | inl taken ↦ rw taken refl
  | inr lost ↦ rw lost refl
]

step_from : (a b c : Text) → (a == b) ≡ true → DisputeStep a c → DisputeStep b c
step_from a b c same step = rw (sym ((text_beq_iff a b).0 same)) step

may_raise :
    (status : Text)
    → contains status (text "failed" ∷ text "error" ∷ []) ≡ true
    → DisputeStep status disputed
unfolding contains
may_raise status h = elim (Bool-cases (text "failed" == status)) [
  | inl failed ↦ step_from (text "failed") status disputed failed failed_disputed
  | inr other ↦ elim (Bool-cases (text "error" == status)) [
    | inl error ↦ step_from (text "error") status disputed error error_disputed
    | inr neither ↦ absurd (cc (rw (other, contains, neither) at h))
  ]
]

may_resolve : (resolution : Option Text) → DisputeStep disputed (resolution_status resolution)
unfolding resolution_status
may_resolve none = disputed_completed
may_resolve (some r) = elim (Bool-cases (r == text "sender")) [
  | inl sender ↦ rw sender disputed_refunded
  | inr other ↦ rw other disputed_completed
]

module _ (takes : AuditRow → Bool) where
  abbrev MovesAll : DisputeDb → DisputeDb → Type 0
  MovesAll db after = (j : Text) → Moves (status_in j db) (status_in j after)

  logged-Moves :
      (i to : Text) (now : ℕ) (row : AuditRow) (db : DisputeDb) (status : Text)
      → current_status i db ≡ some status
      → DisputeStep status to
      → MovesAll db (log_dispute takes row (set_dispute_status i to now db))
  unfolding status_in
  logged-Moves i to now row db status h step j =
      rw (log_dispute-status takes row (set_dispute_status i to now db))
        (set-Moves i to now db status h step j)

  raised-Moves :
      (p : RaisedPayload) (now : ℕ) (db : DisputeDb)
      → MovesAll db (handle_dispute_raised takes p now db).1
  unfolding handle_dispute_raised
  raised-Moves p now db j = elim (Option-cases (dispute_id p.transaction_id p.remittance_id)) [
    | inl missing ↦ rw (missing, handle_dispute_raised) (stays (status_in j db))
    | inr (i, given) ↦ elim (Option-cases (current_status i db)) [
      | inl unknown ↦ rw (given, handle_dispute_raised, unknown) (stays (status_in j db))
      | inr (status, known) ↦
          elim (Bool-cases (contains status (text "failed" ∷ text "error" ∷ []))) [
            | inr other ↦ rw (given, handle_dispute_raised, known, other) (stays (status_in j db))
            | inl allowed ↦ elim (Bool-cases (in_dispute_window now p.failed_at)) [
              | inr late ↦
                  rw (given, handle_dispute_raised, known, allowed, late) (stays (status_in j db))
              | inl within ↦
                  rw (given, handle_dispute_raised, known, allowed, within)
                    (logged-Moves i disputed now (raised i p.sender p.evidence_hash) db status known
                      (may_raise status allowed) j)
            ]
          ]
    ]
  ]

  resolved-Moves :
      (p : ResolvedPayload) (now : ℕ) (db : DisputeDb)
      → MovesAll db (handle_dispute_resolved takes p now db).1
  unfolding handle_dispute_resolved
  resolved-Moves p now db j = elim (Option-cases (truthy p.admin_id)) [
    | inl nobody ↦ rw (nobody, handle_dispute_resolved) (stays (status_in j db))
    | inr (admin, named) ↦ elim (Option-cases (dispute_id p.transaction_id p.remittance_id)) [
      | inl missing ↦ rw (named, handle_dispute_resolved, missing) (stays (status_in j db))
      | inr (i, given) ↦ elim (Option-cases (current_status i db)) [
        | inl unknown ↦ rw (named, handle_dispute_resolved, given, unknown) (stays (status_in j db))
        | inr (status, known) ↦ elim (Bool-cases (status == disputed)) [
          | inr other ↦
              rw (named, handle_dispute_resolved, given, known, other) (stays (status_in j db))
          | inl open_one ↦
              let e = (text_beq_iff status disputed).0 open_one in
              rw (named, handle_dispute_resolved, given, known, open_one)
                (logged-Moves i (resolution_status p.resolution) now
                  (resolved i (admin_or admin p.admin) p.in_favour_of_sender p.resulting_status) db
                  disputed (known ∙ ap some e) (may_resolve p.resolution) j)
        ]
      ]
    ]
  ]

  unfoldable pub run_disputes : List DisputeCall → DisputeDb → DisputeDb
  unfolding handle_dispute_raised handle_dispute_resolved
  run_disputes [] db = db
  run_disputes (raises p now ∷ calls) db =
      run_disputes calls (handle_dispute_raised takes p now db).1
  run_disputes (resolves p now ∷ calls) db =
      run_disputes calls (handle_dispute_resolved takes p now db).1

-- Whatever disputes are raised and resolved, the status of a transaction only moves from failed or error to
-- disputed, and from there to refunded or completed.
pub run_disputes-Moves :
    (takes : AuditRow → Bool) (calls : List DisputeCall) (db : DisputeDb) (j : Text)
    → Moves (status_in j db) (status_in j (run_disputes takes calls db))
unfolding run_disputes
run_disputes-Moves takes [] db j = stays (status_in j db)
run_disputes-Moves takes (raises p now ∷ calls) db j =
    Moves-trans (status_in j db) (status_in j (handle_dispute_raised takes p now db).1) _
      (raised-Moves takes p now db j)
      (run_disputes-Moves takes calls (handle_dispute_raised takes p now db).1 j)
run_disputes-Moves takes (resolves p now ∷ calls) db j =
    Moves-trans (status_in j db) (status_in j (handle_dispute_resolved takes p now db).1) _
      (resolved-Moves takes p now db j)
      (run_disputes-Moves takes calls (handle_dispute_resolved takes p now db).1 j)
