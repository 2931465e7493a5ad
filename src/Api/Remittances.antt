-- ===== src/Api/Remittances.antt =====
-- `PostgresRemittanceStore` (`api/src/db/remittanceStore.ts`) over the table `remittances`, whose times
-- are microseconds since 1970; a JavaScript `Date` has milliseconds only. The texts of cursors (JSON in
-- base64), the order of the database on texts and `Number` on a BIGINT are parameters, in `Platform`.
use swift_remit.Prelude.{
  ℕ, zero, suc, ◌*◌, ◌/◌, ◌≡◌, ◌≢◌, ◌⊎◌, Bool, true, false, not, ◌&&◌, ◌||◌, Option, none, some,
  List, [], ◌∷◌, ◌++◌, map, filter, find?, any, take, length, leb, ltb, if◌then◌else◌,
  ◌==◌ as same_time,
}
use swift_remit.Prelude.Int.{ℤ, ltb_ℤ}
use swift_remit.Prelude.Dict.{Text, text_eq, ◌==◌}
use swift_remit.Prelude.Result.{Result, ok, err, Action}
use swift_remit.Prelude.Ordered.{order, last?}
unfoldable pub use swift_remit.Api.Remittances.Rows.*
pub mod Rows
pub mod Pages
pub mod Store

-- `getById`
unfoldable pub get_by_id : Platform → Text → List RemittanceRow → Option Remittance
unfolding map_row
get_by_id p id rows = elim (find? (λ (r : RemittanceRow). r.id == id) rows) [
  | none ↦ none
  | some r ↦ some (map_row p r)
]

-- The row that `create` inserts; the defaults of the two times are `NOW()`.
unfoldable pub new_row : NewRemittance → ℕ → RemittanceRow
new_row n now = record {
  id = n.id;
  sender_id = n.sender_id;
  agent_id = n.agent_id;
  amount = n.amount;
  fee = n.fee;
  status = n.status;
  created_at = now;
  updated_at = now;
}

-- `create`
unfoldable pub create :
    Platform → NewRemittance → ℕ → Action (List RemittanceRow) TableError Remittance
unfolding map_row new_row
create p n now rows =
    if any (λ (s : RemittanceRow). s.id == n.id) rows
    then (err duplicate_key, rows)
    else (ok (map_row p (new_row n now)), rows ++ new_row n now ∷ [])

unfoldable pub with_status : Text → RemittanceStatus → ℕ → RemittanceRow → RemittanceRow
with_status id status now r =
    if r.id == id then record r { status = status; updated_at = now } else r

-- `updateStatus`
unfoldable pub update_status :
    Platform
    → Text
    → RemittanceStatus
    → ℕ
    → List RemittanceRow
    → Option Remittance × List RemittanceRow
unfolding with_status get_by_id
update_status p id status now rows =
    let written = map (with_status id status now) rows in (get_by_id p id written, written)

-- The filters of `queryWithCursor`.
pub record Filters : Type 0 where
  pub agent_id : Option Text
  pub status : Option RemittanceStatus
  pub from_date : Option ℕ
  pub to_date : Option ℕ
  pub corridor : Option Text
  pub min_amount : Option ℤ
  pub max_amount : Option ℤ

-- `if (cursorId)`
abbrev pub named : Text → Option Text
named [] = none
named (c ∷ cs) = some (c ∷ cs)

-- The boundary of a page, as the cursor gives it. An empty identifier counts as none.
unfoldable pub read_cursor : Platform → Option Text → Result TableError (Option (ℕ × Option Text))
read_cursor p none = ok none
read_cursor p (some []) = ok none
read_cursor p (some (c ∷ cs)) = elim (p.from_cursor (c ∷ cs)) [
  | malformed ↦ err invalid_cursor
  | other_value ↦ err invalid_cursor
  | date_text o ↦ elim o [ none ↦ err invalid_cursor | some t ↦ ok (some (t, none)) ]
  | boundary o id ↦ elim o [ none ↦ err invalid_cursor | some t ↦ ok (some (t, named id)) ]
]

-- The condition of the boundary.
unfoldable pub past : Platform → Option (ℕ × Option Text) → RemittanceRow → Bool
past p none r = true
past p (some (t, none)) r = ltb r.created_at (t * 1000)
past p (some (t, some id)) r =
    ltb r.created_at (t * 1000) || (same_time r.created_at (t * 1000) && p.id_less r.id id)

-- An optional condition.
abbrev pub when {ℓ} : {A : Type ℓ} → Option A → (A → Bool) → Bool
when none c = true
when (some a) c = c a

-- `if (agentId)`: the empty text is no condition.
abbrev pub agent_is : Option Text → Text → Bool
agent_is none agent = true
agent_is (some []) agent = true
agent_is (some (c ∷ cs)) agent = agent == c ∷ cs

-- The other conditions of the WHERE clause.
unfoldable pub matches : Filters → RemittanceRow → Bool
matches f r =
    agent_is f.agent_id r.agent_id
    && when f.status (λ s. has_status r.status s)
    && when f.from_date (λ d. leb (d * 1000) r.created_at)
    && when f.to_date (λ d. leb r.created_at (d * 1000))
    && when f.min_amount (λ a. not (ltb_ℤ r.amount a))
    && when f.max_amount (λ a. not (ltb_ℤ a r.amount))

-- `ORDER BY created_at DESC, id DESC`
unfoldable pub newer : Platform → RemittanceRow → RemittanceRow → Bool
newer p r s =
    ltb s.created_at r.created_at || (same_time s.created_at r.created_at && p.id_less s.id r.id)

-- `PaginatedResult<Remittance>`
pub record PaginatedResult : Type 0 where
  pub items : List Remittance
  pub next_cursor : Option Text
  pub has_more : Bool

-- `if (corridor)`
abbrev pub asks_corridor : Filters → Bool
asks_corridor f = elim f.corridor [ none ↦ false | some t ↦ elim t [ [] ↦ false | c ∷ cs ↦ true ] ]

-- What follows the statement.
unfoldable pub page_of : Platform → ℕ → List RemittanceRow → PaginatedResult
unfolding last? map_row
page_of p limit rows =
    let items = map (map_row p) (take limit rows) in
    let has_more = ltb limit (length rows) in
    record {
      items = items;
      next_cursor =
          if has_more
          then elim (last? items) [ none ↦ none | some r ↦ some (p.to_cursor r.created_at r.id) ]
          else none;
      has_more = has_more;
    }

-- `queryWithCursor`. The schema has no column `corridor`, so the database refuses a statement with it.
unfoldable pub query_with_cursor :
    Platform → Option Text → ℕ → Filters → List RemittanceRow → Result TableError PaginatedResult
unfolding read_cursor past matches newer order page_of
query_with_cursor p cursor limit f rows = elim (read_cursor p cursor) [
  | err e ↦ err e
  | ok from ↦
      if asks_corridor f
      then err no_such_column
      else ok (
          page_of p limit
            (take (suc limit) (filter (λ r. past p from r && matches f r) (order (newer p) rows))))
]

-- A client that asks for all pages, each with the cursor of the last.
unfoldable pub all_pages :
    Platform → ℕ → Option Text → ℕ → Filters → List RemittanceRow → Option (List Remittance)
unfolding query_with_cursor
all_pages p zero cursor limit f rows = none
all_pages p (suc fuel) cursor limit f rows = elim (query_with_cursor p cursor limit f rows) [
  | err e ↦ none
  | ok page ↦ elim page.next_cursor [
    | none ↦ some page.items
    | some c ↦ elim (all_pages p fuel (some c) limit f rows) [
      | none ↦ none
      | some rest ↦ some (page.items ++ rest)
    ]
  ]
]
