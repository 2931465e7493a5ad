-- ===== src/Api/Remittances/Pages.antt =====
-- The pages of `queryWithCursor` (`api/src/db/remittanceStore.ts`), one after the other.
use swift_remit.Prelude.{
  ℕ, zero, suc, ◌*◌, ◌/◌, ◌≤◌, ◌<◌, ◌≡◌, ◌≢◌, refl, sym, ap, ◌∙◌, inl, inr, true, false, Option,
  none, some, List, [], ◌∷◌, map, filter, take, drop, length, All, arith, leb, ltb, Bool-cases,
  leb→le,
}
use swift_remit.Prelude.Dict.{Text}
use swift_remit.Prelude.Result.{ok}
use swift_remit.Prelude.Ordered.{
  order, last?, IsOrdered, IsApart, Comparable, All-map, All-order, All-filter, All-take, All-last,
  filter-All, filter_every, filter_both, filter_narrow, filter_after, take_all, take_fewer,
  last?-take, last?-map, length-take, length-drop, filter_same, map-take-drop, length-filter,
  length-order, order-IsOrdered, IsOrdered-filter,
}
use swift_remit.Api.Remittances.{
  RemittanceRow, boundary, Platform, IsLawful, Filters, map_row, read_cursor, past, matches, newer,
  named, asks_corridor, page_of, query_with_cursor, all_pages,
}

-- The primary key of the table.
abbrev pub IsUnique : List RemittanceRow → Type 0
IsUnique [] = Unit
IsUnique (r ∷ rows) = All (λ (s : RemittanceRow). r.id ≢ s.id) rows × IsUnique rows

-- A row that a cursor can name: its identifier is not empty, and its time has no part of a millisecond.
abbrev pub Addressable : RemittanceRow → Type 0
Addressable r = (r.id ≢ []) × (r.created_at / 1000 * 1000 ≡ r.created_at)

le→ltb : (a b : ℕ) → b ≤ a → ltb a b ≡ false
le→ltb a b h = ground arith

not_leb : (a b : ℕ) → leb a b ≡ false → b < a
not_leb a b h = ground arith

ltb-suc : (a : ℕ) → ltb a (suc a) ≡ true
ltb-suc a = ground arith

All-true : (rows : List RemittanceRow) → All (λ (r : RemittanceRow). true ≡ true) rows
All-true [] = tt
All-true (r ∷ rows) = (refl, All-true rows)

module _ (p : Platform) (laws : IsLawful p) where
  newer_irrefl : (r : RemittanceRow) → newer p r r ≡ false
  unfolding newer
  newer_irrefl r = ground (arith, laws.irreflexive r.id)

  newer_trans :
      (r s t : RemittanceRow) → newer p r s ≡ true → newer p s t ≡ true → newer p r t ≡ true
  unfolding newer
  newer_trans r s t h k = ground (arith, laws.transitive t.id s.id r.id)

  newer_total : (r s : RemittanceRow) → r.id ≢ s.id → Comparable (newer p) r s
  unfolding newer
  newer_total r s h = ground (arith, laws.total r.id s.id h)

  IsUnique-IsApart : (rows : List RemittanceRow) → IsUnique rows → IsApart (newer p) rows
  IsUnique-IsApart [] h = tt
  IsUnique-IsApart (r ∷ rows) h =
      (All-map (λ s ne. newer_total r s ne) rows h.0, IsUnique-IsApart rows h.1)

  -- What comes after a row past the boundary is past the boundary.
  past-newer :
      (from : Option (ℕ × Option Text)) (x s : RemittanceRow)
      → past p from x ≡ true
      → newer p x s ≡ true
      → past p from s ≡ true
  unfolding past newer
  past-newer none x s h k = refl
  past-newer (some (t, none)) x s h k = ground arith
  past-newer (some (t, some id)) x s h k = ground (arith, laws.transitive s.id x.id id)

  -- The boundary that a row's cursor gives is that row.
  past_row :
      (x s : RemittanceRow)
      → Addressable x
      → past p (some (x.created_at / 1000, some x.id)) s ≡ newer p x s
  unfolding past newer
  past_row x s h = rw h.1 refl

  read_cursor_named :
      (c : Text) (t : ℕ) (id : Text)
      → c ≢ []
      → id ≢ []
      → p.from_cursor c ≡ boundary (some t) id
      → read_cursor p (some c) ≡ ok (some (t, some id))
  unfolding read_cursor
  read_cursor_named [] t id ne named e = absurd (ne refl)
  read_cursor_named (c ∷ cs) t [] ne full e = absurd (full refl)
  read_cursor_named (c ∷ cs) t (i ∷ is) ne full e = rw (e, read_cursor) refl

  module _ (limit : ℕ) where
    -- A page that holds all that is left.
    last_page :
        (left : List RemittanceRow)
        → length left ≤ suc limit
        → (page_of p (suc limit) (take (suc (suc limit)) left)).items ≡ map (map_row p) left
    unfolding page_of
    last_page left le =
        ap (map (map_row p)) (take_fewer (suc limit) left ∙ take_all (suc limit) left le)

    last_page_cursor :
        (left : List RemittanceRow)
        → length left ≤ suc limit
        → (page_of p (suc limit) (take (suc (suc limit)) left)).next_cursor ≡ none
    unfolding page_of
    last_page_cursor left le =
        rw (take_all (suc (suc limit)) left (omega arith), le→ltb (suc limit) (length left) le) refl

    full_page :
        (left : List RemittanceRow)
        → (page_of p (suc limit) (take (suc (suc limit)) left)).items
          ≡ map (map_row p) (take (suc limit) left)
    unfolding page_of
    full_page left = ap (map (map_row p)) (take_fewer (suc limit) left)

    full_page_cursor :
        (left : List RemittanceRow) (x : RemittanceRow)
        → suc limit < length left
        → last? (take (suc limit) left) ≡ some x
        → (page_of p (suc limit) (take (suc (suc limit)) left)).next_cursor
          ≡ some (p.to_cursor (x.created_at / 1000) x.id)
    unfolding page_of map_row
    full_page_cursor left x lt e =
        rw
          (
            length-take (suc (suc limit)) left lt,
            ltb-suc (suc limit),
            take_fewer (suc limit) left,
            last?-map (map_row p) (take (suc limit) left) x e,
          )
          refl

    module _ (f : Filters) (free : asks_corridor f ≡ false) (rows : List RemittanceRow) where
      abbrev sought : List RemittanceRow
      sought = filter (matches f) (order (newer p) rows)

      abbrev left_from : Option (ℕ × Option Text) → List RemittanceRow
      left_from from = filter (past p from) sought

      query_page :
          (cursor : Option Text) (from : Option (ℕ × Option Text))
          → read_cursor p cursor ≡ ok from
          → query_with_cursor p cursor (suc limit) f rows
            ≡ ok (page_of p (suc limit) (take (suc (suc limit)) (left_from from)))
      unfolding query_with_cursor
      query_page cursor from e =
          rw
            (
              e,
              query_with_cursor,
              free,
              filter_both (past p from) (matches f) (order (newer p) rows),
            )
            refl

      sought-IsOrdered : IsUnique rows → IsOrdered (newer p) sought
      sought-IsOrdered unique =
          IsOrdered-filter (newer p) (matches f) (order (newer p) rows)
            (order-IsOrdered (newer p) newer_irrefl newer_trans rows (IsUnique-IsApart rows unique))

      left-Addressable :
          (from : Option (ℕ × Option Text))
          → All Addressable rows
          → All Addressable (left_from from)
      left-Addressable from h = All-filter Addressable (past p from) sought (
          All-filter Addressable (matches f) (order (newer p) rows)
            (All-order (newer p) Addressable rows h))

      -- What is left from the last row of a page is what that page did not take.
      left_next :
          (from : Option (ℕ × Option Text)) (x : RemittanceRow)
          → IsUnique rows
          → Addressable x
          → last? (take (suc limit) (left_from from)) ≡ some x
          → left_from (some (x.created_at / 1000, some x.id)) ≡ drop (suc limit) (left_from from)
      left_next from x unique addressable e =
          let there : past p from x ≡ true =
            All-last (λ r. past p from r ≡ true) (take (suc limit) (left_from from)) x
              (All-take (λ r. past p from r ≡ true) (suc limit) (left_from from)
                (filter-All (past p from) sought))
              e in
          filter_same (past p (some (x.created_at / 1000, some x.id))) (newer p x)
            (λ s. past_row x s addressable) sought
          ∙ sym (filter_narrow (past p from) (newer p x) (λ s. past-newer from x s there) sought)
          ∙ filter_after (newer p) newer_irrefl newer_trans (suc limit) (left_from from) x
              (IsOrdered-filter (newer p) (past p from) sought (sought-IsOrdered unique)) e

      pages_from :
          (fuel : ℕ) (cursor : Option Text) (from : Option (ℕ × Option Text))
          → IsUnique rows
          → All Addressable rows
          → read_cursor p cursor ≡ ok from
          → length (left_from from) < fuel
          → all_pages p fuel cursor (suc limit) f rows ≡ some (map (map_row p) (left_from from))
      unfolding all_pages
      pages_from zero cursor from unique addressable e lt = absurd (omega arith)
      pages_from (suc fuel) cursor from unique addressable e lt =
          elim (Bool-cases (leb (length (left_from from)) (suc limit))) [
            | inl fits ↦
                let le = leb→le (length (left_from from)) (suc limit) fits in
                rw (query_page cursor from e, all_pages, last_page_cursor (left_from from) le)
                  (ap some (last_page (left_from from) le))
            | inr more ↦
                let over = not_leb (length (left_from from)) (suc limit) more in
                let (x, last) = last?-take limit (left_from from) (omega arith) in
                let addressed =
                  All-last Addressable (take (suc limit) (left_from from)) x
                    (All-take Addressable (suc limit) (left_from from)
                      (left-Addressable from addressable))
                    last in
                let next = left_next from x unique addressed last in
                let reads =
                  read_cursor_named (p.to_cursor (x.created_at / 1000) x.id) (x.created_at / 1000)
                    x.id (laws.cursor_named (x.created_at / 1000) x.id) addressed.0
                    (laws.cursor_trip (x.created_at / 1000) x.id) in
                let rest =
                  pages_from fuel (some (p.to_cursor (x.created_at / 1000) x.id))
                    (some (x.created_at / 1000, some x.id)) unique addressable reads
                    (rw next (omega (arith, length-drop (suc limit) (left_from from)))) in
                rw
                  (
                    query_page cursor from e,
                    all_pages,
                    full_page_cursor (left_from from) x over last,
                    rest,
                    full_page (left_from from),
                    next,
                  )
                  (ap some (map-take-drop (map_row p) (suc limit) (left_from from)))
          ]

-- For a store that keeps its assumptions and rows with different identifiers that a cursor can name: a
-- client that follows the cursors with a limit above 0 and no filter by corridor gets, after at most one
-- page for each row and one more, the rows that match, each once, the newest first.
pub all_pages_lem :
    (p : Platform)
    → IsLawful p
    → (limit : ℕ) (f : Filters) (rows : List RemittanceRow) → asks_corridor f ≡ false
    → IsUnique rows
    → All Addressable rows
    → all_pages p (suc (length rows)) none (suc limit) f rows
      ≡ some (map (map_row p) (filter (matches f) (order (newer p) rows)))
unfolding read_cursor past
all_pages_lem p laws limit f rows free unique addressable =
    let every : left_from p laws limit f free rows none ≡ sought p laws limit f free rows =
      filter_every (past p none) _ (All-true (filter (matches f) (order (newer p) rows))) in
    pages_from p laws limit f free rows (suc (length rows)) none none unique addressable refl (
      rw every (
        omega
          (arith, length-filter (matches f) (order (newer p) rows), length-order (newer p) rows)))
    ∙ ap (λ left. some (map (map_row p) left)) every
