-- ===== src/Api/Cursor.antt =====
-- The cursors of `api/src/services/cursor-pagination.ts`. Base64 is a parameter. A clause is the bound that
-- it puts on the identifiers, whose order in the database is a parameter too.
use swift_remit.Prelude.{
  ℕ, suc, ◌≡◌, ◌≢◌, refl, Bool, true, false, Option, none, some, List, [], ◌∷◌, ◌++◌, take, drop,
  filter, length, ◌<◌, arith, leb, if◌then◌else◌,
}
use swift_remit.Prelude.Dict.{Text}
use swift_remit.Prelude.Strings.{text, starts_with}
use swift_remit.Prelude.Result.{Result, ok, err}
use swift_remit.Prelude.Ordered.{last?, IsOrdered, filter_after, last?-take, length-take}

pub data CursorError : Type 0 where
  invalid_cursor_format invalid_cursor : CursorError

pub record Base64 : Type 0 where
  pub encode : Text → Text
  pub decode : Text → Text
  -- A text that was encoded is read back, and only the empty text becomes empty.
  pub decode_encode : (t : Text) → decode (encode t) ≡ t
  pub encode_full : (t : Text) → t ≢ [] → encode t ≢ []

over : (a b : ℕ) → a < b → leb b a ≡ false
over a b h = ground arith

module _ (b : Base64) where
  -- `encodeCursor`, for the text of the identifier.
  unfoldable pub encode_cursor : Text → Text
  encode_cursor id = b.encode (text "id:" ++ id)

  -- `decodeCursor`
  unfoldable pub decode_cursor : Text → Result CursorError Text
  decode_cursor cursor =
      if starts_with (text "id:") (b.decode cursor)
      then ok (drop 3 (b.decode cursor))
      else err invalid_cursor_format

  -- `buildCursorWhereClause`: no clause, or `AND id > $1`.
  unfoldable pub build_cursor_where_clause : Option Text → Result CursorError (Option Text)
  unfolding decode_cursor
  build_cursor_where_clause none = ok none
  build_cursor_where_clause (some []) = ok none
  build_cursor_where_clause (some (c ∷ cs)) = elim (decode_cursor (c ∷ cs)) [
    | ok id ↦ ok (some id)
    | err e ↦ err invalid_cursor
  ]

  -- `getNextCursor`, for the identifiers of the items.
  unfoldable pub get_next_cursor : List Text → ℕ → ℕ → Option Text
  unfolding last? encode_cursor
  get_next_cursor items limit requested_limit =
      if leb (length items) requested_limit
      then none
      else elim (last? items) [ none ↦ none | some id ↦ some (encode_cursor id) ]

  -- What was encoded is decoded.
  pub decode-encode : (id : Text) → decode_cursor (encode_cursor id) ≡ ok id
  unfolding decode_cursor encode_cursor
  decode-encode id = rw (b.decode_encode (text "id:" ++ id)) refl

  encode_cursor_full : (id : Text) → encode_cursor id ≢ []
  unfolding encode_cursor
  encode_cursor_full id = b.encode_full (text "id:" ++ id) (λ e. cc e)

  where_of_full :
      (c : Text) (id : Text)
      → c ≢ []
      → decode_cursor c ≡ ok id
      → build_cursor_where_clause (some c) ≡ ok (some id)
  unfolding build_cursor_where_clause
  where_of_full [] id full e = absurd (full refl)
  where_of_full (c ∷ cs) id full e = rw (e, build_cursor_where_clause) refl

  where_of : (id : Text) → build_cursor_where_clause (some (encode_cursor id)) ≡ ok (some id)
  where_of id = where_of_full (encode_cursor id) id (encode_cursor_full id) (decode-encode id)

-- The identifiers of a table, ascending in a strict order, and a page of `limit` of them: the next cursor
-- is that of the entry that follows the page, the clause made of it bounds the identifiers by that entry,
-- and what this clause leaves starts after it, so the entry that follows the page is on no page.
pub next_page_skips :
    (b : Base64) (less : Text → Text → Bool)
    → ((i : Text) → less i i ≡ false)
    → ((i j k : Text) → less i j ≡ true → less j k ≡ true → less i k ≡ true)
    → (limit : ℕ) (ids : List Text) → IsOrdered less ids
    → limit < length ids
    → (next : Text) × (get_next_cursor b (take (suc limit) ids) (suc limit) limit
        ≡ some (encode_cursor b next))
      × (build_cursor_where_clause b (some (encode_cursor b next)) ≡ ok (some next))
      × (filter (less next) ids ≡ drop (suc limit) ids)
unfolding get_next_cursor
next_page_skips b less irreflexive transitive limit ids ordered more =
    let (next, last) = last?-take limit ids (omega arith) in
    (
      next,
      rw
          (
            over limit (length (take (suc limit) ids))
                (omega (arith, length-take (suc limit) ids more)),
            last,
          )
          refl,
      where_of b next,
      filter_after less irreflexive transitive (suc limit) ids next ordered last,
    )
