-- ===== src/Api/Tests.antt =====
-- The theorems on the store of remittances and the cursors at concrete inputs.
use swift_remit.Prelude.{
  suc, ◌<◌, ◌≡◌, ◌≢◌, refl, ◌⊎◌, inl, inr, Bool, true, false, ◌&&◌, ◌||◌, Option, none, some, List,
  [], ◌∷◌, map, any, filter, length, take, drop, All, arith, ltb, ◌==◌ as nat_beq, if◌then◌else◌,
}
use swift_remit.Prelude.Int.{pos}
use swift_remit.Prelude.Dict.{Text, text_eq, text_beq_iff, ◌==◌}
use swift_remit.Prelude.Strings.{text}
use swift_remit.Prelude.Result.{ok, err}
use swift_remit.Prelude.Ordered.{order, IsOrdered}
use swift_remit.Api.Remittances.{
  pending, completed, RemittanceRow, Remittance, NewRemittance, CursorPayload, malformed, boundary,
  Platform, IsLawful, Filters, duplicate_key, map_row, matches, newer, create, get_by_id, all_pages,
}
use swift_remit.Api.Remittances.Pages.{IsUnique, Addressable, all_pages_lem}
use swift_remit.Api.Remittances.Store.{
  creates, updates_status, StoreCall, run_calls, run_calls-IsUnique, create_lem,
}
use swift_remit.Api.Cursor.{
  Base64, encode_cursor, decode_cursor, build_cursor_where_clause, get_next_cursor, decode-encode,
  next_page_skips,
}

-- The order of texts by their code units.
unfoldable text_less : Text → Text → Bool
text_less [] [] = false
text_less [] (b ∷ t) = true
text_less (a ∷ s) [] = false
text_less (a ∷ s) (b ∷ t) = ltb a b || (nat_beq a b && text_less s t)

text_less_irrefl : (s : Text) → text_less s s ≡ false
unfolding text_less
text_less_irrefl [] = refl
text_less_irrefl (a ∷ s) = ground (arith, text_less_irrefl s)

text_less_trans :
    (s t u : Text) → text_less s t ≡ true → text_less t u ≡ true → text_less s u ≡ true
unfolding text_less
text_less_trans s [] [] h k = cc
text_less_trans [] t (c ∷ u) h k = refl
text_less_trans (a ∷ s) [] u h k = absurd (cc h)
text_less_trans [] (b ∷ t) [] h k = absurd (cc k)
text_less_trans (a ∷ s) (b ∷ t) [] h k = absurd (cc k)
text_less_trans (a ∷ s) (b ∷ t) (c ∷ u) h k = ground (arith, text_less_trans s t u)

text_less_total : (s t : Text) → s ≢ t → (text_less s t ≡ true) ⊎ (text_less t s ≡ true)
unfolding text_less
text_less_total [] [] ne = absurd (ne refl)
text_less_total [] (b ∷ t) ne = inl refl
text_less_total (a ∷ s) [] ne = inr refl
text_less_total (a ∷ s) (b ∷ t) ne = ground (arith, text_less_total s t)

-- A cursor is the time and the identifier.
unfoldable read : Text → CursorPayload
read [] = malformed
read (t ∷ id) = boundary (some t) id

unfoldable platform : Platform
unfolding text_less read
platform = record {
  id_less = text_less;
  number = λ a. a;
  to_cursor = λ t id. t ∷ id;
  from_cursor = read;
}

platform-IsLawful : IsLawful platform
unfolding platform read
platform-IsLawful = record {
  irreflexive = text_less_irrefl;
  transitive = text_less_trans;
  total = text_less_total;
  cursor_trip = λ t id. refl;
  cursor_named = λ t id e. cc e;
}

abbrev made : Text → NewRemittance
made id = record {
  id = id;
  sender_id = text "s";
  agent_id = text "a";
  amount = pos 100;
  fee = pos 2;
  status = pending;
}

abbrev calls : List StoreCall
calls =
    creates (made (text "r1")) 5_000
    ∷ creates (made (text "r2")) 5_000
    ∷ creates (made (text "r3")) 9_000
    ∷ updates_status (text "r2") completed 11_000
    ∷ []

abbrev rows : List RemittanceRow
rows = run_calls platform calls []

abbrev by_agent : Filters
by_agent = record {
  agent_id = some (text "a");
  status = none;
  from_date = none;
  to_date = none;
  corridor = none;
  min_amount = none;
  max_amount = none;
}

run_calls-IsUnique_example : IsUnique rows
run_calls-IsUnique_example = run_calls-IsUnique platform calls [] tt

not_empty : (s : Text) → (s == []) ≡ false → s ≢ []
not_empty s h e = absurd (cc (h, (text_beq_iff s []).1 e))

rows-Addressable : All Addressable rows
unfolding run_calls
rows-Addressable = (
  (not_empty (text "r1") refl, refl),
  ((not_empty (text "r2") refl, refl), ((not_empty (text "r3") refl, refl), tt)),
)

all_pages_lem_example :
    all_pages platform (suc (length rows)) none 2 by_agent rows
    ≡ some (map (map_row platform) (filter (matches by_agent) (order (newer platform) rows)))
all_pages_lem_example =
    all_pages_lem platform platform-IsLawful 1 by_agent rows refl run_calls-IsUnique_example
      rows-Addressable

-- Three rows on two pages, the newest first; of one time, the greater identifier first.
ids_of_pages : Option (List Text)
unfolding all_pages run_calls
ids_of_pages = elim (all_pages platform 4 none 2 by_agent rows) [
  | none ↦ none
  | some items ↦ some (map (λ (r : Remittance). r.id) items)
]

pages_run : ids_of_pages ≡ some (text "r3" ∷ text "r2" ∷ text "r1" ∷ [])
unfolding ids_of_pages platform
pages_run = refl

create_lem_example :
    ((any (λ (s : RemittanceRow). s.id == text "r4") rows ≡ true)
      × (create platform (made (text "r4")) 12_000 rows ≡ (err duplicate_key, rows)))
    ⊎ ((r : Remittance) × ((create platform (made (text "r4")) 12_000 rows).0 ≡ ok r)
        × (r.status ≡ pending)
        × ((j : Text)
            → get_by_id platform j (create platform (made (text "r4")) 12_000 rows).1
              ≡ (if text "r4" == j then some r else get_by_id platform j rows)))
create_lem_example = create_lem platform (made (text "r4")) 12_000 rows

-- An encoding that leaves texts as they are.
abbrev plain : Base64
plain = record {
  encode = λ t. t;
  decode = λ t. t;
  decode_encode = λ t. refl;
  encode_full = λ t ne. ne;
}

abbrev ids : List Text
ids = text "a" ∷ text "b" ∷ text "c" ∷ []

ids-IsOrdered : IsOrdered text_less ids
unfolding text_less
ids-IsOrdered = ((refl, (refl, tt)), ((refl, tt), (tt, tt)))

one_lt : 1 < length ids
one_lt = omega arith

decode-encode_example : decode_cursor plain (encode_cursor plain (text "7")) ≡ ok (text "7")
decode-encode_example = decode-encode plain (text "7")

-- Of three entries in pages of one, the second is on no page.
next_page_skips_example :
    (next : Text) × (get_next_cursor plain (take 2 ids) 2 1 ≡ some (encode_cursor plain next))
    × (build_cursor_where_clause plain (some (encode_cursor plain next)) ≡ ok (some next))
    × (filter (text_less next) ids ≡ drop 2 ids)
next_page_skips_example =
    next_page_skips plain text_less text_less_irrefl text_less_trans 1 ids ids-IsOrdered one_lt
