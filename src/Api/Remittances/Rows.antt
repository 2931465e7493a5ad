-- ===== src/Api/Remittances/Rows.antt =====
-- The rows of the table `remittances` and the types of `PostgresRemittanceStore`
-- (`api/src/db/remittanceStore.ts`), with what the store relies on.
use swift_remit.Prelude.{ℕ, ◌/◌, ◌≡◌, ◌≢◌, ◌⊎◌, Bool, true, false, Option, some, []}
use swift_remit.Prelude.Int.{ℤ}
use swift_remit.Prelude.Dict.{Text, text_eq}

-- `RemittanceStatus` (`api/src/websocket/types.ts`)
pub data RemittanceStatus : Type 0 where
  pending processing completed cancelled failed disputed : RemittanceStatus

unfoldable pub RemittanceStatus-discrete : Discrete RemittanceStatus
RemittanceStatus-discrete = hlevel

abbrev pub has_status : RemittanceStatus → RemittanceStatus → Bool
has_status a b = elim (RemittanceStatus-discrete a b) [ yes h ↦ true | no h ↦ false ]

-- `RemittanceRow`
pub record RemittanceRow : Type 0 where
  pub id : Text
  pub sender_id : Text
  pub agent_id : Text
  pub amount : ℤ
  pub fee : ℤ
  pub status : RemittanceStatus
  pub created_at : ℕ
  pub updated_at : ℕ

-- `Remittance`; its times are those of the ISO texts, in milliseconds.
pub record Remittance : Type 0 where
  pub id : Text
  pub sender_id : Text
  pub agent_id : Text
  pub amount : ℤ
  pub fee : ℤ
  pub status : RemittanceStatus
  pub created_at : ℕ
  pub updated_at : ℕ

-- `Omit<Remittance, 'created_at' | 'updated_at'>`
pub record NewRemittance : Type 0 where
  pub id : Text
  pub sender_id : Text
  pub agent_id : Text
  pub amount : ℤ
  pub fee : ℤ
  pub status : RemittanceStatus

-- What a cursor holds. A time is missing where `getTime()` is NaN.
pub data CursorPayload : Type 0 where
  malformed other_value : CursorPayload
  date_text : Option ℕ → CursorPayload
  boundary : Option ℕ → Text → CursorPayload

pub record Platform : Type 0 where
  pub id_less : Text → Text → Bool
  pub number : ℤ → ℤ
  pub to_cursor : ℕ → Text → Text
  pub from_cursor : Text → CursorPayload

-- What the store relies on: texts are in a strict total order, and a cursor that was made of a time
-- and an identifier is read as these, and is not the empty text.
pub record IsLawful (p : Platform) : Type 0 where
  pub irreflexive : (a : Text) → p.id_less a a ≡ false
  pub transitive :
      (a b c : Text) → p.id_less a b ≡ true → p.id_less b c ≡ true → p.id_less a c ≡ true
  pub total : (a b : Text) → a ≢ b → (p.id_less a b ≡ true) ⊎ (p.id_less b a ≡ true)
  pub cursor_trip : (t : ℕ) (id : Text) → p.from_cursor (p.to_cursor t id) ≡ boundary (some t) id
  pub cursor_named : (t : ℕ) (id : Text) → p.to_cursor t id ≢ []

pub data TableError : Type 0 where
  duplicate_key invalid_cursor no_such_column : TableError

-- `mapRow`
unfoldable pub map_row : Platform → RemittanceRow → Remittance
map_row p r = record {
  id = r.id;
  sender_id = r.sender_id;
  agent_id = r.agent_id;
  amount = p.number r.amount;
  fee = p.number r.fee;
  status = r.status;
  created_at = r.created_at / 1000;
  updated_at = r.updated_at / 1000;
}
