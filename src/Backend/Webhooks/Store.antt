-- ===== src/Backend/Webhooks/Store.antt =====
-- `InMemoryWebhookStore` (`backend/src/webhooks/store.ts`) and the records of
-- `backend/src/webhooks/types.ts` that it keeps. An identifier is made of the clock and a random
-- number, and is an argument here, as is whether `new URL(url)` accepts the URL.
use swift_remit.Prelude.{
  ℕ, Bool, true, false, not, ◌&&◌, ◌||◌, Option, none, some, List, [], ◌∷◌, filter, find?, take,
  drop, leb, ltb, if◌then◌else◌,
}
use swift_remit.Prelude.Dict.{Text, text_eq, ◌==◌, Dict, lookup, has, insert, erase, values}
use swift_remit.Prelude.Result.{ok, err, Action}

-- `EventType`
pub data EventType : Type 0 where
  remittance_created remittance_updated remittance_completed : EventType
  remittance_failed remittance_cancelled kyc_expiry_warning : EventType

unfoldable pub EventType-discrete : Discrete EventType
EventType-discrete = hlevel

abbrev pub same_event : EventType → EventType → Bool
same_event a b = elim (EventType-discrete a b) [ yes h ↦ true | no h ↦ false ]

-- `WebhookSubscriber`
pub record WebhookSubscriber : Type 0 where
  pub id : Text
  pub url : Text
  pub events : List EventType
  pub secret : Text
  pub active : Bool
  pub created_at : ℕ
  pub updated_at : ℕ

pub data DeliveryStatus : Type 0 where
  pending success failed : DeliveryStatus

unfoldable pub DeliveryStatus-discrete : Discrete DeliveryStatus
DeliveryStatus-discrete = hlevel

abbrev pub is_delivery : DeliveryStatus → DeliveryStatus → Bool
is_delivery a b = elim (DeliveryStatus-discrete a b) [ yes h ↦ true | no h ↦ false ]

-- `WebhookDeliveryRecord`; a payload is its text.
pub record WebhookDeliveryRecord : Type 0 where
  pub id : Option Text
  pub webhook_id : Text
  pub event_type : EventType
  pub payload : Text
  pub status : DeliveryStatus
  pub attempt : ℕ
  pub max_retries : ℕ
  pub last_error : Option Text
  pub created_at : Option ℕ
  pub updated_at : Option ℕ

-- `DeadLetterRecord`
pub record DeadLetterRecord : Type 0 where
  pub id : Text
  pub delivery_id : Option Text
  pub webhook_id : Text
  pub event_type : EventType
  pub payload : Text
  pub last_error : Option Text
  pub attempts : ℕ
  pub created_at : ℕ
  pub replayed_at : Option ℕ

pub record WebhookStore : Type 0 where
  pub webhooks : Dict Text WebhookSubscriber
  pub deliveries : Dict Text WebhookDeliveryRecord
  pub dead_letters : Dict Text DeadLetterRecord

pub data StoreError : Type 0 where
  invalid_url already_registered : Text → StoreError

abbrev pub or_empty : Option Text → Text
or_empty none = []
or_empty (some t) = t

-- `registerWebhook`
unfoldable pub register_webhook :
    (Text → Bool)
    → Text
    → List EventType
    → Option Text
    → Text
    → ℕ
    → Action WebhookStore StoreError WebhookSubscriber
register_webhook is_url url events secret id now s =
    if not (is_url url)
    then (err (invalid_url url), s)
    else elim (find? (λ w. w.url == url) (values s.webhooks)) [
      | some existing ↦ (err (already_registered url), s)
      | none ↦
          let webhook : WebhookSubscriber = record {
            id = id;
            url = url;
            events = events;
            secret = or_empty secret;
            active = true;
            created_at = now;
            updated_at = now;
          } in
          (ok webhook, record s { webhooks = insert id webhook s.webhooks })
    ]

-- `unregisterWebhook`
unfoldable pub unregister_webhook : Text → WebhookStore → Bool × WebhookStore
unregister_webhook id s = (has id s.webhooks, record s { webhooks = erase id s.webhooks })

-- `getWebhook`
unfoldable pub get_webhook : Text → WebhookStore → Option WebhookSubscriber
get_webhook id s = lookup id s.webhooks

-- `getAllWebhooks`
unfoldable pub get_all_webhooks : WebhookStore → List WebhookSubscriber
get_all_webhooks s = values s.webhooks

abbrev pub has_event : EventType → List EventType → Bool
has_event e [] = false
has_event e (x ∷ xs) = same_event x e || has_event e xs

-- `getSubscribers`
unfoldable pub get_subscribers : EventType → WebhookStore → List WebhookSubscriber
get_subscribers e s = filter (λ w. w.active && has_event e w.events) (values s.webhooks)

-- `recordDelivery`
unfoldable pub record_delivery : Text → WebhookDeliveryRecord → WebhookStore → WebhookStore
record_delivery id d s = record s {
  deliveries = insert id (record d { id = some id }) s.deliveries;
}

abbrev pub or_else : Option Text → Option Text → Option Text
or_else none old = old
or_else (some e) old = some e

-- `updateDeliveryStatus`; no error that is passed is empty.
unfoldable pub update_delivery_status :
    Text → DeliveryStatus → ℕ → Option Text → ℕ → WebhookStore → WebhookStore
update_delivery_status id status attempt e now s = elim (lookup id s.deliveries) [
  | none ↦ s
  | some d ↦ record s {
    deliveries =
        insert id
          (record d {
            status = status;
            attempt = attempt;
            last_error = or_else e d.last_error;
            updated_at = some now;
          })
          s.deliveries;
  }
]

-- `d.status === 'pending' || (d.status === 'failed' && d.attempt < d.maxRetries)`
abbrev pub is_due : WebhookDeliveryRecord → Bool
is_due d =
    is_delivery d.status pending || (is_delivery d.status failed && ltb d.attempt d.max_retries)

abbrev pub time_of : Option ℕ → ℕ
time_of none = 0
time_of (some t) = t

-- The stable sorts by time.
unfoldable pub place_by {ℓ} : {A : Type ℓ} → (A → A → Bool) → A → List A → List A
place_by before a [] = a ∷ []
place_by before a (b ∷ bs) = if before a b then a ∷ b ∷ bs else b ∷ place_by before a bs

unfoldable pub sort_by {ℓ} : {A : Type ℓ} → (A → A → Bool) → List A → List A
unfolding place_by
sort_by before [] = []
sort_by before (a ∷ rest) = place_by before a (sort_by before rest)

-- `getPendingDeliveries`
unfoldable pub get_pending_deliveries : ℕ → WebhookStore → List WebhookDeliveryRecord
unfolding sort_by
get_pending_deliveries limit s = take limit (
    sort_by (λ a b. leb (time_of a.created_at) (time_of b.created_at))
      (filter is_due (values s.deliveries)))

-- `sendToDeadLetter`
unfoldable pub send_to_dead_letter : Text → WebhookDeliveryRecord → ℕ → WebhookStore → WebhookStore
send_to_dead_letter id d now s = record s {
  dead_letters =
      insert id
        (record {
          id = id;
          delivery_id = d.id;
          webhook_id = d.webhook_id;
          event_type = d.event_type;
          payload = d.payload;
          last_error = d.last_error;
          attempts = d.attempt;
          created_at = now;
          replayed_at = none;
        })
        s.dead_letters;
}

-- `listDeadLetters`
unfoldable pub list_dead_letters : ℕ → ℕ → WebhookStore → List DeadLetterRecord
unfolding sort_by
list_dead_letters limit offset s =
    take limit
      (drop offset (sort_by (λ a b. leb b.created_at a.created_at) (values s.dead_letters)))

-- `markDeadLetterReplayed`
unfoldable pub mark_dead_letter_replayed : Text → ℕ → WebhookStore → WebhookStore
mark_dead_letter_replayed id now s = elim (lookup id s.dead_letters) [
  | none ↦ s
  | some r ↦ record s {
    dead_letters = insert id (record r { replayed_at = some now }) s.dead_letters;
  }
]
