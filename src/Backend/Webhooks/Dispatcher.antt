-- ===== src/Backend/Webhooks/Dispatcher.antt =====
-- `WebhookDispatcher` (`backend/src/webhooks/dispatcher.ts`) over the store in memory. What the posts
-- are answered, the clock, the random identifiers and HMAC-SHA256 are parameters: the answers and the
-- times by the number of posts that were made before, the identifiers by the number that were drawn.
-- A payload is the text that is sent, the correlation identifier included; the content type is the
-- default, which no registration changes. Log lines and the callback for dead letters are left out.
use swift_remit.Prelude.{
  ℕ, zero, suc, ◌+◌, ◌-◌, ◌*◌, ◌^◌, Bool, true, false, not, ◌&&◌, Option, none, some, List, [], ◌∷◌,
  ◌++◌, length, leb, ltb, min, if◌then◌else◌,
}
use swift_remit.Prelude.Dict.{Text}
use swift_remit.Prelude.Strings.{text, decimal, starts_with}
use swift_remit.Backend.Webhooks.Store.{
  EventType, WebhookSubscriber, WebhookDeliveryRecord, DeliveryStatus, pending, success, failed,
  WebhookStore, get_subscribers, get_webhook, record_delivery, update_delivery_status,
  send_to_dead_letter, get_pending_deliveries,
}

-- `WebhookDeliveryOptions`; the timeout is for the library that posts.
pub record Options : Type 0 where
  pub max_retries : ℕ
  pub initial_delay_ms : ℕ
  pub backoff_multiplier : ℕ
  pub max_delay_ms : ℕ

-- A request that was posted.
pub record Post : Type 0 where
  pub url : Text
  pub body : Text
  pub timestamp : ℕ
  pub signature : Text

-- A response with its status and status text, or what `axios.post` throws.
pub data Answer : Type 0 where
  http : ℕ → Text → Answer
  thrown : Text → Answer

pub record World : Type 0 where
  pub store : WebhookStore
  pub posts : List Post
  pub slept : List ℕ
  pub ids_drawn : ℕ
  pub in_flight : ℕ

pub record Surroundings : Type 0 where
  pub answer : ℕ → Answer
  pub time : ℕ → ℕ
  pub fresh_id : ℕ → Text
  pub hmac : Text → Text → Text

-- `getBackoffDelay`
unfoldable pub get_backoff_delay : Options → ℕ → ℕ
get_backoff_delay o attempt =
    min (o.initial_delay_ms * o.backoff_multiplier ^ (attempt - 1)) o.max_delay_ms

-- The error of an answer, if it is not a success.
unfoldable pub failure : Answer → Option Text
failure (http status why) =
    if leb 200 status && ltb status 300
    then none
    else some (text "HTTP " ++ decimal status ++ text ": " ++ why)
failure (thrown e) = some e

-- `url.startsWith('https://')`
abbrev pub is_https : Text → Bool
is_https url = starts_with (text "https://") url

module _ (o : Options) (env : Surroundings) where
  abbrev pub now : World → ℕ
  now w = env.time (length w.posts)

  -- `axios.post` with the headers of `generateHeaders`.
  unfoldable pub post : Text → Text → Text → World → World
  post url secret payload w = record w {
    posts =
        w.posts
        ++ record {
          url = url;
          body = payload;
          timestamp = now w;
          signature = env.hmac secret (decimal (now w) ++ text "." ++ payload);
        }
          ∷ [];
  }

  unfoldable pub set_status : Text → DeliveryStatus → ℕ → Option Text → World → World
  set_status id status attempt e w = record w {
    store = update_delivery_status id status attempt e (now w) w.store;
  }

  unfoldable pub sleep : ℕ → World → World
  sleep delay w = record w { slept = w.slept ++ delay ∷ [] }

  unfoldable pub dead_letter : Text → WebhookDeliveryRecord → ℕ → Text → World → World
  dead_letter id d attempt e w = record w {
    store =
        send_to_dead_letter (env.fresh_id w.ids_drawn)
          (record d { id = some id; status = failed; attempt = attempt; last_error = some e })
          (now w) w.store;
    ids_drawn = w.ids_drawn + 1;
  }

  -- The body of `attemptDelivery` behind its check of the URL. The first argument is how many attempts
  -- are left, `maxRetries - attempt`; the code asks for `attempt < maxRetries`.
  unfoldable pub attempt_from :
      ℕ → Text → Text → Text → Text → ℕ → WebhookDeliveryRecord → World → Bool × World
  unfolding post set_status sleep dead_letter
  attempt_from zero id url secret payload attempt d w =
      let sent = post url secret payload w in
      elim (failure (env.answer (length w.posts))) [
        | none ↦ (true, set_status id success attempt none sent)
        | some e ↦ (false, dead_letter id d attempt e (set_status id failed attempt (some e) sent))
      ]
  attempt_from (suc left) id url secret payload attempt d w =
      let sent = post url secret payload w in
      elim (failure (env.answer (length w.posts))) [
        | none ↦ (true, set_status id success attempt none sent)
        | some e ↦
            attempt_from left id url secret payload (attempt + 1) d
              (sleep (get_backoff_delay o attempt) (set_status id pending attempt (some e) sent))
      ]

  -- `attemptDelivery`
  unfoldable pub attempt_delivery :
      Text → Text → Text → Text → ℕ → WebhookDeliveryRecord → World → Bool × World
  unfolding attempt_from set_status
  attempt_delivery id url secret payload attempt d w =
      if not (is_https url)
      then (
        false,
        set_status id failed attempt
            (some
              (text "Webhook delivery rejected: URL must use HTTPS (received: " ++ url ++ text ")"))
            w,
      )
      else attempt_from (o.max_retries - attempt) id url secret payload attempt d w

  abbrev pub new_delivery : EventType → Text → Text → WebhookDeliveryRecord
  new_delivery event webhook_id payload = record {
    id = none;
    webhook_id = webhook_id;
    event_type = event;
    payload = payload;
    status = pending;
    attempt = 0;
    max_retries = o.max_retries;
    last_error = none;
    created_at = none;
    updated_at = none;
  }

  -- The body of the loop of `dispatch`.
  unfoldable pub deliver_to : EventType → Text → WebhookSubscriber → World → Bool × World
  unfolding attempt_delivery
  deliver_to event payload s w =
      let id = env.fresh_id w.ids_drawn in
      let d = new_delivery event s.id payload in
      attempt_delivery id s.url s.secret payload 1 d
        (record w { store = record_delivery id d w.store; ids_drawn = w.ids_drawn + 1 })

  -- The loop of `dispatch`: how many deliveries succeeded and failed.
  unfoldable pub deliver_all :
      EventType → Text → List WebhookSubscriber → ℕ → ℕ → World → (ℕ × ℕ) × World
  unfolding deliver_to
  deliver_all event payload [] good bad w = ((good, bad), w)
  deliver_all event payload (s ∷ ss) good bad w =
      let (delivered, w') = deliver_to event payload s w in
      deliver_all event payload ss (if delivered then good + 1 else good)
        (if delivered then bad else bad + 1) w'

  -- `dispatch`. Without subscribers the loop has nothing to do, and the counts are 0.
  unfoldable pub dispatch : EventType → Text → World → (ℕ × ℕ) × World
  unfolding deliver_all
  dispatch event payload w =
      let (counts, w') =
        deliver_all event payload (get_subscribers event w.store) 0 0
          (record w { in_flight = w.in_flight + 1 }) in
      (counts, record w' { in_flight = w'.in_flight - 1 })

  -- The loop of `retryPendingDeliveries`.
  unfoldable pub retry_all : List WebhookDeliveryRecord → World → World
  unfolding attempt_delivery
  retry_all [] w = w
  retry_all (d ∷ ds) w = retry_all ds (elim d.id [
    | none ↦ w
    | some id ↦ elim (get_webhook d.webhook_id w.store) [
      | none ↦ w
      | some s ↦ (attempt_delivery id s.url s.secret d.payload (d.attempt + 1) d w).1
    ]
  ])

  -- `retryPendingDeliveries`
  unfoldable pub retry_pending_deliveries : ℕ → World → World
  unfolding retry_all
  retry_pending_deliveries limit w = retry_all (get_pending_deliveries limit w.store) w
