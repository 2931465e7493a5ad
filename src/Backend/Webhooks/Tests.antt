-- ===== src/Backend/Webhooks/Tests.antt =====
-- The theorems on the dispatcher at concrete inputs: the first two posts fail, the later ones are
-- answered.
use swift_remit.Prelude.{
  ℕ, zero, suc, ◌+◌, ◌-◌, ◌*◌, ◌≤◌, ◌≡◌, refl, true, some, none, [], ◌∷◌, ◌++◌, length,
}
use swift_remit.Prelude.Dict.{text_eq, lookup, values}
use swift_remit.Prelude.Strings.{text, decimal}
use swift_remit.Backend.Webhooks.Store.{
  WebhookSubscriber, WebhookDeliveryRecord, remittance_created, pending, get_subscribers,
  EventType-discrete,
}
use swift_remit.Backend.Webhooks.Dispatcher.{
  Options, Surroundings, World, Answer, http, thrown, attempt_delivery, dispatch,
}
use swift_remit.Backend.Webhooks.Outcomes.{IsKnown, IsDelivery}
use swift_remit.Backend.Webhooks.Attempts.{attempt_delivery_lem}
use swift_remit.Backend.Webhooks.Dispatches.{dispatch_lem}

abbrev answers : ℕ → Answer
answers zero = http 503 (text "busy")
answers (suc zero) = thrown (text "ECONNRESET")
answers (suc (suc n)) = http 200 (text "OK")

abbrev options : Options
options = record {
  max_retries = 3;
  initial_delay_ms = 1000;
  backoff_multiplier = 2;
  max_delay_ms = 60000;
}

abbrev surroundings : Surroundings
surroundings = record {
  answer = answers;
  time = λ n. n;
  fresh_id = decimal;
  hmac = λ secret message. secret ++ message;
}

abbrev hook : WebhookSubscriber
hook = record {
  id = text "w";
  url = text "https://a.example";
  events = remittance_created ∷ [];
  secret = text "s";
  active = true;
  created_at = 0;
  updated_at = 0;
}

abbrev delivery : WebhookDeliveryRecord
delivery = record {
  id = some (text "d");
  webhook_id = text "w";
  event_type = remittance_created;
  payload = text "{}";
  status = pending;
  attempt = 0;
  max_retries = 3;
  last_error = none;
  created_at = none;
  updated_at = none;
}

abbrev world : World
world = record {
  store = record {
    webhooks = (text "w", hook) ∷ [];
    deliveries = (text "d", delivery) ∷ [];
    dead_letters = [];
  };
  posts = [];
  slept = [];
  ids_drawn = 0;
  in_flight = 0;
}

known : IsKnown (text "d") world
unfolding IsKnown lookup
known = (delivery, refl)

attempt_delivery_lem_example :
    IsDelivery options surroundings
      (3 - 1)
      (text "d")
      1
      world
      (attempt_delivery options surroundings
        (text "d")
        (text "https://a.example")
        (text "s")
        (text "{}")
        1
        delivery
        world).0
      (attempt_delivery options surroundings
        (text "d")
        (text "https://a.example")
        (text "s")
        (text "{}")
        1
        delivery
        world).1
attempt_delivery_lem_example =
    attempt_delivery_lem options surroundings (text "d") (text "https://a.example") (text "s")
      (text "{}") 1 delivery world refl known

dispatch_lem_example :
    ((dispatch options surroundings remittance_created (text "{}") world).0.0
        + (dispatch options surroundings remittance_created (text "{}") world).0.1
      ≡ length (get_subscribers remittance_created world.store))
    × ((dispatch options surroundings remittance_created (text "{}") world).1.in_flight ≡ 0)
    × (length (dispatch options surroundings remittance_created (text "{}") world).1.posts
        ≤ 0 + length (get_subscribers remittance_created world.store) * (3 - 1 + 1))
dispatch_lem_example = dispatch_lem options surroundings remittance_created (text "{}") world

one_subscriber : length (get_subscribers remittance_created world.store) ≡ 1
unfolding get_subscribers EventType-discrete values
one_subscriber = refl
