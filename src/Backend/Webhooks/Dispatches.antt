-- ===== src/Backend/Webhooks/Dispatches.antt =====
-- What `dispatch` (`backend/src/webhooks/dispatcher.ts`) reports of its loop.
use swift_remit.Prelude.{
  ℕ, zero, suc, ◌+◌, ◌-◌, ◌*◌, ◌≤◌, ◌≡◌, refl, ◌∙◌, inl, inr, Bool, true, false, some, List, [],
  ◌∷◌, length, arith, Bool-cases, Option-cases, if◌then◌else◌,
}
use swift_remit.Prelude.Dict.{Text, text_eq, lookup-insert_self}
use swift_remit.Backend.Webhooks.Store.{
  EventType, WebhookSubscriber, WebhookDeliveryRecord, get_subscribers, record_delivery,
}
use swift_remit.Backend.Webhooks.Dispatcher.{
  Options, Surroundings, World, failure, attempt_from, attempt_delivery, is_https, deliver_to,
  deliver_all, dispatch, new_delivery, post, set_status, sleep, dead_letter,
}
use swift_remit.Backend.Webhooks.Outcomes.{IsKnown, IsDelivery}
use swift_remit.Backend.Webhooks.Attempts.{attempt_delivery_lem}

module _ (o : Options) (env : Surroundings) where
  in_flight_from :
      (left : ℕ) (id url secret payload : Text) (attempt : ℕ) (d : WebhookDeliveryRecord)
      (w : World)
      → (attempt_from o env left id url secret payload attempt d w).1.in_flight ≡ w.in_flight
  unfolding attempt_from post set_status sleep dead_letter
  in_flight_from zero id url secret payload attempt d w =
      elim (Option-cases (failure (env.answer (length w.posts)))) [
        | inl good ↦ rw (good, attempt_from) refl
        | inr (e, bad) ↦ rw (bad, attempt_from) refl
      ]
  in_flight_from (suc left) id url secret payload attempt d w =
      elim (Option-cases (failure (env.answer (length w.posts)))) [
        | inl good ↦ rw (good, attempt_from) refl
        | inr (e, bad) ↦
            rw (bad, attempt_from) (in_flight_from left id url secret payload (attempt + 1) d _)
      ]

  in_flight_deliver :
      (event : EventType) (payload : Text) (s : WebhookSubscriber) (w : World)
      → (deliver_to o env event payload s w).1.in_flight ≡ w.in_flight
  unfolding deliver_to attempt_delivery set_status
  in_flight_deliver event payload s w = elim (Bool-cases (is_https s.url)) [
    | inl https ↦ rw https (in_flight_from (o.max_retries - 1) _ s.url s.secret payload 1 _ _)
    | inr other ↦ rw other refl
  ]

  no_posts :
      (event : EventType) (payload : Text) (s : WebhookSubscriber) (w : World)
      → is_https s.url ≡ false
      → length (deliver_to o env event payload s w).1.posts
        ≤ length w.posts + (o.max_retries - 1 + 1)
  unfolding deliver_to attempt_delivery set_status
  no_posts event payload s w other = rw other (omega arith)

  abbrev recorded : EventType → Text → WebhookSubscriber → World → World
  recorded event payload s w = record w {
    store =
        record_delivery (env.fresh_id w.ids_drawn) (new_delivery o env event s.id payload) w.store;
    ids_drawn = w.ids_drawn + 1;
  }

  recorded-IsKnown :
      (event : EventType) (payload : Text) (s : WebhookSubscriber) (w : World)
      → IsKnown (env.fresh_id w.ids_drawn) (recorded event payload s w)
  unfolding IsKnown record_delivery
  recorded-IsKnown event payload s w =
      let id = env.fresh_id w.ids_drawn in
      let d : WebhookDeliveryRecord = record (new_delivery o env event s.id payload) {
        id = some id;
      } in
      (d, lookup-insert_self id d w.store.deliveries)

  -- The outcome of one round of the loop on an `https` URL.
  pub deliver_to_lem :
      (event : EventType) (payload : Text) (s : WebhookSubscriber) (w : World)
      → is_https s.url ≡ true
      → IsDelivery o env
          (o.max_retries - 1)
          (env.fresh_id w.ids_drawn)
          1
          (recorded event payload s w)
          (deliver_to o env event payload s w).0
          (deliver_to o env event payload s w).1
  unfolding deliver_to
  deliver_to_lem event payload s w https =
      attempt_delivery_lem o env (env.fresh_id w.ids_drawn) s.url s.secret payload 1
        (new_delivery o env event s.id payload) (recorded event payload s w) https
        (recorded-IsKnown event payload s w)

  -- A delivery posts at most `maxRetries` times, once when that is 0.
  posts_deliver :
      (event : EventType) (payload : Text) (s : WebhookSubscriber) (w : World)
      → length (deliver_to o env event payload s w).1.posts
        ≤ length w.posts + (o.max_retries - 1 + 1)
  posts_deliver event payload s w = elim (Bool-cases (is_https s.url)) [
    | inl https ↦
        let d = deliver_to_lem event payload s w https in omega (arith, d.posted, d.within)
    | inr other ↦ no_posts event payload s w other
  ]

  add_one :
      (b : Bool) (good bad : ℕ)
      → (if b then good + 1 else good) + (if b then bad else bad + 1) ≡ good + bad + 1
  add_one true good bad = omega arith
  add_one false good bad = omega arith

  deliver_all_lem :
      (event : EventType) (payload : Text) (ss : List WebhookSubscriber) (good bad : ℕ) (w : World)
      → ((deliver_all o env event payload ss good bad w).0.0
            + (deliver_all o env event payload ss good bad w).0.1
          ≡ good + bad + length ss)
        × ((deliver_all o env event payload ss good bad w).1.in_flight ≡ w.in_flight)
        × (length (deliver_all o env event payload ss good bad w).1.posts
            ≤ length w.posts + length ss * (o.max_retries - 1 + 1))
  unfolding deliver_all
  deliver_all_lem event payload [] good bad w = (omega arith, refl, omega arith)
  deliver_all_lem event payload (s ∷ ss) good bad w =
      let b = (deliver_to o env event payload s w).0 in
      let w' = (deliver_to o env event payload s w).1 in
      let (counts, flight, posts) =
        deliver_all_lem event payload ss (if b then good + 1 else good) (if b then bad else bad + 1)
          w' in
      (
        omega (arith, counts, add_one b good bad),
        flight ∙ in_flight_deliver event payload s w,
        grind (arith, posts, posts_deliver event payload s w),
      )

-- A dispatch counts every active subscriber of the event once, as a success or as a failure, leaves the
-- number of dispatches in flight as it was, and posts at most `maxRetries` times for each subscriber,
-- or once when `maxRetries` is 0.
pub dispatch_lem :
    (o : Options) (env : Surroundings) (event : EventType) (payload : Text) (w : World)
    → ((dispatch o env event payload w).0.0 + (dispatch o env event payload w).0.1
        ≡ length (get_subscribers event w.store))
      × ((dispatch o env event payload w).1.in_flight ≡ w.in_flight)
      × (length (dispatch o env event payload w).1.posts
          ≤ length w.posts + length (get_subscribers event w.store) * (o.max_retries - 1 + 1))
unfolding dispatch
dispatch_lem o env event payload w =
    let (counts, flight, posts) =
      deliver_all_lem o env event payload (get_subscribers event w.store) 0 0
        (record w { in_flight = w.in_flight + 1 }) in
    (omega (arith, counts), omega (arith, flight), posts)
