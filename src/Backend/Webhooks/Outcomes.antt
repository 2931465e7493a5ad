-- ===== src/Backend/Webhooks/Outcomes.antt =====
-- How a delivery of `attemptDelivery` (`backend/src/webhooks/dispatcher.ts`) can end: the posts that
-- were made, and what the store says of it.
use swift_remit.Prelude.{
  ℕ, zero, ◌+◌, ◌≤◌, ◌<◌, ◌≡◌, refl, ◌⊎◌, inl, inr, Bool, true, false, Option, none, some, length,
  length-append, arith, Option-cases,
}
use swift_remit.Prelude.Dict.{Text, text_eq, lookup, lookup-insert_self}
use swift_remit.Backend.Webhooks.Store.{
  WebhookDeliveryRecord, DeliveryStatus, success, failed, DeadLetterRecord, WebhookStore, or_else,
  update_delivery_status, send_to_dead_letter,
}
use swift_remit.Backend.Webhooks.Dispatcher.{
  Options, Surroundings, World, now, failure, post, set_status, sleep, dead_letter,
}

-- The delivery is in the store.
unfoldable pub IsKnown : Text → World → Type 0
IsKnown id w = (r : WebhookDeliveryRecord) × (lookup id w.store.deliveries ≡ some r)

-- The store says of the delivery that it has this status after so many attempts.
pub IsAt : Text → DeliveryStatus → ℕ → World → Type 0
IsAt id status attempt w =
    (r : WebhookDeliveryRecord) × (lookup id w.store.deliveries ≡ some r)
    × (r.status ≡ status)
    × (r.attempt ≡ attempt)

-- A dead letter of the delivery is in the store.
pub IsDead : Text → Text → ℕ → Text → World → Type 0
IsDead letter id attempt e w =
    (r : DeadLetterRecord) × (lookup letter w.store.dead_letters ≡ some r)
    × (r.delivery_id ≡ some id)
    × (r.attempts ≡ attempt)
    × (r.last_error ≡ some e)

pub plus_zero : (n : ℕ) → n + 0 ≡ n
plus_zero n = omega arith

module _ (o : Options) (env : Surroundings) where
  -- Some post was the last, all before it failed. Either it succeeded, or no attempt was left.
  pub record IsDelivery (left : ℕ) (id : Text) (attempt : ℕ) (w : World) (b : Bool) (new : World)
      : Type 0 where
    pub tries : ℕ
    pub within : tries ≤ left
    pub earlier :
        (i : ℕ) → i < tries → (e : Text) × (failure (env.answer (length w.posts + i)) ≡ some e)
    pub posted : length new.posts ≡ length w.posts + tries + 1
    pub outcome :
        ((failure (env.answer (length w.posts + tries)) ≡ none)
          × (b ≡ true)
          × IsAt id success (attempt + tries) new
          × (new.store.dead_letters ≡ w.store.dead_letters))
        ⊎ ((e : Text) × (failure (env.answer (length w.posts + tries)) ≡ some e)
            × (tries ≡ left)
            × (b ≡ false)
            × IsAt id failed (attempt + left) new
            × IsDead (env.fresh_id w.ids_drawn) id (attempt + left) e new)

  pub update-dead :
      (id : Text) (status : DeliveryStatus) (attempt : ℕ) (e : Option Text) (now : ℕ)
      (s : WebhookStore)
      → (update_delivery_status id status attempt e now s).dead_letters ≡ s.dead_letters
  unfolding update_delivery_status
  update-dead id status attempt e now s = elim (Option-cases (lookup id s.deliveries)) [
    | inl absent ↦ rw (absent, update_delivery_status) refl
    | inr (r, found) ↦ rw (found, update_delivery_status) refl
  ]

  set_status-IsAt :
      (id : Text) (status : DeliveryStatus) (attempt : ℕ) (e : Option Text) (w : World)
      → IsKnown id w
      → IsAt id status attempt (set_status o env id status attempt e w)
  unfolding IsKnown IsAt set_status update_delivery_status
  set_status-IsAt id status attempt e w (r, found) =
      let new : WebhookDeliveryRecord = record r {
        status = status;
        attempt = attempt;
        last_error = or_else e r.last_error;
        updated_at = some (now o env w);
      } in
      (
        new,
        rw (found, update_delivery_status) (lookup-insert_self id new w.store.deliveries),
        refl,
        refl,
      )

  pub post-IsKnown :
      (id url secret payload : Text) (w : World)
      → IsKnown id w
      → IsKnown id (post o env url secret payload w)
  unfolding IsKnown post
  post-IsKnown id url secret payload w h = h

  pub set_status-IsKnown :
      (id : Text) (status : DeliveryStatus) (attempt : ℕ) (e : Option Text) (w : World)
      → IsKnown id w
      → IsKnown id (set_status o env id status attempt e w)
  unfolding IsKnown IsAt
  set_status-IsKnown id status attempt e w known =
      let (r, found, _, _) = set_status-IsAt id status attempt e w known in (r, found)

  pub sleep-IsKnown : (id : Text) (n : ℕ) (w : World) → IsKnown id w → IsKnown id (sleep o env n w)
  unfolding IsKnown sleep
  sleep-IsKnown id n w h = h

  -- The last attempt succeeds.
  pub succeed :
      (left : ℕ) (id url secret payload : Text) (attempt : ℕ) (w : World)
      → IsKnown id w
      → failure (env.answer (length w.posts)) ≡ none
      → IsDelivery left id attempt w true
          (set_status o env id success attempt none (post o env url secret payload w))
  unfolding set_status post
  succeed left id url secret payload attempt w known h = record {
    tries = 0;
    within = omega arith;
    earlier = λ i lt. absurd (omega arith);
    posted = rw length-append (omega arith);
    outcome = inl (
      rw plus_zero h,
      refl,
      rw plus_zero (
          set_status-IsAt id success attempt none (post o env url secret payload w)
            (post-IsKnown id url secret payload w known)),
      update-dead id success attempt none _ w.store,
    );
  }

  letter-IsAt :
      (id : Text) (status : DeliveryStatus) (attempt : ℕ) (d : WebhookDeliveryRecord) (n : ℕ)
      (e : Text) (w : World)
      → IsAt id status attempt w
      → IsAt id status attempt (dead_letter o env id d n e w)
  unfolding IsAt dead_letter send_to_dead_letter
  letter-IsAt id status attempt d n e w h = h

  letter-IsDead :
      (id : Text) (d : WebhookDeliveryRecord) (attempt : ℕ) (e : Text) (w : World)
      → IsDead (env.fresh_id w.ids_drawn) id attempt e (dead_letter o env id d attempt e w)
  unfolding IsDead dead_letter send_to_dead_letter
  letter-IsDead id d attempt e w =
      (_, lookup-insert_self (env.fresh_id w.ids_drawn) _ w.store.dead_letters, refl, refl, refl)

  -- The last attempt fails.
  pub give_up :
      (id url secret payload : Text) (attempt : ℕ) (d : WebhookDeliveryRecord) (w : World)
      (e : Text)
      → IsKnown id w
      → failure (env.answer (length w.posts)) ≡ some e
      → IsDelivery zero id attempt w false (
          dead_letter o env id d attempt e
            (set_status o env id failed attempt (some e) (post o env url secret payload w)))
  unfolding set_status post dead_letter
  give_up id url secret payload attempt d w e known h = record {
    tries = 0;
    within = omega arith;
    earlier = λ i lt. absurd (omega arith);
    posted = rw length-append (omega arith);
    outcome = inr (
      e,
      rw plus_zero h,
      refl,
      refl,
      rw plus_zero (
          letter-IsAt id failed attempt d attempt e _ (
            set_status-IsAt id failed attempt (some e) (post o env url secret payload w)
              (post-IsKnown id url secret payload w known))),
      rw plus_zero (
          letter-IsDead id d attempt e
            (set_status o env id failed attempt (some e) (post o env url secret payload w))),
    );
  }
