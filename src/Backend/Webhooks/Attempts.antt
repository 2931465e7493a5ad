-- ===== src/Backend/Webhooks/Attempts.antt =====
-- The attempts of `attemptDelivery` (`backend/src/webhooks/dispatcher.ts`): how many posts are made,
-- and what the store says of the delivery in the end.
use swift_remit.Prelude.{
  ℕ, zero, suc, ◌+◌, ◌-◌, ◌<◌, ◌≡◌, refl, sym, ◌∙◌, inl, inr, Bool, true, Option, none, some,
  length, length-append, arith, Option-cases,
}
use swift_remit.Prelude.Dict.{Text, text_eq}
use swift_remit.Backend.Webhooks.Store.{
  WebhookDeliveryRecord, DeliveryStatus, pending, success, failed,
}
use swift_remit.Backend.Webhooks.Dispatcher.{
  Options, Surroundings, World, failure, post, set_status, sleep, attempt_from, attempt_delivery,
  is_https, get_backoff_delay,
}
use swift_remit.Backend.Webhooks.Outcomes.{
  IsKnown, IsAt, IsDead, IsDelivery, sleep-IsKnown, plus_zero, update-dead, post-IsKnown,
  set_status-IsKnown, succeed, give_up,
}

module _ (o : Options) (env : Surroundings) where
  move_index :
      (i j : ℕ) (r : Option Text) → i ≡ j → failure (env.answer i) ≡ r → failure (env.answer j) ≡ r
  move_index i j r e h = rw (sym e) h

  IsAt-move :
      (id : Text) (status : DeliveryStatus) (i j : ℕ) (w : World)
      → i ≡ j
      → IsAt id status i w
      → IsAt id status j w
  IsAt-move id status i j w e h = rw (sym e) h

  IsDead-move :
      (letter id : Text) (i j : ℕ) (e : Text) (w : World)
      → i ≡ j
      → IsDead letter id i e w
      → IsDead letter id j e w
  IsDead-move letter id i j e w eq h = rw (sym eq) h

  -- The posts before and after a failed attempt are one sequence.
  one_more :
      (n t : ℕ) (e : Text)
      → failure (env.answer n) ≡ some e
      → ((i : ℕ) → i < t → (e : Text) × (failure (env.answer (n + 1 + i)) ≡ some e))
      → (i : ℕ) → i < suc t
      → (e : Text) × (failure (env.answer (n + i)) ≡ some e)
  one_more n t e h earlier zero lt = (e, rw plus_zero h)
  one_more n t e h earlier (suc i) lt =
      let (e', h') = earlier i (omega (arith, lt)) in
      (e', move_index (n + 1 + i) (n + suc i) (some e') (omega arith) h')

  -- A failed attempt with others left.
  again :
      (left : ℕ) (id : Text) (attempt : ℕ) (w after : World) (e : Text) (b : Bool) (new : World)
      → failure (env.answer (length w.posts)) ≡ some e
      → length after.posts ≡ length w.posts + 1
      → after.ids_drawn ≡ w.ids_drawn
      → after.store.dead_letters ≡ w.store.dead_letters
      → IsDelivery o env left id (attempt + 1) after b new
      → IsDelivery o env (suc left) id attempt w b new
  again left id attempt w after e b new h posts ids dead d = record {
    tries = suc d.tries;
    within = omega (arith, d.within);
    earlier = one_more (length w.posts) d.tries e h (rw posts at d.earlier);
    posted = omega (arith, d.posted, posts);
    outcome = elim d.outcome [
      | inl (last, ok_b, at, same) ↦ inl (
        move_index (length after.posts + d.tries) (length w.posts + suc d.tries) none
            (omega (arith, posts)) last,
        ok_b,
        IsAt-move id success (attempt + 1 + d.tries) (attempt + suc d.tries) new (omega arith) at,
        same ∙ dead,
      )
      | inr (e', last, all, bad_b, at, letter) ↦ inr (
        e',
        move_index (length after.posts + d.tries) (length w.posts + suc d.tries) (some e')
            (omega (arith, posts)) last,
        omega (arith, all),
        bad_b,
        IsAt-move id failed (attempt + 1 + left) (attempt + suc left) new (omega arith) at,
        IsDead-move (env.fresh_id w.ids_drawn) id (attempt + 1 + left) (attempt + suc left) e' new
            (omega arith) (rw (sym ids) letter),
      )
    ];
  }

  -- The state before the next attempt.
  abbrev waited : Text → Text → Text → Text → ℕ → Text → World → World
  waited id url secret payload attempt e w =
      sleep o env (get_backoff_delay o attempt)
        (set_status o env id pending attempt (some e) (post o env url secret payload w))

  module _ (id url secret payload : Text) (attempt : ℕ) (e : Text) (w : World) where
    waited-posts : length (waited id url secret payload attempt e w).posts ≡ length w.posts + 1
    unfolding sleep set_status post
    waited-posts = rw length-append (omega arith)

    waited-ids : (waited id url secret payload attempt e w).ids_drawn ≡ w.ids_drawn
    unfolding sleep set_status post
    waited-ids = refl

    waited-dead :
        (waited id url secret payload attempt e w).store.dead_letters ≡ w.store.dead_letters
    unfolding sleep set_status post
    waited-dead = update-dead o env id pending attempt (some e) _ w.store

    waited-IsKnown : IsKnown id w → IsKnown id (waited id url secret payload attempt e w)
    waited-IsKnown known = sleep-IsKnown o env id (get_backoff_delay o attempt) _ (
        set_status-IsKnown o env id pending attempt (some e) (post o env url secret payload w)
          (post-IsKnown o env id url secret payload w known))

  attempt_from_lem :
      (left : ℕ) (id url secret payload : Text) (attempt : ℕ) (d : WebhookDeliveryRecord)
      (w : World)
      → IsKnown id w
      → IsDelivery o env left id attempt w
          (attempt_from o env left id url secret payload attempt d w).0
          (attempt_from o env left id url secret payload attempt d w).1
  unfolding attempt_from
  attempt_from_lem zero id url secret payload attempt d w known =
      elim (Option-cases (failure (env.answer (length w.posts)))) [
        | inl good ↦
            rw (good, attempt_from) (succeed o env zero id url secret payload attempt w known good)
        | inr (e, bad) ↦
            rw (bad, attempt_from) (give_up o env id url secret payload attempt d w e known bad)
      ]
  attempt_from_lem (suc left) id url secret payload attempt d w known =
      elim (Option-cases (failure (env.answer (length w.posts)))) [
        | inl good ↦
            rw (good, attempt_from)
              (succeed o env (suc left) id url secret payload attempt w known good)
        | inr (e, bad) ↦
            rw (bad, attempt_from)
              (again left id attempt w
                (sleep o env (get_backoff_delay o attempt)
                  (set_status o env id pending attempt (some e) (post o env url secret payload w)))
                e _ _ bad (waited-posts id url secret payload attempt e w)
                (waited-ids id url secret payload attempt e w)
                (waited-dead id url secret payload attempt e w)
                (attempt_from_lem left id url secret payload (attempt + 1) d _
                  (waited-IsKnown id url secret payload attempt e w known)))
      ]

attempt_delivery_https :
    (o : Options) (env : Surroundings) (id url secret payload : Text) (attempt : ℕ)
    (d : WebhookDeliveryRecord) (w : World)
    → is_https url ≡ true
    → attempt_delivery o env id url secret payload attempt d w
      ≡ attempt_from o env (o.max_retries - attempt) id url secret payload attempt d w
unfolding attempt_delivery
attempt_delivery_https o env id url secret payload attempt d w h = rw h refl

-- An attempt on an `https` URL for a delivery that the store knows always ends. Some post was the
-- last, at most `maxRetries - attempt` after the first, and all before it failed. Either it was
-- answered with a status from 200 to 299, and the delivery is marked as a success with the number of
-- that attempt and no dead letter is written, or it failed too, no attempt was left, and the delivery
-- is marked as failed and has a dead letter with the last error.
pub attempt_delivery_lem :
    (o : Options) (env : Surroundings) (id url secret payload : Text) (attempt : ℕ)
    (d : WebhookDeliveryRecord) (w : World)
    → is_https url ≡ true
    → IsKnown id w
    → IsDelivery o env
        (o.max_retries - attempt)
        id
        attempt
        w
        (attempt_delivery o env id url secret payload attempt d w).0
        (attempt_delivery o env id url secret payload attempt d w).1
attempt_delivery_lem o env id url secret payload attempt d w https known =
    rw (attempt_delivery_https o env id url secret payload attempt d w https)
      (attempt_from_lem o env (o.max_retries - attempt) id url secret payload attempt d w known)
