-- ===== src/Forward/Delivery/Queued.antt =====
-- The publish queue while a post that comes from it is processed
-- (modules/channel_forward/delivery.py).
use telegram_auto.Prelude.{
  ◌≡◌, refl, Bool, true, false, not, ◌&&◌, ◌||◌, Option, none, some, List, ◌∷◌, arith, ◌==◌, nat_eq,
  text_eq, if◌then◌else◌, inl, inr, Bool-cases,
}
use telegram_auto.Forward.Quota.{QuotaFile, Result, ok, attribute_error, try_consume, refund}
use telegram_auto.Forward.Schedule.{is_open}
use telegram_auto.Forward.Filters.{TextTools}
use telegram_auto.Forward.Delivery.{
  Message, Engine, Answer, returned, Call, deliver, is_delivered, daily_cap_reached, skip_daily_cap,
  remember_post, deliver_counted, deliver_free, deliver_consumed, consume_and_deliver,
  publish_capped, publish, at_window, schedule, accepts, is_repeat, process_messages,
}

module _ (c : Call) (first : Message) (rest : List Message) (e : Engine) where
  abbrev Keeps : Answer × Engine → Type 0
  Keeps r = r.1.queue ≡ e.queue

  queue-remember_post : (a : Answer) (e' : Engine) → (remember_post c first a e').queue ≡ e'.queue
  unfolding remember_post
  queue-remember_post a e' = ground arith

  deliver_counted-Keeps : (q : QuotaFile) → Keeps (deliver_counted c first rest q e)
  unfolding deliver_counted
  deliver_counted-Keeps q =
      let (answer, f) = deliver c.route.route_key first rest c.attempt e.state in
      queue-remember_post answer (record e {
        state = f;
        quota = if is_delivered answer then q else refund q c.route.dest_key c.ends.day;
      })

  deliver_free-Keeps : Keeps (deliver_free c first rest e)
  unfolding deliver_free
  deliver_free-Keeps =
      let (answer, f) = deliver c.route.route_key first rest c.attempt e.state in
      queue-remember_post answer (record e { state = f })

  deliver_consumed-Keeps :
      (r : Result (Bool × QuotaFile)) → Keeps (deliver_consumed c first rest e r)
  unfolding deliver_consumed skip_daily_cap
  deliver_consumed-Keeps attribute_error = refl
  deliver_consumed-Keeps (ok (false, q)) = refl
  deliver_consumed-Keeps (ok (true, q)) = deliver_counted-Keeps q

  consume_and_deliver-Keeps : Keeps (consume_and_deliver c first rest e)
  unfolding consume_and_deliver
  consume_and_deliver-Keeps =
      let limit = c.route.schedule.max_posts_per_day in
      elim (Bool-cases (limit == 0)) [
        | inl free ↦ rw free deliver_free-Keeps
        | inr capped ↦
            rw capped
              (deliver_consumed-Keeps (try_consume e.quota c.route.dest_key limit c.begins.day))
      ]

  publish_capped-Keeps : (r : Result Bool) → Keeps (publish_capped c first rest e r)
  unfolding publish_capped skip_daily_cap
  publish_capped-Keeps attribute_error = refl
  publish_capped-Keeps (ok true) = refl
  publish_capped-Keeps (ok false) =
      elim c.dry_run
        as (λ b. Keeps (if b then (returned true, e) else consume_and_deliver c first rest e)) [
          | true ↦ refl
          | false ↦ consume_and_deliver-Keeps
        ]

  publish-Keeps : Keeps (publish c first rest e)
  unfolding publish
  publish-Keeps = publish_capped-Keeps (daily_cap_reached c.route c.begins.day e)

  module _ (queued : c.from_queue ≡ true) where
    at_window-Keeps : (o : Option Bool) → Keeps (at_window c first rest e o)
    unfolding at_window
    at_window-Keeps none = refl
    at_window-Keeps (some open_now) =
        let past : not open_now && not c.from_queue ≡ false = ground (arith, queued) in
        rw past publish-Keeps

    -- The processing of a post that comes from the queue leaves the queue as it is.
    pub process_messages-Keeps : (t : TextTools) → Keeps (process_messages t c (first ∷ rest) e)
    unfolding process_messages schedule
    process_messages-Keeps t =
        elim (Bool-cases (c.route.paused || not (accepts t c.route first) || is_repeat c first e)) [
          | inl refused ↦ rw refused refl
          | inr passed ↦ elim (Bool-cases (not c.route.schedule.enabled)) [
            | inl free ↦ rw (passed, free) publish-Keeps
            | inr timed ↦
                rw (passed, timed)
                  (at_window-Keeps (is_open c.route.schedule c.begins.weekday c.begins.time))
          ]
        ]
