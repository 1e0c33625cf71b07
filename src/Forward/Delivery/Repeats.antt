-- ===== src/Forward/Delivery/Repeats.antt =====
-- What a delivered post leaves behind, and the refusal of a repeated one
-- (modules/channel_forward/delivery.py).
use telegram_auto.Prelude.{
  ℕ, ◌≤◌, ◌≡◌, refl, ap, Bool, true, false, not, ◌&&◌, ◌||◌, Option, none, some, List, ◌∷◌, Text,
  arith, ◌==◌, nat_eq, text_eq, if◌then◌else◌, inl, inr, Bool-cases,
}
use telegram_auto.Forward.Quota.{QuotaFile, Result, ok, attribute_error, refund, try_consume}
use telegram_auto.Forward.State.{
  StateFile, get_last_seen, set_last_seen, latest, get_last_seen-set_last_seen,
}
use telegram_auto.Forward.Dedup.{remember}
use telegram_auto.Forward.Schedule.{is_open}
use telegram_auto.Forward.Filters.{TextTools}
use telegram_auto.Forward.Delivery.{
  Message, Engine, Answer, returned, schedule_error, quota_error, Attempt, sent, flooded, fell_back,
  Call, max_of, ids_of, record_sent, forward_each, forward_fallback, deliver, is_delivered,
  daily_cap_reached, skip_daily_cap, remember_post, deliver_counted, deliver_free, deliver_consumed,
  consume_and_deliver, publish_capped, publish, enqueue, at_window, schedule, accepts, is_repeat,
  process_messages,
}

-- A message up to the id was seen on the route.
abbrev pub SeenUpTo : Text → ℕ → StateFile → Type 0
SeenUpTo key id f = (n : ℕ) × (get_last_seen f key ≡ some n) × (id ≤ n)

le-latest : (id : ℕ) (prev : Option ℕ) → id ≤ latest id prev
le-latest id none = omega arith
le-latest id (some p) = ground arith

set_last_seen-SeenUpTo :
    (f : StateFile) (key : Text) (id : ℕ) → SeenUpTo key id (set_last_seen f key id)
set_last_seen-SeenUpTo f key id = (
  latest id (get_last_seen f key),
  (get_last_seen-set_last_seen f key key id).0,
  le-latest id (get_last_seen f key),
)

deliver-SeenUpTo :
    (key : Text) (first : Message) (rest : List Message) (a : Attempt) (f : StateFile)
    → is_delivered (deliver key first rest a f).0 ≡ true
    → SeenUpTo key (max_of first.id (ids_of rest)) (deliver key first rest a f).1
unfolding deliver forward_fallback
deliver-SeenUpTo key first rest (sent ids) f d =
    set_last_seen-SeenUpTo (record_sent key (first ∷ rest) ids f) key
      (max_of first.id (ids_of rest))
deliver-SeenUpTo key first rest flooded f d = cc
deliver-SeenUpTo key first rest (fell_back answers) f d =
    let g = (forward_each key (first ∷ rest) answers f).1 in
    elim (Bool-cases (forward_each key (first ∷ rest) answers f).0) [
      | inl complete ↦
          rw (complete, forward_fallback)
            (set_last_seen-SeenUpTo g key (max_of first.id (ids_of rest)))
      | inr broken ↦ cc
    ]

module _ (c : Call) (first : Message) (rest : List Message) where
  abbrev key : Text
  key = c.route.route_key

  -- What holds of an engine after a delivery: the fingerprint is remembered where duplicates are
  -- looked for, the queue is as before, and the messages are seen.
  pub record Recorded (e after : Engine) : Type 0 where
    pub remembered : after.dedup ≡ (
        if c.route.dedup_enabled
        then remember key first.fingerprint c.ends.now e.dedup
        else e.dedup)
    pub same_queue : after.queue ≡ e.queue
    pub seen : SeenUpTo key (max_of first.id (ids_of rest)) after.state

  abbrev Records : Engine → Answer × Engine → Type 0
  Records e r = is_delivered r.0 ≡ true → Recorded e r.1

  undelivered-Records :
      (e after : Engine) (a : Answer) → is_delivered a ≡ false → Records e (a, after)
  undelivered-Records e after a n = λ d. cc

  remember_post-Recorded :
      (a : Answer) (e e' : Engine)
      → is_delivered a ≡ true
      → e'.dedup ≡ e.dedup
      → e'.queue ≡ e.queue
      → SeenUpTo key (max_of first.id (ids_of rest)) e'.state
      → Recorded e (remember_post c first a e')
  unfolding remember_post
  remember_post-Recorded a e e' d same queue s = elim (Bool-cases c.route.dedup_enabled) [
    | inl on ↦
        rw (d, on)
          (record {
            remembered = ap (remember key first.fingerprint c.ends.now) same;
            same_queue = queue;
            seen = s;
          })
    | inr off ↦ rw (d, off) (record { remembered = same; same_queue = queue; seen = s })
  ]

  deliver_counted-Records :
      (q : QuotaFile) (e : Engine) → Records e (deliver_counted c first rest q e)
  unfolding deliver_counted
  deliver_counted-Records q e d =
      let (answer, f) = deliver key first rest c.attempt e.state in
      remember_post-Recorded answer e
        (record e {
          state = f;
          quota = if is_delivered answer then q else refund q c.route.dest_key c.ends.day;
        })
        d refl refl (deliver-SeenUpTo key first rest c.attempt e.state d)

  deliver_free-Records : (e : Engine) → Records e (deliver_free c first rest e)
  unfolding deliver_free
  deliver_free-Records e d =
      let (answer, f) = deliver key first rest c.attempt e.state in
      remember_post-Recorded answer e (record e { state = f }) d refl refl
        (deliver-SeenUpTo key first rest c.attempt e.state d)

  deliver_consumed-Records :
      (e : Engine) (r : Result (Bool × QuotaFile)) → Records e (deliver_consumed c first rest e r)
  unfolding deliver_consumed
  deliver_consumed-Records e attribute_error = undelivered-Records e e quota_error refl
  deliver_consumed-Records e (ok (false, q)) =
      undelivered-Records e (skip_daily_cap c.route (first ∷ rest) e) (returned false) refl
  deliver_consumed-Records e (ok (true, q)) = deliver_counted-Records q e

  module _ (e : Engine) (wet : c.dry_run ≡ false) where
    consume_and_deliver-Records : Records e (consume_and_deliver c first rest e)
    unfolding consume_and_deliver
    consume_and_deliver-Records =
        let limit = c.route.schedule.max_posts_per_day in
        elim (Bool-cases (limit == 0)) [
          | inl free ↦ rw free (deliver_free-Records e)
          | inr capped ↦
              rw capped (
                deliver_consumed-Records e
                  (try_consume e.quota c.route.dest_key limit c.begins.day))
        ]

    publish_capped-Records : (r : Result Bool) → Records e (publish_capped c first rest e r)
    unfolding publish_capped
    publish_capped-Records attribute_error = undelivered-Records e e quota_error refl
    publish_capped-Records (ok true) =
        undelivered-Records e (skip_daily_cap c.route (first ∷ rest) e) (returned false) refl
    publish_capped-Records (ok false) = simp wet consume_and_deliver-Records

    publish-Records : Records e (publish c first rest e)
    unfolding publish
    publish-Records = publish_capped-Records (daily_cap_reached c.route c.begins.day e)

    at_window-Records : (o : Option Bool) → Records e (at_window c first rest e o)
    unfolding at_window
    at_window-Records none = undelivered-Records e e schedule_error refl
    at_window-Records (some open_now) = elim (Bool-cases (not open_now && not c.from_queue)) [
      | inl closed ↦
          rw closed (undelivered-Records e (enqueue c (first ∷ rest) e) (returned false) refl)
      | inr free ↦ rw free publish-Records
    ]

    schedule-Records : Records e (schedule c first rest e)
    unfolding schedule
    schedule-Records = elim (Bool-cases (not c.route.schedule.enabled)) [
      | inl free ↦ rw free publish-Records
      | inr timed ↦
          rw timed (at_window-Records (is_open c.route.schedule c.begins.weekday c.begins.time))
    ]

    -- What a delivery that is no dry run leaves, whichever way it came about: the fingerprint of the
    -- first message among the remembered ones where the route looks for duplicates, the queue as
    -- before, and every message of the post seen on the route.
    pub process_messages-Recorded :
        (t : TextTools)
        → is_delivered (process_messages t c (first ∷ rest) e).0 ≡ true
        → Recorded e (process_messages t c (first ∷ rest) e).1
    unfolding process_messages
    process_messages-Recorded t =
        elim (Bool-cases (c.route.paused || not (accepts t c.route first) || is_repeat c first e)) [
          | inl refused ↦ rw refused (undelivered-Records e e (returned false) refl)
          | inr passed ↦ rw passed schedule-Records
        ]

pub refuses-repeat :
    (t : TextTools) (c : Call) (first : Message) (rest : List Message) (e : Engine)
    → is_repeat c first e ≡ true
    → process_messages t c (first ∷ rest) e ≡ (returned false, e)
unfolding process_messages
refuses-repeat t c first rest e h =
    elim (Bool-cases (c.route.paused || not (accepts t c.route first) || is_repeat c first e)) [
      | inl refused ↦ rw refused refl
      | inr passed ↦ ground (arith, h, passed)
    ]
