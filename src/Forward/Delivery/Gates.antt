-- ===== src/Forward/Delivery/Gates.antt =====
-- What must hold before a post is sent (modules/channel_forward/delivery.py).
use telegram_auto.Prelude.{
  ◌≡◌, refl, Bool, true, false, not, ◌&&◌, ◌||◌, Option, none, some, List, ◌∷◌, arith, nat_eq,
  text_eq, inl, inr, Bool-cases,
}
use telegram_auto.Forward.Quota.{Result, ok, attribute_error}
use telegram_auto.Forward.Schedule.{is_open}
use telegram_auto.Forward.Filters.{TextTools}
use telegram_auto.Forward.Delivery.{
  Message, Engine, Call, is_delivered, daily_cap_reached, publish_capped, publish, at_window,
  schedule, accepts, is_repeat, process_messages,
}

abbrev is_true : Option Bool → Bool
is_true none = false
is_true (some b) = b

-- The window of the route is open, or does not matter.
abbrev WindowAllows : Call → Type 0
WindowAllows c =
    not c.route.schedule.enabled
      || c.from_queue
      || is_true (is_open c.route.schedule c.begins.weekday c.begins.time)
    ≡ true

pub record Allowed (t : TextTools) (c : Call) (first : Message) (e : Engine) : Type 0 where
  pub running : c.route.paused ≡ false
  pub accepted : accepts t c.route first ≡ true
  pub unseen : is_repeat c first e ≡ false
  pub in_window : WindowAllows c
  pub below_cap : daily_cap_reached c.route c.begins.day e ≡ ok false

publish-below_cap :
    (c : Call) (first : Message) (rest : List Message) (e : Engine) (r : Result Bool)
    → is_delivered (publish_capped c first rest e r).0 ≡ true
    → r ≡ ok false
unfolding publish_capped
publish-below_cap c first rest e attribute_error d = cc
publish-below_cap c first rest e (ok true) d = cc
publish-below_cap c first rest e (ok false) d = refl

at_window-open :
    (c : Call) (first : Message) (rest : List Message) (e : Engine) (o : Option Bool)
    → is_delivered (at_window c first rest e o).0 ≡ true
    → (c.from_queue || is_true o ≡ true) × (daily_cap_reached c.route c.begins.day e ≡ ok false)
unfolding at_window publish
at_window-open c first rest e none = λ d. cc
at_window-open c first rest e (some open_now) =
    elim (Bool-cases (not open_now && not c.from_queue)) [
      | inl closed ↦ rw closed (λ d. cc)
      | inr free ↦
          rw (free, publish)
            (λ d. (
              ground (arith, free),
              publish-below_cap c first rest e (daily_cap_reached c.route c.begins.day e) d,
            ))
    ]

schedule-open :
    (c : Call) (first : Message) (rest : List Message) (e : Engine)
    → is_delivered (schedule c first rest e).0 ≡ true
    → WindowAllows c × (daily_cap_reached c.route c.begins.day e ≡ ok false)
unfolding schedule publish
schedule-open c first rest e = elim (Bool-cases c.route.schedule.enabled) [
  | inl timed ↦ simp timed (λ d.
      let (window, room) =
        at_window-open c first rest e (is_open c.route.schedule c.begins.weekday c.begins.time) d in
      (window, room))
  | inr free ↦
      simp free
        (λ d. (refl, publish-below_cap c first rest e (daily_cap_reached c.route c.begins.day e) d))
]

split_refused :
    (paused accepted repeat : Bool)
    → paused || not accepted || repeat ≡ false
    → (paused ≡ false) × (accepted ≡ true) × (repeat ≡ false)
split_refused true accepted repeat h = cc
split_refused false true repeat h = (refl, refl, h)
split_refused false false repeat h = cc

-- A post is delivered only if the route is not paused, its first message passes the filters of text
-- and media and is no repeat, its window is open, where it has a schedule and the post does not come
-- from the queue, and the daily cap is not reached.
pub process_messages-Allowed :
    (t : TextTools) (c : Call) (first : Message) (rest : List Message) (e : Engine)
    → is_delivered (process_messages t c (first ∷ rest) e).0 ≡ true
    → Allowed t c first e
unfolding process_messages
process_messages-Allowed t c first rest e =
    elim (Bool-cases (c.route.paused || not (accepts t c.route first) || is_repeat c first e)) [
      | inl refused ↦ rw refused (λ d. cc)
      | inr passed ↦ rw passed (λ d.
          let (running, accepted, unseen) =
            split_refused c.route.paused (accepts t c.route first) (is_repeat c first e) passed in
          let (window, room) = schedule-open c first rest e d in
          record {
            running = running;
            accepted = accepted;
            unseen = unseen;
            in_window = window;
            below_cap = room;
          })
    ]
