-- ===== src/Forward/Delivery.antt =====
-- modules/channel_forward/delivery.py, `DeliveryEngine`: what becomes of a post on a route. The
-- engine's state is that of the four stores. What Telegram answers to the sending is an argument, as
-- are the moments at which the processing begins and ends. Statistics, alerts, delays, pins and
-- buttons are left out.
pub mod Copy
pub mod Gates
pub mod Queued
pub mod Accounting
pub mod Capped
pub mod Repeats
pub mod Window
use telegram_auto.Prelude.{
  ℕ, zero, suc, ◌+◌, max, Bool, true, false, not, ◌&&◌, ◌||◌, Option, none, some, List, [], ◌∷◌,
  ◌++◌, map, Text, ltb, ◌==◌, nat_eq, text_eq, if◌then◌else◌, length, filter,
}
use telegram_auto.Forward.Quota.{
  QuotaFile, Result, ok, attribute_error, at_limit, try_consume, refund,
}
use telegram_auto.Forward.Queue.{Item, Publish, add}
use telegram_auto.Forward.State.{StateFile, set_last_seen, record_mapping}
use telegram_auto.Forward.Dedup.{Entry, is_duplicate, remember}
use telegram_auto.Forward.Schedule.{ScheduleConfig, is_open}
use telegram_auto.Forward.Filters.{
  TextFilterConfig, TextTools, Entity, find_blocked_word, matches_content_rules,
}
use telegram_auto.Forward.Media.{Content, MediaFilterConfig, media_allowed}

-- a message with the fingerprint of its content
pub record Message : Type 0 where
  pub id : ℕ
  pub text : Text
  pub entities : List Entity
  pub content : Content
  pub fingerprint : Text

-- the fields of `ResolvedRoute` that the engine reads
pub record Route : Type 0 where
  pub route_key : Text
  pub source_id : ℕ
  pub dest_id : ℕ
  -- `dest_quota_key` of the destination
  pub dest_key : Text
  pub mode : Text
  pub paused : Bool
  pub text_filter : TextFilterConfig
  -- the JSON text of the filter
  pub filter_cfg : Text
  pub media_filter : MediaFilterConfig
  pub dedup_enabled : Bool
  pub window_hours : ℕ
  pub schedule : ScheduleConfig
  pub media_prefix : Text
  pub media_suffix : Text

-- an instant, with the weekday, the time and the calendar day that it has in the route's time zone
pub record Moment : Type 0 where
  pub now : ℕ
  pub weekday : ℕ
  pub time : ℕ
  pub day : ℕ

pub record Engine : Type 0 where
  pub queue : List Item
  pub state : StateFile
  pub dedup : List Entry
  pub quota : QuotaFile

-- how `process_messages` ends: with a value, or with an exception
pub data Answer : Type 0 where
  returned : Bool → Answer
  flood_wait : Answer
  schedule_error : Answer
  quota_error : Answer

-- what Telegram answers: the ids of what was sent, a flood wait, or another exception and then, for
-- one message after the other, the ids of the fallback until one raises
pub data Attempt : Type 0 where
  sent : List ℕ → Attempt
  flooded : Attempt
  fell_back : List (Option ℕ) → Attempt

-- the arguments of a call that are not the state
pub record Call : Type 0 where
  pub route : Route
  pub from_queue : Bool
  pub dry_run : Bool
  pub begins : Moment
  pub ends : Moment
  pub new_id : Text
  pub attempt : Attempt

-- `max(m.id for m in messages)`
unfoldable pub max_of : ℕ → List ℕ → ℕ
max_of n [] = n
max_of n (k ∷ ks) = max_of (max n k) ks

abbrev pub ids_of : List Message → List ℕ
ids_of [] = []
ids_of (m ∷ ms) = m.id ∷ ids_of ms

-- the loop over `zip(messages, sent_ids)`
unfoldable pub record_sent : Text → List Message → List ℕ → StateFile → StateFile
unfolding record_mapping
record_sent key [] sent_ids f = f
record_sent key (m ∷ ms) [] f = f
record_sent key (m ∷ ms) (dst ∷ sent_ids) f =
    record_sent key ms sent_ids (record_mapping f key m.id dst)

-- `if dst_id: self.state.record_mapping(...)`
unfoldable pub record_forwarded : Text → ℕ → Option ℕ → StateFile → StateFile
unfolding record_mapping
record_forwarded key id none f = f
record_forwarded key id (some dst) f = if dst == 0 then f else record_mapping f key id dst

-- the loop of `_forward_fallback`: whether it came to its end
unfoldable pub forward_each : Text → List Message → List (Option ℕ) → StateFile → Bool × StateFile
unfolding record_forwarded
forward_each key [] answers f = (true, f)
forward_each key (m ∷ ms) [] f = (false, f)
forward_each key (m ∷ ms) (answer ∷ answers) f =
    forward_each key ms answers (record_forwarded key m.id answer f)

unfoldable pub forward_fallback :
    Text → Message → List Message → List (Option ℕ) → StateFile → Answer × StateFile
unfolding forward_each set_last_seen max_of
forward_fallback key first rest answers f =
    let (complete, g) = forward_each key (first ∷ rest) answers f in
    if complete
    then (returned true, set_last_seen g key (max_of first.id (ids_of rest)))
    else (returned false, g)

-- `_deliver`
unfoldable pub deliver : Text → Message → List Message → Attempt → StateFile → Answer × StateFile
unfolding record_sent set_last_seen max_of forward_fallback
deliver key first rest (sent sent_ids) f = (
  returned true,
  set_last_seen (record_sent key (first ∷ rest) sent_ids f) key (max_of first.id (ids_of rest)),
)
deliver key first rest flooded f = (flood_wait, f)
deliver key first rest (fell_back answers) f = forward_fallback key first rest answers f

abbrev pub is_delivered : Answer → Bool
is_delivered (returned b) = b
is_delivered flood_wait = false
is_delivered schedule_error = false
is_delivered quota_error = false

unfoldable pub daily_cap_reached : Route → ℕ → Engine → Result Bool
unfolding at_limit
daily_cap_reached r day e = at_limit e.quota r.dest_key r.schedule.max_posts_per_day day

unfoldable pub seen_ids : Text → List ℕ → StateFile → StateFile
unfolding set_last_seen max_of
seen_ids key [] f = f
seen_ids key (n ∷ ns) f = set_last_seen f key (max_of n ns)

unfoldable pub skip_daily_cap : Route → List Message → Engine → Engine
unfolding seen_ids
skip_daily_cap r ms e = record e {
  state = seen_ids r.route_key (filter (λ n. not (n == 0)) (ids_of ms)) e.state;
}

-- `if ok and route.dedup.enabled`
unfoldable pub remember_post : Call → Message → Answer → Engine → Engine
unfolding remember
remember_post c first answer e =
    if is_delivered answer && c.route.dedup_enabled
    then record e { dedup = remember c.route.route_key first.fingerprint c.ends.now e.dedup }
    else e

-- The delivery with a slot of the quota, which is given back in `finally` if nothing was delivered.
unfoldable pub deliver_counted :
    Call → Message → List Message → QuotaFile → Engine → Answer × Engine
unfolding remember_post
deliver_counted c first rest quota e =
    let (answer, f) = deliver c.route.route_key first rest c.attempt e.state in
    let kept = if is_delivered answer then quota else refund quota c.route.dest_key c.ends.day in
    (answer, remember_post c first answer (record e { state = f; quota = kept }))

unfoldable pub deliver_free : Call → Message → List Message → Engine → Answer × Engine
unfolding remember_post
deliver_free c first rest e =
    let (answer, f) = deliver c.route.route_key first rest c.attempt e.state in
    (answer, remember_post c first answer (record e { state = f }))

-- what follows the answer of `try_consume`
unfoldable pub deliver_consumed :
    Call → Message → List Message → Engine → Result (Bool × QuotaFile) → Answer × Engine
unfolding deliver_counted skip_daily_cap
deliver_consumed c first rest e attribute_error = (quota_error, e)
deliver_consumed c first rest e (ok (false, q)) =
    (returned false, skip_daily_cap c.route (first ∷ rest) e)
deliver_consumed c first rest e (ok (true, q)) = deliver_counted c first rest q e

-- from `consumed = False` on
unfoldable pub consume_and_deliver : Call → Message → List Message → Engine → Answer × Engine
unfolding deliver_free
consume_and_deliver c first rest e =
    let limit = c.route.schedule.max_posts_per_day in
    if limit == 0
    then deliver_free c first rest e
    else deliver_consumed c first rest e (try_consume e.quota c.route.dest_key limit c.begins.day)

-- what follows the answer of `daily_cap_reached`
unfoldable pub publish_capped :
    Call → Message → List Message → Engine → Result Bool → Answer × Engine
unfolding skip_daily_cap
publish_capped c first rest e attribute_error = (quota_error, e)
publish_capped c first rest e (ok true) = (returned false, skip_daily_cap c.route (first ∷ rest) e)
publish_capped c first rest e (ok false) =
    if c.dry_run then (returned true, e) else consume_and_deliver c first rest e

-- from the test of the daily cap on
unfoldable pub publish : Call → Message → List Message → Engine → Answer × Engine
publish c first rest e = publish_capped c first rest e (daily_cap_reached c.route c.begins.day e)

-- the keyword arguments of the call of `PublishQueue.add`
unfoldable pub publish_of : Route → List Message → Publish
publish_of r ms = record {
  route_key = r.route_key;
  source_id = r.source_id;
  dest_id = r.dest_id;
  message_ids = ids_of ms;
  mode = r.mode;
  filter_cfg = r.filter_cfg;
}

unfoldable pub enqueue : Call → List Message → Engine → Engine
unfolding publish_of add
enqueue c ms e = record e { queue = (add (publish_of c.route ms) c.new_id c.begins.now e.queue).1 }

-- what follows the answer of the schedule, `none` where its windows cannot be read
unfoldable pub at_window : Call → Message → List Message → Engine → Option Bool → Answer × Engine
unfolding enqueue publish
at_window c first rest e none = (schedule_error, e)
at_window c first rest e (some open_now) =
    if not open_now && not c.from_queue
    then (returned false, enqueue c (first ∷ rest) e)
    else publish c first rest e

-- from the test of the schedule on
unfoldable pub schedule : Call → Message → List Message → Engine → Answer × Engine
unfolding publish
schedule c first rest e =
    if not c.route.schedule.enabled
    then publish c first rest e
    else at_window c first rest e (is_open c.route.schedule c.begins.weekday c.begins.time)

abbrev is_none : Option Text → Bool
is_none none = true
is_none (some w) = false

-- the tests of the first message by the route's filters
unfoldable pub accepts : TextTools → Route → Message → Bool
accepts t r m =
    is_none (find_blocked_word t r.text_filter m.text)
    && matches_content_rules t r.text_filter m.text
    && media_allowed m.text m.content r.media_filter

unfoldable pub is_repeat : Call → Message → Engine → Bool
is_repeat c m e =
    c.route.dedup_enabled
    && is_duplicate c.route.route_key m.fingerprint c.route.window_hours c.begins.now e.dedup

-- `process_messages`
unfoldable pub process_messages : TextTools → Call → List Message → Engine → Answer × Engine
unfolding schedule
process_messages t c [] e = (returned false, e)
process_messages t c (first ∷ rest) e =
    if c.route.paused || not (accepts t c.route first) || is_repeat c first e
    then (returned false, e)
    else schedule c first rest e
