-- ===== src/Tests/Delivering.antt =====
-- The delivery of a post on a route with a schedule, a cap and a window for duplicates.
use telegram_auto.Prelude.{
  List, ◌+◌, ◌≤◌, max, ℕ, ◌≡◌, refl, true, false, not, ◌&&◌, ◌||◌, some, [], ◌∷◌, codes, arith,
  nat_eq, text_eq, any, find?, filter, contains, Text, last_n,
}
use telegram_auto.Prelude.Dict
use telegram_auto.Prelude.Strip.{strip, is_empty, lstrip, is_space}
use telegram_auto.Prelude.Search.{starts_with, occurs_in, rstrip}
use telegram_auto.Prelude.Parse.{lower}
use telegram_auto.Forward.Quota.{
  at_limit, write_count, refund, num, days, ok, reload, count, try_consume,
}
use telegram_auto.Forward.Quota.Pruning.{IsCurrent}
use telegram_auto.Forward.Queue.{Item, is_waiting, add, pending, is_status, new_item, list_pending}
use telegram_auto.Forward.State.{bucket}
use telegram_auto.Forward.Dedup.{window, is_match, is_duplicate}
use telegram_auto.Forward.Schedule.{ScheduleConfig, is_open, within}
use telegram_auto.Forward.Filters.{
  TextFilterConfig, TextTools, url, is_active, apply_text_filter, strip_entities, cut_entity,
  cut_entities, last_first, insert_last_first, should_drop_entity, find_blocked_word, first_word_in,
  matches_content_rules, matches_regex, has_allowed_word,
}
use telegram_auto.Forward.Media.{media, photo, no_media, MediaFilterConfig, media_allowed}
use telegram_auto.Forward.Delivery.{
  skip_daily_cap, Message, Route, Moment, Engine, returned, sent, fell_back, Call, is_delivered,
  process_messages, schedule, publish, publish_capped, consume_and_deliver, deliver_consumed,
  deliver_counted, deliver, daily_cap_reached, accepts, is_repeat, publish_of,
}
use telegram_auto.Forward.Delivery.Accounting.{Counts, process_messages-Counts}
use telegram_auto.Forward.Delivery.Capped.{deliveries, IsFor, deliveries-Capped}
use telegram_auto.Forward.Queue.Ids.{IsValid}
use telegram_auto.Forward.Queue.Steps.{added, start, next, Reach-IsValid}
use telegram_auto.Prelude.Filters.{count as count_passing}
use telegram_auto.Forward.Flush.{processed, flush_item}
use telegram_auto.Forward.Flush.Pass.{
  Lookup, fetched, finding_of, pass_item, pass_items, closed_in, list_pending-pass_items,
}
use telegram_auto.Forward.Delivery.Repeats.{Recorded, process_messages-Recorded}
use telegram_auto.Forward.Delivery.Window.{process_messages-again}
use telegram_auto.Forward.Delivery.Gates.{Allowed, process_messages-Allowed}
use telegram_auto.Forward.Delivery.Copy.{
  request, WithinLimits, request-WithinLimits, sent_text, raw_text, use_filter, caption_source,
}

program : Unit {0}
unfolding last_n Dict.lookup reload count try_consume add find? is_waiting is_duplicate within
    bucket window is_match any filter text_eq nat_eq contains strip is_empty lower lstrip is_space
    process_messages schedule publish publish_capped consume_and_deliver deliver_consumed
    deliver_counted deliver daily_cap_reached accepts is_repeat find_blocked_word first_word_in
    matches_content_rules matches_regex has_allowed_word media_allowed is_open starts_with occurs_in
    rstrip
program = tt

abbrev same : Text → Text
same t = t

abbrev pub tools : TextTools
tools = record {
  casefold = same;
  search = λ pattern text. some (occurs_in pattern text);
  sub_links = same;
  sub_mentions = same;
  sub_hashtags = same;
  sub_ids = same;
  sub_spaces = same;
  sub_newlines = same;
  splitlines = λ t. t ∷ [];
  add_surrogate = same;
  del_surrogate = same;
}

abbrev text_filter : TextFilterConfig
text_filter = record {
  enabled = true;
  remove_links = false;
  remove_mentions = false;
  remove_hashtags = false;
  remove_ids = false;
  prefix = [];
  suffix = codes "via us";
  collapse_whitespace = false;
  block_enabled = true;
  block_words = codes "spam" ∷ [];
  allow_enabled = false;
  allow_words = [];
  regex_enabled = false;
  regex_pattern = [];
  regex_must_match = true;
  link_replacements = [];
}

abbrev media_filter : MediaFilterConfig
media_filter = record { enabled = true; allow = []; deny = codes "photo" ∷ [] }

-- on Mondays, at no time
abbrev closed : ScheduleConfig
closed = record { enabled = true; days = 0 ∷ []; windows = []; max_posts_per_day = 2 }

abbrev pub unscheduled : ScheduleConfig
unscheduled = record closed { enabled = false }

abbrev pub route_with : ScheduleConfig → Route
route_with s = record {
  route_key = codes "@a->@b";
  source_id = 1;
  dest_id = 2;
  dest_key = codes "@b";
  mode = codes "copy";
  paused = false;
  text_filter = text_filter;
  filter_cfg = codes "on";
  media_filter = media_filter;
  dedup_enabled = true;
  window_hours = 24;
  schedule = s;
  media_prefix = [];
  media_suffix = [];
}

abbrev moment : ℕ → Moment
moment t = record { now = t; weekday = 0; time = 0; day = 738001 }

abbrev pub call : ScheduleConfig → ℕ → Call
call s t = record {
  route = route_with s;
  from_queue = false;
  dry_run = false;
  begins = moment t;
  ends = moment t;
  new_id = codes "q1";
  attempt = sent (70 ∷ []);
}

abbrev pub post : Message
post = record {
  id = 7;
  text = codes "news";
  entities = [];
  content = no_media;
  fingerprint = codes "f00d";
}

abbrev same_post : Message
same_post = record post { id = 8 }

-- one post on the day of the moments
abbrev pub engine : Engine
engine = record {
  queue = [];
  state = record { last_seen = []; mappings = [] };
  dedup = [];
  quota = record { dests = some ((codes "@b", days ((738001, num 1) ∷ [])) ∷ []) };
}

engine-IsCurrent : IsCurrent 738001 (Dict.lookup (codes "@b") (reload engine.quota))
unfolding program
engine-IsCurrent = ((refl, tt), (omega arith, tt))

count-engine : count engine.quota (codes "@b") 738001 ≡ ok 1
unfolding program
count-engine = refl

delivered : is_delivered (process_messages tools (call unscheduled 5) (post ∷ []) engine).0 ≡ true
unfolding program
delivered = refl

process_messages-Counts_example :
    Counts (call unscheduled 5) 1 (process_messages tools (call unscheduled 5) (post ∷ []) engine)
process_messages-Counts_example =
    process_messages-Counts (call unscheduled 5) 1 refl tools (post ∷ []) engine (omega arith) refl
      engine-IsCurrent count-engine

process_messages-Recorded_example :
    Recorded
      (call unscheduled 5)
      post
      []
      engine
      (process_messages tools (call unscheduled 5) (post ∷ []) engine).1
process_messages-Recorded_example =
    process_messages-Recorded (call unscheduled 5) post [] engine refl tools delivered

process_messages-again_example :
    let one = (process_messages tools (call unscheduled 5) (post ∷ []) engine).1 in
    let after = (deliveries tools ((call unscheduled 7, same_post ∷ []) ∷ []) one).1 in
    process_messages tools (call unscheduled 9) (same_post ∷ []) after ≡ (returned false, after)
unfolding window
process_messages-again_example =
    process_messages-again tools (call unscheduled 5) (call unscheduled 9) post same_post [] []
      ((call unscheduled 7, same_post ∷ []) ∷ []) engine refl refl delivered (omega arith) refl refl
      (omega arith)

process_messages-Allowed_example : Allowed tools (call unscheduled 5) post engine
process_messages-Allowed_example =
    process_messages-Allowed tools (call unscheduled 5) post [] engine delivered

passes :
    (route_with closed).paused
      || not (accepts tools (route_with closed) post)
      || is_repeat (call closed 5) post engine
    ≡ false
unfolding program
passes = refl

is_open-closed : is_open closed 0 0 ≡ some false
unfolding program
is_open-closed = refl

request-WithinLimits_example : WithinLimits (request tools (route_with closed) post [])
request-WithinLimits_example = request-WithinLimits tools (route_with closed) post []

-- a photo whose caption begins with a link, on a route that removes links and puts a text in front
abbrev link_post : Message
link_post = record {
  id = 9;
  text = codes "http://x.io hi";
  entities = record { kind = url; offset = 0; size = 11 } ∷ [];
  content = media photo;
  fingerprint = codes "beef";
}

abbrev prefix_route : Route
prefix_route = record (route_with unscheduled) {
  media_prefix = codes "Look: ";
  text_filter = record text_filter { remove_links = true; suffix = [] };
}

-- the offset counts from the caption's start, but the text in front is cut
sent_text-prefix : sent_text tools prefix_route link_post [] ≡ codes "//x.io hi"
unfolding program sent_text raw_text use_filter caption_source is_active apply_text_filter
    strip_entities cut_entity cut_entities last_first insert_last_first should_drop_entity
sent_text-prefix = refl

-- a delivery that begins before midnight and fails after it
abbrev late : Call
late = record (call unscheduled 5) {
  attempt = fell_back [];
  ends = record { now = 6; weekday = 1; time = 0; day = 738002 };
}

-- the slot of the day on which it began is not given back
count-late :
    count (process_messages tools late (post ∷ []) engine).1.quota (codes "@b") 738001 ≡ ok 2
unfolding program refund Dict.insert Dict.erase
count-late = refl

-- two posts for one place that is left
abbrev posts : List (Call × List Message)
posts =
    (call unscheduled 5, post ∷ [])
    ∷ (call unscheduled 9, record post { id = 8; fingerprint = codes "cafe" } ∷ [])
    ∷ []

deliveries-posts : (deliveries tools posts engine).0 ≡ 1
unfolding program deliveries at_limit skip_daily_cap Dict.insert Dict.erase write_count
deliveries-posts = refl

slot : (t : ℕ) → IsFor (codes "@b") 2 738001 (call unscheduled t)
slot t = record { same_key = refl; same_limit = refl; same_day = refl; same_end = refl; wet = refl }

deliveries-Capped_example :
    let (n, last) = deliveries tools posts engine in
    (count last.quota (codes "@b") 738001 ≡ ok (1 + n)) × (1 + n ≤ max 1 2)
deliveries-Capped_example =
    deliveries-Capped tools (codes "@b") 2 738001 (omega arith) posts engine 1
      (slot 5, (slot 9, tt)) engine-IsCurrent count-engine

-- a queue with one publish, and the item that stands for it
abbrev waiting : List Item
waiting = (add (publish_of (route_with unscheduled) (post ∷ [])) (codes "q1") 1 []).1

waiting-IsValid : IsValid waiting
unfolding count_passing
waiting-IsValid =
    Reach-IsValid
      (next start (added (publish_of (route_with unscheduled) (post ∷ [])) (codes "q1") 1 [] refl))

abbrev item : Item
item = new_item (publish_of (route_with unscheduled) (post ∷ [])) (codes "q1") 1

abbrev queued_call : Call
queued_call = record (call unscheduled 5) { from_queue = true }

abbrev passed : List (Item × Lookup)
passed = (item, fetched queued_call post [] (codes "lost")) ∷ []

abbrev queued_engine : Engine
queued_engine = record engine { queue = waiting }

-- the publish is delivered and closed
trace-passed : (pass_items tools passed 6 queued_engine).0 ≡ (item, processed true false) ∷ []
unfolding program pass_items pass_item finding_of flush_item publish_of new_item
trace-passed = refl

list_pending-pass_items_example :
    let (trace, last) = pass_items tools passed 6 queued_engine in
    list_pending last.queue ≡ filter (λ i. is_status pending i && not (closed_in trace i)) waiting
list_pending-pass_items_example =
    list_pending-pass_items tools passed 6 queued_engine (refl, tt) waiting-IsValid
