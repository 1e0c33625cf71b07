-- ===== src/Tests/Promotion.antt =====
-- The promo sender's models on small files.
use telegram_auto.Prelude.{
  ℕ, ◌+◌, ◌*◌, ◌≤◌, max, ◌≡◌, refl, true, false, none, some, [], ◌∷◌, length, codes, arith, ltb,
  ◌==◌, nat_eq, text_eq, All, any, find?, filter, last_n, contains, update_first,
}
use telegram_auto.Prelude.Dict
use telegram_auto.Prelude.Filters.{count as number_of}
use telegram_auto.Prelude.Strip.{strip, is_empty, lstrip, is_space}
use telegram_auto.Prelude.Sort.{sort_by, insert_by}
use telegram_auto.Promo.Queue.{
  Item, QueueFile, Share, is_pending, is_settled, is_waiting, new_item, enqueue, list_pending,
  pending_count, pop_next, mark_done, mark_failed, defer, Markers, marked, claim_marker,
  try_claim_post_seen, post_seen, related, try_claim_post_ack, cap_items, cap_pending,
}
use telegram_auto.Promo.Queue.Retry.{
  HasAttempts, enqueued, Reach, start, next, Reach-HasAttempts, Failures, intact, another,
  Failures-le,
}
use telegram_auto.Promo.Queue.Order.{older_waits, pop_next_lem}
use telegram_auto.Promo.Queue.Markers.{NotAfter}
use telegram_auto.Promo.Safety.{
  SafetyConfig, minute, hour, day, Guard, ok, not_paused, note_success, circuit_status, budget_ok,
  count_since, is_since,
}
use telegram_auto.Promo.Safety.Budget
use telegram_auto.Promo.Safety.Circuit.{flood_times, circuit_status-flood_times}

program : Unit {0}
unfolding any filter find? enqueue is_waiting new_item text_eq nat_eq strip is_empty lstrip is_space
    number_of try_claim_post_ack budget_ok count_since is_since Dict.lookup contains cap_items
    cap_pending claim_marker related mark_done Dict.has_key defer pop_next sort_by last_n
    update_first insert_by marked
program = tt

abbrev empty : QueueFile
empty = record { items = []; seen_posts = none; acked_posts = none }

abbrev share : Share
share = record {
  source_id = 7;
  group_ref = codes "@g";
  group_id = 9;
  message_ids = 11 ∷ [];
  mode = codes "copy";
  post_key = codes "p";
}

abbrev one : QueueFile
one = (enqueue share (codes "id1") 5 empty).1

abbrev item : Item
item = new_item share (codes "id1") 5

one_reached : Reach one
one_reached = next (start none none) (enqueued share (codes "id1") 5 empty)

first_share : (enqueue share (codes "id1") 5 empty).0 ≡ some (codes "id1")
unfolding program
first_share = refl

one-HasAttempts : All HasAttempts one.items
one-HasAttempts = Reach-HasAttempts one_reached

Reach-HasAttempts_example : All HasAttempts one.items
Reach-HasAttempts_example = Reach-HasAttempts one_reached

found_item : find? (λ j. j.id == codes "id1") one.items ≡ some item
unfolding program
found_item = refl

item_waits : is_pending item ≡ true
unfolding program
item_waits = refl

failed_once : Failures one 1 (mark_failed (codes "id1") (codes "timeout") true 6 one)
failed_once = another (codes "id1") (codes "timeout") true 6 item intact found_item item_waits

Failures-le_example : 1 ≤ 3 * length (filter is_pending one.items)
Failures-le_example = Failures-le one_reached failed_once

pop_next_lem_example :
    ((i : Item)
      → pop_next one ≡ some i
      → (is_pending i ≡ true) × All (λ j. i.created_at ≤ j.created_at) (list_pending one))
    × (pop_next one ≡ none → list_pending one ≡ [])
pop_next_lem_example = pop_next_lem one

abbrev other_share : Share
other_share = record share { group_id = 10; group_ref = codes "@h" }

abbrev two : QueueFile
two = (enqueue other_share (codes "id2") 6 one).1

once : number_of (λ j. j.id == codes "id1") two.items ≤ 1
unfolding program
once = omega arith

waits : older_waits (codes "id1") 8 two ≡ true
unfolding program
waits = refl

next_two :
    pop_next (defer (codes "id1") (codes "cooldown") 8 two)
    ≡ some (new_item other_share (codes "id2") 6)
unfolding program
next_two = refl

not_blank : is_empty (strip (codes "p")) ≡ false
unfolding program
not_blank = refl

unmarked : NotAfter 6 none
unfolding program
unmarked = tt

unmarked_later : NotAfter 7 none
unfolding program
unmarked_later = tt

abbrev sent_all : QueueFile
sent_all = record {
  items = record item { status = telegram_auto.Promo.Queue.done; done_at = some 6 } ∷ [];
  seen_posts = none;
  acked_posts = none;
}

claimed : (try_claim_post_ack (codes "p") 7 sent_all).0 ≡ true
unfolding program
claimed = refl

abbrev config : SafetyConfig
config = record {
  per_group_cooldown = 50 * minute;
  hourly_budget = 8;
  daily_budget = 36;
  flood_strikes_to_pause = 2;
  peer_flood_cooldown = day;
  circuit_breaker = 8 * hour;
}

abbrev guard : Guard
guard = record {
  sends = [];
  group_last = [];
  flood_strikes = 0;
  paused_until = not_paused;
  pause_reason = none;
}

-- midnight of some day
abbrev now : ℕ
now = 738000 * day

Within-start : Budget.Within config now guard
unfolding program
Within-start = record { by_hour = omega arith; by_day = omega arith }

allowed : budget_ok config now guard ≡ ok
unfolding program
allowed = refl

one_sent :
    Budget.Run config (now, guard) (now + minute, note_success (codes "@g") (now + minute) guard)
one_sent =
    Budget.then_ (Budget.stay (now, guard))
      (Budget.sent (codes "@g") now (now + minute) guard allowed (omega arith))

Run-Within_example :
    Budget.Within config (now + minute) (note_success (codes "@g") (now + minute) guard)
Run-Within_example = Budget.Run-Within config one_sent Within-start

circuit_status-flood_times_example :
    (circuit_status (now + hour) (flood_times config [] (now ∷ 5 ∷ []) guard)).0
    ≡ ltb (now + hour) (now + max (15 * minute) (8 * hour))
circuit_status-flood_times_example =
    circuit_status-flood_times config [] now (5 ∷ []) (now + hour) guard (omega arith)
