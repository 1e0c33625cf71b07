-- ===== src/Tests/Forwarding.antt =====
-- The forwarder's models on small files.
use telegram_auto.Prelude.{
  ℕ, ◌+◌, ◌-◌, ◌*◌, ◌≤◌, min, max, leb, ◌≡◌, refl, ◌≢◌, true, false, ◌&&◌, ◌||◌, some, List, [],
  ◌∷◌, codes, arith, ◌==◌, nat_eq, text_eq, length, All, any, find?, filter, contains,
}
use telegram_auto.Prelude.Dict
use telegram_auto.Prelude.Dict.{NodupKeys, keys}
use telegram_auto.Prelude.Numbers.{Nodup}
use telegram_auto.Prelude.Filters.{count as number_of}
use telegram_auto.Prelude.Strip.{strip, is_empty, lstrip, is_space}
use telegram_auto.Prelude.Parse.{lower, split_all, replace_char}
use telegram_auto.Forward.Quota.{
  num, days, QuotaFile, ok, reload, count, try_consume, refund, write_count,
}
use telegram_auto.Forward.Quota.Pruning.{IsCurrent}
use telegram_auto.Forward.Quota.Counts.{consume_times, consume_times-eq-min}
use telegram_auto.Forward.Quota.Refund.{count-refund-try_consume}
use telegram_auto.Forward.Quota.Bounds.{DaysNodup}
use telegram_auto.Forward.Queue.{
  failed, skipped, Item, Publish, is_waiting, new_item, add, list_pending, mark_done, mark_failed,
  list_all,
}
use telegram_auto.Forward.Queue.Pending.{mark_done_forgets}
use telegram_auto.Forward.Queue.Ids.{IsValid}
use telegram_auto.Forward.Queue.Steps.{added, Reach, start, next, Reach-IsValid}
use telegram_auto.Forward.State.{
  StateFile, bucket, dest_for_source, record_mapping, dest_for_source-record_mapping,
}
use telegram_auto.Forward.Dedup.{
  Entry, window, is_match, is_duplicate, remember, is_duplicate-remember_any,
}
use telegram_auto.Forward.Schedule.{
  HourMinute, parse_days_csv, parse_hhmm, within, words, collect_days, nonempty,
}

program : Unit {0}
unfolding Dict.lookup reload count try_consume add find? is_waiting new_item is_duplicate
    parse_days_csv parse_hhmm within bucket window is_match any filter list_pending text_eq nat_eq
    contains number_of words collect_days nonempty strip is_empty lower lstrip is_space split_all
    replace_char
program = tt

-- two posts on the days 738000 and 738001
abbrev quota : QuotaFile
quota = record {
  dests = some ((codes "@dest", days ((738000, num 2) ∷ (738001, num 1) ∷ [])) ∷ []);
}

count-quota : count quota (codes "@dest") 738001 ≡ ok 1
unfolding program
count-quota = refl

quota-IsCurrent : IsCurrent 738001 (Dict.lookup (codes "@dest") (reload quota))
unfolding program
quota-IsCurrent = ((refl, (refl, tt)), (omega arith, (omega arith, tt)))

quota-DaysNodup : All (λ e. DaysNodup e.1) (reload quota)
unfolding program
quota-DaysNodup = ((refl, (refl, tt)), tt)

consume_times-eq-min_example :
    (g : QuotaFile) × (consume_times 5 quota (codes "@dest") 3 738001 ≡ ok (min 5 (3 - 1), g))
    × (count g (codes "@dest") 738001 ≡ ok (min (1 + 5) 3))
consume_times-eq-min_example =
    consume_times-eq-min 5 quota (codes "@dest") 3 738001 1 quota-IsCurrent (omega arith)
      count-quota (omega arith)

count-refund-try_consume_example :
    (g : QuotaFile) × (try_consume quota (codes "@dest") 3 738001 ≡ ok (true, g))
    × (count g (codes "@dest") 738001 ≡ ok (1 + 1))
    × (count (refund g (codes "@dest") 738001) (codes "@dest") 738001 ≡ ok 1)
count-refund-try_consume_example =
    count-refund-try_consume quota (codes "@dest") 3 738001 1 quota-IsCurrent count-quota
      (omega arith)

-- the file after the next post
abbrev quota_after : QuotaFile
quota_after =
    write_count (reload quota) (codes "@dest") ((738000, num 2) ∷ (738001, num 1) ∷ []) 738001 2

next_post : try_consume quota (codes "@dest") 3 738001 ≡ ok (true, quota_after)
unfolding program
next_post = refl

quota-NodupKeys : NodupKeys (reload quota)
unfolding program
quota-NodupKeys = (refl, tt)

other_dest : codes "@other" ≢ codes "@dest"
other_dest e = absurd cc

other-IsCurrent : IsCurrent 738001 (Dict.lookup (codes "@other") (reload quota))
unfolding program
other-IsCurrent = tt

abbrev post : Publish
post = record {
  route_key = codes "@a->@b";
  source_id = 7;
  dest_id = 9;
  message_ids = 11 ∷ [];
  mode = codes "copy";
  filter_cfg = [];
}

-- the same post for another route of the source
abbrev post_c : Publish
post_c = record post { route_key = codes "@a->@c"; dest_id = 10 }

abbrev queue : List Item
queue = (add post (codes "id1") 5 []).1

queue_reached : Reach queue
unfolding program
queue_reached = next start (added post (codes "id1") 5 [] refl)

queue-IsValid : IsValid queue
queue-IsValid = Reach-IsValid queue_reached

Reach-IsValid_example : IsValid queue
Reach-IsValid_example = Reach-IsValid queue_reached

abbrev broken : List Item
broken = mark_failed (codes "id1") (codes "no such chat") 6 queue

mark_done_forgets_example :
    (list_all (some failed) (mark_done (codes "id2") 7 broken) ≡ [])
    × (list_all (some skipped) (mark_done (codes "id2") 7 broken) ≡ [])
mark_done_forgets_example = mark_done_forgets (codes "id2") 7 broken

abbrev state : StateFile
state = record {
  last_seen = (codes "@a->@b", 11) ∷ [];
  mappings = (codes "@a->@b", (11, 21) ∷ []) ∷ [];
}

bucket-Nodup : Nodup (keys (bucket state (codes "@a->@b")))
unfolding program
bucket-Nodup = (refl, tt)

bucket_old : All (λ k. k ≤ 12) (keys (bucket state (codes "@a->@b")))
unfolding program
bucket_old = (omega arith, tt)

dest_for_source-record_mapping_example :
    (dest_for_source (record_mapping state (codes "@a->@b") 12 22) (codes "@a->@b") 12 ≡ some 22)
    × (length (bucket (record_mapping state (codes "@a->@b") 12 22) (codes "@a->@b")) ≤ 500)
dest_for_source-record_mapping_example =
    dest_for_source-record_mapping state (codes "@a->@b") 12 22 bucket-Nodup bucket_old

abbrev message : ℕ
message = 11

abbrev entries : List Entry
entries = record { route_key = codes "@a->@b"; fp = codes "f1"; at = some 100 } ∷ []

is_duplicate-remember_any_example :
    is_duplicate
      (codes "@a->@b")
      (codes "f1")
      24
      300
      (remember (codes "@a->@c") (codes "f1") 200 entries)
    ≡ ((codes "@a->@c" == codes "@a->@b"
          && codes "f1" == codes "f1"
          && leb 300 (200 + max 1 24 * 3_600_000_000))
        || is_duplicate (codes "@a->@b") (codes "f1") 24 300 entries)
is_duplicate-remember_any_example =
    is_duplicate-remember_any (codes "@a->@c") (codes "f1") (codes "@a->@b") (codes "f1") 24 200 300
      entries (omega arith)

in_window : 300 ≤ 200 + window 24
unfolding program
in_window = omega arith

other_post : (codes "@a->@b" == codes "@a->@b" && codes "f2" == codes "f1") ≡ false
unfolding program
other_post = refl

abbrev weekend : List ℕ
weekend = 5 ∷ 6 ∷ []

week_end : parse_days_csv (codes " Sat, sunday,sat") ≡ some weekend
unfolding program
week_end = refl

abbrev late : ℕ
late = 23

abbrev half_past_nine : HourMinute
half_past_nine = record { hour = 9; minute = 30 }

nine_thirty : parse_hhmm (codes " 09:30") ≡ some half_past_nine
unfolding program
nine_thirty = refl
