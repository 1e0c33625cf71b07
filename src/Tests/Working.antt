-- ===== src/Tests/Working.antt =====
-- Ticks of the promo worker on a small queue.
use telegram_auto.Prelude.{refl, any, ◌≡◌, ℕ, ◌+◌, ◌*◌, true, false, none, [], ◌∷◌, codes, arith}
use telegram_auto.Promo.Queue.{Item, QueueFile, Share, new_item, enqueue, has_seen_history, marked}
use telegram_auto.Promo.Posting.{Post, catchup_route}
use telegram_auto.Promo.Posting.Seen.{catchup_route-stale}
use telegram_auto.Promo.Safety.{minute, hour, day, not_paused, count_since}
use telegram_auto.Promo.Safety.Budget.{Within}
use telegram_auto.Promo.Worker.{Config, known, delivered, Sender, Tick, worker_loop}
use telegram_auto.Promo.Worker.Guarded.{Chain, end_of, worker_loop-Within}

abbrev config : Config
config = record {
  safety = record {
    per_group_cooldown = 50 * minute;
    hourly_budget = 8;
    daily_budget = 36;
    flood_strikes_to_pause = 2;
    peer_flood_cooldown = day;
    circuit_breaker = 8 * hour;
  };
  hours = record {
    active_days = codes "sat" ∷ [];
    active_windows = (codes "06:00", codes "23:59") ∷ [];
  };
  dry_run = false;
  ack_reaction = true;
}

-- noon of a Saturday
abbrev noon : ℕ
noon = 738000 * day + 12 * hour

abbrev tick : Tick
tick = record {
  paused = false;
  clock = record { now = noon; weekday = 5; time = 720 };
  paused_after = false;
  clock_after = record { now = noon + 2 * minute; weekday = 5; time = 722 };
  target = known;
  source_known = true;
  sending = delivered;
  end_ = noon + 3 * minute;
}

abbrev empty : QueueFile
empty = record { items = []; seen_posts = none; acked_posts = none }

abbrev share : Share
share = record {
  source_id = 7;
  group_ref = codes "@g";
  group_id = 9;
  message_ids = 11 ∷ [];
  mode = codes "copy";
  post_key = codes "p";
}

abbrev sender : Sender
sender = record {
  queue = (enqueue share (codes "id1") 5 empty).1;
  guard = record {
    sends = [];
    group_last = [];
    flood_strikes = 0;
    paused_until = not_paused;
    pause_reason = none;
  };
}

abbrev job : Item
job = new_item share (codes "id1") 5

in_order : Chain noon (tick ∷ [])
in_order = (omega arith, record { delay = omega arith; delivery = omega arith }, tt)

sender-Within : Within config.safety noon sender.guard
unfolding count_since
sender-Within = record { by_hour = omega arith; by_day = omega arith }

worker_loop-Within_example :
    Within config.safety (end_of noon (tick ∷ [])) (worker_loop config (tick ∷ []) sender).guard
worker_loop-Within_example =
    worker_loop-Within config noon (tick ∷ []) sender in_order sender-Within

-- a post of last week
abbrev old_post : Post
old_post = record {
  source_id = 7;
  message_ids = 12 ∷ [];
  mode = codes "copy";
  post_key = codes "7:12-12";
  targets = record { label = codes "@g"; gid = 9; job_id = codes "id9" } ∷ [];
  fresh = false;
}

no_history : has_seen_history sender.queue ≡ false
unfolding has_seen_history marked enqueue any
no_history = refl

catchup_route-stale_example :
    (catchup_route true noon (old_post ∷ []) sender.queue).items ≡ sender.queue.items
catchup_route-stale_example =
    catchup_route-stale true noon (old_post ∷ []) sender.queue no_history (refl, tt)
