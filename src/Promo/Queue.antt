-- ===== src/Promo/Queue.antt =====
-- modules/promo_spread/queue.py: the deliveries of promo posts to groups, and the markers of the
-- posts that were seen and acknowledged. The state is promo_queue.json, which every method loads
-- anew. The new id and the time (microseconds in UTC, whose ISO texts are ordered as they are) are
-- arguments.
pub mod Enqueue
pub mod Retry
pub mod Order
pub mod Markers
use telegram_auto.Prelude.{
  ℕ, ◌+◌, ◌-◌, ◌<◌, Bool, true, false, not, ◌&&◌, ◌||◌, Option, none, some, List, [], ◌∷◌, ◌++◌,
  Text, ltb, ◌==◌, nat_eq, text_eq, if◌then◌else◌, length, take, last_n, filter, any, update_first,
}
use telegram_auto.Prelude.Dict
use telegram_auto.Prelude.Dict.{Dict}
use telegram_auto.Prelude.Sort.{sort_by}
use telegram_auto.Prelude.Strip.{strip, is_empty}

pub data Status : Type 0 where
  pending done failed : Status

pub record Item : Type 0 where
  pub id : Text
  pub status : Status
  pub source_id : ℕ
  pub group_ref : Text
  pub group_id : ℕ
  pub message_ids : List ℕ
  pub mode : Text
  pub post_key : Text
  pub created_at : ℕ
  pub attempts : ℕ
  pub done_at : Option ℕ
  pub last_error : Option Text
  pub failed_at : Option ℕ
  pub deferred_reason : Option Text

-- a bucket of markers: `none` if it is missing or no dict
abbrev pub Markers : Type 0
Markers = Option (Dict Text ℕ)

pub record QueueFile : Type 0 where
  pub items : List Item
  pub seen_posts : Markers
  pub acked_posts : Markers

-- the keyword arguments of `enqueue`
pub record Share : Type 0 where
  pub source_id : ℕ
  pub group_ref : Text
  pub group_id : ℕ
  pub message_ids : List ℕ
  pub mode : Text
  pub post_key : Text

-- `i.get("status") == "pending"`
abbrev pub is_pending : Item → Bool
is_pending i = elim i.status [ pending ↦ true | done ↦ false | failed ↦ false ]

abbrev pub is_settled : Item → Bool
is_settled i = not (is_pending i)

-- the test of the loop in `enqueue`
unfoldable pub is_waiting : Share → Item → Bool
is_waiting s i = is_pending i && i.group_id == s.group_id && i.post_key == s.post_key

unfoldable pub new_item : Share → Text → ℕ → Item
new_item s id now = record {
  id = id;
  status = pending;
  source_id = s.source_id;
  group_ref = s.group_ref;
  group_id = s.group_id;
  message_ids = s.message_ids;
  mode = s.mode;
  post_key = s.post_key;
  created_at = now;
  attempts = 0;
  done_at = none;
  last_error = none;
  failed_at = none;
  deferred_reason = none;
}

-- `if len(pending) > 400: pending = pending[-400:]`
unfoldable pub cap_pending : List Item → List Item
cap_pending ps = if ltb 400 (length ps) then last_n 400 ps else ps

unfoldable pub cap_items : List Item → List Item
unfolding cap_pending
cap_items items = cap_pending (filter is_pending items) ++ last_n 150 (filter is_settled items)

unfoldable pub enqueue : Share → Text → ℕ → QueueFile → Option Text × QueueFile
unfolding is_waiting new_item cap_items
enqueue s id now q =
    if any (is_waiting s) q.items
    then (none, q)
    else (some id, record q { items = cap_items (q.items ++ new_item s id now ∷ []) })

unfoldable pub list_pending : QueueFile → List Item
list_pending q = filter is_pending q.items

unfoldable pub pending_count : QueueFile → ℕ
unfolding list_pending
pending_count q = length (list_pending q)

unfoldable pub first : List Item → Option Item
first [] = none
first (i ∷ items) = some i

-- A look at the oldest pending item.
unfoldable pub pop_next : QueueFile → Option Item
unfolding first list_pending
pop_next q = first (sort_by (λ i. i.created_at) (list_pending q))

unfoldable pub set_done : ℕ → Item → Item
set_done now i = record i { status = done; done_at = some now }

unfoldable pub mark_done : Text → ℕ → QueueFile → QueueFile
unfolding set_done
mark_done id now q = record q { items = update_first (λ i. i.id == id) (set_done now) q.items }

unfoldable pub set_failed : Text → Bool → ℕ → Item → Item
set_failed error retry now i =
    let n = i.attempts + 1 in
    if retry && ltb n 3
    then record i { attempts = n; last_error = some (take 300 error); status = pending }
    else record i {
      attempts = n;
      last_error = some (take 300 error);
      status = failed;
      failed_at = some now;
    }

unfoldable pub mark_failed : Text → Text → Bool → ℕ → QueueFile → QueueFile
unfolding set_failed
mark_failed id error retry now q = record q {
  items = update_first (λ i. i.id == id) (set_failed error retry now) q.items;
}

unfoldable pub set_deferred : Text → ℕ → Item → Item
set_deferred reason now i = record i { deferred_reason = some (take 200 reason); created_at = now }

unfoldable pub defer : Text → Text → ℕ → QueueFile → QueueFile
unfolding set_deferred
defer id reason now q = record q {
  items = update_first (λ i. i.id == id) (set_deferred reason now) q.items;
}

unfoldable pub clear_pending : QueueFile → ℕ × QueueFile
clear_pending q =
    (length (filter is_pending q.items), record q { items = filter is_settled q.items })

-- `self._data.setdefault(bucket, {})` with the test that it is a dict
unfoldable pub marked : Markers → Dict Text ℕ
marked none = []
marked (some d) = d

-- `if len(markers) > 300: keep = sorted(...)[-200:]`
unfoldable pub cap_markers : Dict Text ℕ → Dict Text ℕ
cap_markers d = if ltb 300 (length d) then last_n 200 (sort_by (λ e. e.1) d) else d

-- `_claim_marker_unlocked` on the bucket of one kind
unfoldable pub claim_marker : Text → ℕ → Markers → Bool × Markers
unfolding marked cap_markers
claim_marker key now m =
    if Dict.has_key key (marked m)
    then (false, m)
    else (true, some (cap_markers (Dict.insert key now (marked m))))

-- `_try_claim_marker` with the bucket "seen_posts"
unfoldable pub try_claim_post_seen : Text → ℕ → QueueFile → Bool × QueueFile
unfolding claim_marker
try_claim_post_seen post_key now q =
    let key = strip post_key in
    if is_empty key
    then (false, q)
    else let (claimed, m) = claim_marker key now q.seen_posts in
      (claimed, record q { seen_posts = m })

unfoldable pub post_seen : Text → QueueFile → Bool
unfolding marked
post_seen post_key q =
    let key = strip post_key in
    if is_empty key then false else Dict.has_key key (marked q.seen_posts)

unfoldable pub has_seen_history : QueueFile → Bool
unfolding marked
has_seen_history q = ltb 0 (length (marked q.seen_posts))

unfoldable pub related : Text → Item → Bool
related key i = i.post_key == key

unfoldable pub try_claim_post_ack : Text → ℕ → QueueFile → Bool × QueueFile
unfolding claim_marker related
try_claim_post_ack post_key now q =
    let key = strip post_key in
    if is_empty key
    then (false, q)
    else if not (any (related key) q.items)
    then (false, q)
    else if any (λ i. related key i && is_pending i) q.items
    then (false, q)
    else let (claimed, m) = claim_marker key now q.acked_posts in
      (claimed, record q { acked_posts = m })
