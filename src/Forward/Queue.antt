-- ===== src/Forward/Queue.antt =====
-- modules/channel_forward/queue.py: the publishes that wait for a schedule window. The state is the
-- list under "items" of publish_queue.json, which every method loads anew. The new id and the time
-- (microseconds in UTC) are arguments; Telegram's ids are only compared.
pub mod Pending
pub mod Ids
pub mod Steps
use telegram_auto.Prelude.{
  ℕ, ◌+◌, ◌-◌, Bool, true, false, not, ◌&&◌, ◌||◌, Option, none, some, List, [], ◌∷◌, ◌++◌, Text,
  ◌==◌, nat_eq, text_eq, if◌then◌else◌, length, take, last_n, filter, find?, update_first,
}

pub data Status : Type 0 where
  pending done failed skipped : Status

pub record Item : Type 0 where
  pub id : Text
  pub status : Status
  pub route_key : Text
  pub source_id : ℕ
  pub dest_id : ℕ
  pub message_ids : List ℕ
  pub mode : Text
  -- the JSON text of the filter configuration
  pub filter_cfg : Text
  pub created_at : ℕ
  pub done_at : Option ℕ
  pub error : Option Text
  pub failed_at : Option ℕ
  pub skip_reason : Option Text
  pub skipped_at : Option ℕ

-- the keyword arguments of `add`
pub record Publish : Type 0 where
  pub route_key : Text
  pub source_id : ℕ
  pub dest_id : ℕ
  pub message_ids : List ℕ
  pub mode : Text
  pub filter_cfg : Text

abbrev same_status : Status → Status → Bool
same_status pending pending = true
same_status done done = true
same_status failed failed = true
same_status skipped skipped = true
same_status _ _ = false

-- `item.get("status") == s`
abbrev pub is_status : Status → Item → Bool
is_status s i = same_status s i.status

-- the test of the loop in `add`
unfoldable pub is_waiting : Publish → Item → Bool
is_waiting p i = is_status pending i && i.source_id == p.source_id && i.message_ids == p.message_ids

unfoldable pub new_item : Publish → Text → ℕ → Item
new_item p id now = record {
  id = id;
  status = pending;
  route_key = p.route_key;
  source_id = p.source_id;
  dest_id = p.dest_id;
  message_ids = p.message_ids;
  mode = p.mode;
  filter_cfg = p.filter_cfg;
  created_at = now;
  done_at = none;
  error = none;
  failed_at = none;
  skip_reason = none;
  skipped_at = none;
}

-- The id that `add` returns, and the items that it leaves.
unfoldable pub add : Publish → Text → ℕ → List Item → Text × List Item
unfolding is_waiting new_item
add p id now items = elim (find? (is_waiting p) items) [
  | some existing ↦ (existing.id, items)
  | none ↦ (id, items ++ new_item p id now ∷ [])
]

unfoldable pub list_pending : List Item → List Item
list_pending = filter (is_status pending)

unfoldable pub set_done : ℕ → Item → Item
set_done now i = record i { status = done; done_at = some now }

unfoldable pub mark_done : Text → ℕ → List Item → List Item
unfolding set_done
mark_done id now items =
    let marked = update_first (λ i. i.id == id) (set_done now) items in
    filter (is_status pending) marked ++ last_n 200 (filter (is_status done) marked)

unfoldable pub set_failed : Text → ℕ → Item → Item
set_failed error now i = record i {
  status = failed;
  error = some (take 300 error);
  failed_at = some now;
}

unfoldable pub mark_failed : Text → Text → ℕ → List Item → List Item
unfolding set_failed
mark_failed id error now items = update_first (λ i. i.id == id) (set_failed error now) items

unfoldable pub set_skipped : Text → ℕ → Item → Item
set_skipped reason now i = record i {
  status = skipped;
  skip_reason = some (take 300 reason);
  skipped_at = some now;
}

abbrev pub is_closed : Item → Bool
is_closed i = is_status done i || is_status skipped i

unfoldable pub mark_skipped : Text → Text → ℕ → List Item → List Item
unfolding set_skipped
mark_skipped id reason now items =
    let marked = update_first (λ i. i.id == id) (set_skipped reason now) items in
    filter (is_status pending) marked
    ++ (filter (is_status failed) marked ++ last_n 200 (filter is_closed marked))

unfoldable pub pending_count : List Item → ℕ
unfolding list_pending
pending_count items = length (list_pending items)

unfoldable pub list_all : Option Status → List Item → List Item
list_all none items = items
list_all (some s) items = filter (is_status s) items

-- The number of items dropped, and the items kept.
unfoldable pub clear : Option Status → List Item → ℕ × List Item
clear none items = (length items, [])
clear (some s) items =
    let kept = filter (λ i. not (is_status s i)) items in (length items - length kept, kept)
