-- ===== src/Forward/Flush.antt =====
-- modules/channel_forward/module.py, `_flush_queue_once`: one pass over the publishes that wait. What
-- the pass finds for an item is an argument: the engine's answer ends in Telegram calls. Items are
-- looked at as they were when the pass began.
pub mod Kept
pub mod Pass
use telegram_auto.Prelude.{
  ℕ, Bool, true, false, not, ◌&&◌, List, [], ◌∷◌, Text, codes, ◌==◌, text_eq, any,
}
use telegram_auto.Forward.Queue.{Item, list_pending, mark_done, mark_failed, mark_skipped}

-- what the pass finds for an item: no route or a paused one, a closed window, messages that are
-- missing, the engine's answer with the test of the daily cap, or an exception with its text
pub data Finding : Type 0 where
  no_route : Finding
  window_closed : Finding
  messages_missing : Finding
  processed : (success cap_reached : Bool) → Finding
  raised : Text → Finding

-- the body of the loop
unfoldable pub flush_item : Item → Finding → ℕ → List Item → List Item
unfolding mark_done mark_failed mark_skipped
flush_item i no_route now items = items
flush_item i window_closed now items = items
flush_item i messages_missing now items = mark_failed i.id (codes "messages missing") now items
flush_item i (processed true cap_reached) now items = mark_done i.id now items
flush_item i (processed false true) now items = mark_skipped i.id (codes "daily_cap") now items
flush_item i (processed false false) now items = items
flush_item i (raised error) now items = mark_failed i.id error now items

unfoldable pub flush_items : (Item → Finding) → ℕ → List Item → List Item → List Item
unfolding flush_item
flush_items find now [] items = items
flush_items find now (p ∷ ps) items = flush_items find now ps (flush_item p (find p) now items)

-- `_flush_queue_once`
unfoldable pub flush_queue_once : (Item → Finding) → ℕ → List Item → List Item
unfolding flush_items list_pending
flush_queue_once find now items = flush_items find now (list_pending items) items
