-- ===== src/Forward/Flush/Kept.antt =====
-- Which publishes still wait after a pass.
use telegram_auto.Prelude.{
  ℕ, ◌≡◌, refl, sym, ap, ◌∙◌, Bool, true, false, not, ◌&&◌, ◌||◌, List, [], ◌∷◌, Text, codes, arith,
  ◌==◌, text_eq, any, filter,
}
use telegram_auto.Forward.Queue.{Item, pending, is_status, list_pending}
use telegram_auto.Forward.Queue.Pending.{UniqueIds, list_pending-mark}
use telegram_auto.Forward.Queue.Ids.{IsValid}
use telegram_auto.Forward.Queue.Steps.{finished, broke, passed_over, Step-IsValid}
use telegram_auto.Forward.Flush.{
  Finding, no_route, window_closed, messages_missing, processed, raised, flush_item, flush_items,
  flush_queue_once,
}

-- the findings that take an item out of the pending ones
abbrev pub closes : Finding → Bool
closes no_route = false
closes window_closed = false
closes messages_missing = true
closes (processed true cap_reached) = true
closes (processed false cap_reached) = cap_reached
closes (raised error) = true

-- whether one of the items of a pass closes the item
abbrev pub closed_by : (Item → Finding) → List Item → Item → Bool
closed_by find ps i = any (λ p. closes (find p) && i.id == p.id) ps

pub flush_item-IsValid :
    (p : Item) (x : Finding) (now : ℕ) (items : List Item)
    → IsValid items
    → IsValid (flush_item p x now items)
unfolding flush_item
flush_item-IsValid p no_route now items v = v
flush_item-IsValid p window_closed now items v = v
flush_item-IsValid p messages_missing now items v =
    Step-IsValid (broke p.id (codes "messages missing") now items) v
flush_item-IsValid p (processed true cap_reached) now items v =
    Step-IsValid (finished p.id now items) v
flush_item-IsValid p (processed false true) now items v =
    Step-IsValid (passed_over p.id (codes "daily_cap") now items) v
flush_item-IsValid p (processed false false) now items v = v
flush_item-IsValid p (raised error) now items v = Step-IsValid (broke p.id error now items) v

module _ (p q : Item → Bool) where
  pub filter-filter : (xs : List Item) → filter q (filter p xs) ≡ filter (λ i. p i && q i) xs
  unfolding filter
  filter-filter [] = refl
  filter-filter (x ∷ xs) = ground (arith, filter-filter xs)

  pub filter-ext : (xs : List Item) → ((i : Item) → p i ≡ q i) → filter p xs ≡ filter q xs
  unfolding filter
  filter-ext [] e = refl
  filter-ext (x ∷ xs) e = ground (arith, e x, filter-ext xs e)

-- what a step keeps
abbrev pub stays : Bool → Text → Item → Bool
stays b id i = is_status pending i && not (b && i.id == id)

list_pending-stays :
    (id : Text) (items : List Item) → list_pending items ≡ filter (stays false id) items
unfolding list_pending
list_pending-stays id items =
    filter-ext (is_status pending) (stays false id) items (λ i. ground arith)

pub list_pending-flush_item :
    (p : Item) (x : Finding) (now : ℕ) (items : List Item)
    → UniqueIds items
    → list_pending (flush_item p x now items) ≡ filter (stays (closes x) p.id) items
unfolding flush_item
list_pending-flush_item p no_route now items u = list_pending-stays p.id items
list_pending-flush_item p window_closed now items u = list_pending-stays p.id items
list_pending-flush_item p messages_missing now items u =
    (list_pending-mark p.id (codes "messages missing") now items u).1
list_pending-flush_item p (processed true cap_reached) now items u =
    (list_pending-mark p.id [] now items u).0
list_pending-flush_item p (processed false true) now items u =
    (list_pending-mark p.id (codes "daily_cap") now items u).2
list_pending-flush_item p (processed false false) now items u = list_pending-stays p.id items
list_pending-flush_item p (raised error) now items u = (list_pending-mark p.id error now items u).1

-- the items that wait after a pass over some
abbrev waits_after : (Item → Finding) → List Item → Item → Bool
waits_after find ps i = is_status pending i && not (closed_by find ps i)

pub and_not : (a b c : Bool) → ((a && not b) && not c) ≡ (a && not (b || c))
and_not true true c = refl
and_not true false c = refl
and_not false b c = refl

split_step :
    (find : Item → Finding) (p : Item) (ps : List Item) (i : Item)
    → (stays (closes (find p)) p.id i && not (closed_by find ps i)) ≡ waits_after find (p ∷ ps) i
unfolding any
split_step find p ps i =
    and_not (is_status pending i) (closes (find p) && i.id == p.id) (closed_by find ps i)

list_pending-flush_items :
    (find : Item → Finding) (now : ℕ) (ps items : List Item)
    → IsValid items
    → list_pending (flush_items find now ps items) ≡ filter (waits_after find ps) items
unfolding flush_items list_pending any
list_pending-flush_items find now [] items v =
    filter-ext (is_status pending) (waits_after find []) items (λ i. ground arith)
list_pending-flush_items find now (p ∷ ps) items v =
    let after = flush_item p (find p) now items in
    list_pending-flush_items find now ps after (flush_item-IsValid p (find p) now items v)
    ∙ sym (filter-filter (is_status pending) (λ i. not (closed_by find ps i)) after)
    ∙ ap (filter (λ i. not (closed_by find ps i)))
        (list_pending-flush_item p (find p) now items v.ids)
    ∙ filter-filter (stays (closes (find p)) p.id) (λ i. not (closed_by find ps i)) items
    ∙ filter-ext (λ i. stays (closes (find p)) p.id i && not (closed_by find ps i))
        (waits_after find (p ∷ ps)) items (split_step find p ps)

-- After a pass over a file with unique ids and no twins, exactly those publishes still wait, in
-- their order, that waited before and that the pass did not close: it closes one that was published,
-- failed or met the daily cap, and leaves one whose route is gone or paused, whose window is closed,
-- or that was refused below the cap.
pub list_pending-flush_queue_once :
    (find : Item → Finding) (now : ℕ) (items : List Item)
    → IsValid items
    → list_pending (flush_queue_once find now items)
      ≡ filter (λ i. is_status pending i && not (closed_by find (list_pending items) i)) items
unfolding flush_queue_once
list_pending-flush_queue_once find now items v =
    list_pending-flush_items find now (list_pending items) items v
