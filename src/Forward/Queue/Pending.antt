-- ===== src/Forward/Queue/Pending.antt =====
-- The pending publishes: what closing an item does to them, and what is kept of the closed ones.
use telegram_auto.Prelude.{
  ℕ, ◌+◌, ◌≤◌, ◌≡◌, refl, ap, ◌∙◌, Bool, true, false, not, ◌&&◌, some, List, [], ◌++◌, Text, arith,
  ◌==◌, nat_eq, text_eq, length, last_n, filter, update_first, All, All-append, All-last_n,
  length-last_n-le, length-filter-le, filter-append,
}
use telegram_auto.Prelude.Filters.{
  count, AtMostOne-of_count, filter_kept_first, filter-update_first, filter_none, filter_disjoint,
  length-filter-not,
}
use telegram_auto.Forward.Queue.{
  Status, pending, done, failed, skipped, Item, is_status, list_pending, set_done, mark_done,
  set_failed, mark_failed, set_skipped, mark_skipped, is_closed, list_all, clear,
}

-- Ids are unique.
abbrev pub UniqueIds : List Item → Type 0
UniqueIds items = (id : Text) → count (λ i. i.id == id) items ≤ 1

-- the pending items but those of an id
abbrev pub others : Text → List Item → List Item
others id items = filter (λ i. is_status pending i && not (i.id == id)) items

done_not_pending : (i : Item) → is_status done i ≡ true → is_status pending i ≡ false
done_not_pending i h = ground arith

failed_not_pending : (i : Item) → is_status failed i ≡ true → is_status pending i ≡ false
failed_not_pending i h = ground arith

closed_not_pending : (i : Item) → is_closed i ≡ true → is_status pending i ≡ false
closed_not_pending i h = ground arith

-- Where ids are unique, each of the three ways to close an item takes exactly that item out of the
-- pending ones, and keeps the others in their order.
pub list_pending-mark :
    (id text : Text) (now : ℕ) (items : List Item)
    → UniqueIds items
    → (list_pending (mark_done id now items) ≡ others id items)
      × (list_pending (mark_failed id text now items) ≡ others id items)
      × (list_pending (mark_skipped id text now items) ≡ others id items)
unfolding list_pending mark_done mark_failed mark_skipped
list_pending-mark id text now items u =
    let one = AtMostOne-of_count (λ i. i.id == id) items (u id) in
    let d = update_first (λ i. i.id == id) (set_done now) items in
    let s = update_first (λ i. i.id == id) (set_skipped text now) items in
    (
      filter_kept_first (is_status pending) d (last_n 200 (filter (is_status done) d)) (
            All-last_n (λ i. is_status pending i ≡ false) 200 (filter (is_status done) d)
              (filter_disjoint (is_status pending) (is_status done) d done_not_pending))
          ∙ filter-update_first (is_status pending) (λ i. i.id == id) (set_done now) items
              (λ i. refl) one,
      filter-update_first (is_status pending) (λ i. i.id == id) (set_failed text now) items
          (λ i. refl) one,
      filter_kept_first (is_status pending) s
            (filter (is_status failed) s ++ last_n 200 (filter is_closed s))
            (All-append (λ i. is_status pending i ≡ false) (filter (is_status failed) s)
              (last_n 200 (filter is_closed s))
              (filter_disjoint (is_status pending) (is_status failed) s failed_not_pending)
              (All-last_n (λ i. is_status pending i ≡ false) 200 (filter is_closed s)
                (filter_disjoint (is_status pending) is_closed s closed_not_pending)))
          ∙ filter-update_first (is_status pending) (λ i. i.id == id) (set_skipped text now) items
              (λ i. refl) one,
    )

-- A filter over a list in two parts, none of whose first part passes.
filter_second_part :
    (p : Item → Bool) (xs ys : List Item)
    → All (λ i. p i ≡ false) xs
    → filter p (xs ++ ys) ≡ filter p ys
filter_second_part p xs ys h =
    filter-append p xs ys ∙ ap (λ zs. zs ++ filter p ys) (filter_none p xs h)

-- `mark_done` keeps pending and done items only: an item that failed or was skipped before is gone,
-- with the record of its error.
pub mark_done_forgets :
    (id : Text) (now : ℕ) (items : List Item)
    → (list_all (some failed) (mark_done id now items) ≡ [])
      × (list_all (some skipped) (mark_done id now items) ≡ [])
unfolding list_all mark_done
mark_done_forgets id now items =
    let d = update_first (λ i. i.id == id) (set_done now) items in
    let ds = filter (is_status done) d in
    (
      filter_second_part (is_status failed) (filter (is_status pending) d) (last_n 200 ds)
            (filter_disjoint (is_status failed) (is_status pending) d (λ i h. ground arith))
          ∙ filter_none (is_status failed) (last_n 200 ds) (
              All-last_n (λ i. is_status failed i ≡ false) 200 ds
                (filter_disjoint (is_status failed) (is_status done) d (λ i h. ground arith))),
      filter_second_part (is_status skipped) (filter (is_status pending) d) (last_n 200 ds)
            (filter_disjoint (is_status skipped) (is_status pending) d (λ i h. ground arith))
          ∙ filter_none (is_status skipped) (last_n 200 ds) (
              All-last_n (λ i. is_status skipped i ≡ false) 200 ds
                (filter_disjoint (is_status skipped) (is_status done) d (λ i h. ground arith))),
    )

-- Where ids are unique, `mark_skipped` keeps every failed item but the one that it closes, in order,
-- and at most 200 done or skipped ones.
pub mark_skipped_keeps :
    (id reason : Text) (now : ℕ) (items : List Item)
    → UniqueIds items
    → (list_all (some failed) (mark_skipped id reason now items)
        ≡ filter (λ i. is_status failed i && not (i.id == id)) items)
      × (length (filter is_closed (mark_skipped id reason now items)) ≤ 200)
unfolding list_all mark_skipped
mark_skipped_keeps id reason now items u =
    let s = update_first (λ i. i.id == id) (set_skipped reason now) items in
    let fs = filter (is_status failed) s in
    let cs = last_n 200 (filter is_closed s) in
    let closed_part =
      filter_second_part is_closed (filter (is_status pending) s) (fs ++ cs)
        (filter_disjoint is_closed (is_status pending) s (λ i h. ground arith))
      ∙ filter_second_part is_closed fs cs
          (filter_disjoint is_closed (is_status failed) s (λ i h. ground arith)) in
    (
      filter_second_part (is_status failed) (filter (is_status pending) s) (fs ++ cs)
            (filter_disjoint (is_status failed) (is_status pending) s (λ i h. ground arith))
          ∙ filter_kept_first (is_status failed) s cs (
              All-last_n (λ i. is_status failed i ≡ false) 200 (filter is_closed s)
                (filter_disjoint (is_status failed) is_closed s (λ i h. ground arith)))
          ∙ filter-update_first (is_status failed) (λ i. i.id == id) (set_skipped reason now) items
              (λ i. refl) (AtMostOne-of_count (λ i. i.id == id) items (u id)),
      omega (
        arith,
        ap length closed_part,
        length-filter-le is_closed cs,
        length-last_n-le 200 (filter is_closed s),
      ),
    )

-- `clear` drops exactly the items of the status, and reports how many.
pub clear_lem :
    (s : Status) (items : List Item)
    → let (n, kept) = clear (some s) items in
      (n ≡ length (list_all (some s) items))
      × (list_all (some s) kept ≡ [])
      × (length kept + n ≡ length items)
unfolding clear list_all
clear_lem s items = (
  omega (arith, length-filter-not (is_status s) items),
  filter_none (is_status s) (filter (λ i. not (is_status s i)) items)
      (filter_disjoint (is_status s) (λ i. not (is_status s i)) items (λ i h. ground arith)),
  omega (arith, length-filter-not (is_status s) items),
)
