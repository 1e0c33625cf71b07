-- ===== src/Promo/Queue/Enqueue.antt =====
-- `enqueue` and the caps on the promo queue (modules/promo_spread/queue.py).
use telegram_auto.Prelude.{
  ℕ, ◌≤◌, ◌≡◌, ap, sym, ◌∙◌, true, false, none, some, List, [], ◌∷◌, ◌++◌, Text, arith, ltb, nat_eq,
  text_eq, inl, inr, ◌⊎◌, Bool-cases, length, last_n, filter, any, All, length-last_n-le,
  length-filter-le, filter-append, any-append, last_n-append, last_n_of_length-le, All-last_n,
}
use mathlib.Core.Path.{ap₂}
use mathlib.Core.List.{append-nil}
use telegram_auto.Prelude.Filters.{filter-true, filter_none, filter_disjoint, All-filter}
use telegram_auto.Promo.Queue.{
  Item, QueueFile, Share, is_pending, is_settled, is_waiting, new_item, cap_pending, cap_items,
  enqueue, list_pending, pending_count,
}

cap_pending-last_n : (ps : List Item) → cap_pending ps ≡ last_n 400 ps
unfolding cap_pending
cap_pending-last_n ps = elim (Bool-cases (ltb 400 (length ps))) [
  | inl long ↦ rw (long, cap_pending)
  | inr short ↦ rw (short, cap_pending) (sym (last_n_of_length-le 400 ps (ground arith)))
]

settled_not_pending : (i : Item) → is_settled i ≡ true → is_pending i ≡ false
settled_not_pending i h = ground arith

not_pending :
    (items : List Item) → All (λ i. is_pending i ≡ false) (last_n 150 (filter is_settled items))
not_pending items =
    All-last_n (λ i. is_pending i ≡ false) 150 (filter is_settled items)
      (filter_disjoint is_pending is_settled items settled_not_pending)

-- What the caps leave of the pending items.
filter-cap_items :
    (items : List Item) → filter is_pending (cap_items items) ≡ last_n 400 (filter is_pending items)
unfolding cap_items
filter-cap_items items =
    let ps = filter is_pending items in
    filter-append is_pending (cap_pending ps) (last_n 150 (filter is_settled items))
    ∙ ap₂ ◌++◌
        (ap (filter is_pending) (cap_pending-last_n ps)
          ∙ filter-true is_pending (last_n 400 ps)
              (All-last_n (λ i. is_pending i ≡ true) 400 ps (All-filter is_pending items)))
        (filter_none is_pending (last_n 150 (filter is_settled items)) (not_pending items))
    ∙ append-nil (last_n 400 ps)

pub created :
    (s : Share) (id : Text) (now : ℕ) (q : QueueFile)
    → any (is_waiting s) q.items ≡ false
    → enqueue s id now q
      ≡ (some id, record q { items = cap_items (q.items ++ new_item s id now ∷ []) })
unfolding enqueue
created s id now q h = rw (h, enqueue)

pub waiting :
    (s : Share) (id : Text) (now : ℕ) (q : QueueFile)
    → any (is_waiting s) q.items ≡ true
    → enqueue s id now q ≡ (none, q)
unfolding enqueue
waiting s id now q h = rw (h, enqueue)

pub pending-created :
    (s : Share) (id : Text) (now : ℕ) (q : QueueFile)
    → any (is_waiting s) q.items ≡ false
    → list_pending (enqueue s id now q).1 ≡ last_n 400 (list_pending q ++ new_item s id now ∷ [])
unfolding list_pending filter new_item
pending-created s id now q h =
    ap (λ r. filter is_pending r.1.items) (created s id now q h)
    ∙ filter-cap_items (q.items ++ new_item s id now ∷ [])
    ∙ ap (last_n 400) (filter-append is_pending q.items (new_item s id now ∷ []))

-- A new share is added behind the pending ones, of which the last 400 in all are kept, so that none
-- is lost below that number. A share that waits already is not added again, and nothing changes.
pub list_pending-enqueue :
    (s : Share) (id : Text) (now : ℕ) (q : QueueFile)
    → ((any (is_waiting s) q.items ≡ true) × (enqueue s id now q ≡ (none, q)))
      ⊎ (((enqueue s id now q).0 ≡ some id)
          × (list_pending (enqueue s id now q).1
              ≡ last_n 400 (list_pending q ++ new_item s id now ∷ [])))
unfolding enqueue
list_pending-enqueue s id now q = elim (Bool-cases (any (is_waiting s) q.items)) [
  | inl waits ↦ inl (waits, rw (waits, enqueue))
  | inr fresh ↦ inr (ap (λ r. r.0) (created s id now q fresh), pending-created s id now q fresh)
]

any-cap_items :
    (s : Share) (id : Text) (now : ℕ) (items : List Item)
    → any (is_waiting s) (cap_items (items ++ new_item s id now ∷ [])) ≡ true
unfolding cap_items is_waiting new_item any filter
any-cap_items s id now items =
    let new = new_item s id now in
    let (zs, e) = last_n-append 399 (filter is_pending items) new in
    let kept : cap_pending (filter is_pending (items ++ new ∷ [])) ≡ zs ++ new ∷ [] =
      cap_pending-last_n (filter is_pending (items ++ new ∷ []))
      ∙ ap (last_n 400) (filter-append is_pending items (new ∷ []))
      ∙ e in
    any-append (is_waiting s) (cap_pending (filter is_pending (items ++ new ∷ [])))
      (last_n 150 (filter is_settled (items ++ new ∷ [])))
    ∙ rw kept (rw (any-append (is_waiting s) zs (new ∷ [])) (ground arith))

-- After `enqueue` the share is pending, whether it is new or waited before.
pub any-enqueue :
    (s : Share) (id : Text) (now : ℕ) (q : QueueFile)
    → any (is_waiting s) (enqueue s id now q).1.items ≡ true
any-enqueue s id now q = elim (Bool-cases (any (is_waiting s) q.items)) [
  | inl waits ↦ rw (waiting s id now q waits) waits
  | inr fresh ↦ rw (created s id now q fresh) (any-cap_items s id now q.items)
]

settled-cap_items : (items : List Item) → length (filter is_settled (cap_items items)) ≤ 150
unfolding cap_items
settled-cap_items items =
    let ps = cap_pending (filter is_pending items) in
    let ss = last_n 150 (filter is_settled items) in
    let no_pending : All (λ i. is_settled i ≡ false) ps =
      rw (cap_pending-last_n (filter is_pending items)) (
        All-last_n (λ i. is_settled i ≡ false) 400 (filter is_pending items)
          (filter_disjoint is_settled is_pending items (λ i h. ground arith))) in
    let e =
      filter-append is_settled ps ss
      ∙ ap (λ zs. zs ++ filter is_settled ss) (filter_none is_settled ps no_pending) in
    omega (
      arith,
      ap length e,
      length-filter-le is_settled ss,
      length-last_n-le 150 (filter is_settled items),
    )

-- A job that `enqueue` creates leaves at most 400 pending and 150 settled items.
pub enqueue_bounds :
    (s : Share) (id : Text) (now : ℕ) (q : QueueFile)
    → (enqueue s id now q).0 ≡ some id
    → (pending_count (enqueue s id now q).1 ≤ 400)
      × (length (filter is_settled (enqueue s id now q).1.items) ≤ 150)
unfolding pending_count
enqueue_bounds s id now q h = elim (Bool-cases (any (is_waiting s) q.items)) [
  | inl waits ↦ let none_is_some : none ≡ some id = rw (waiting s id now q waits) at h in cc
  | inr fresh ↦ (
    omega (
      arith,
      ap length (pending-created s id now q fresh),
      length-last_n-le 400 (list_pending q ++ new_item s id now ∷ []),
    ),
    rw (created s id now q fresh) (settled-cap_items (q.items ++ new_item s id now ∷ [])),
  )
]
