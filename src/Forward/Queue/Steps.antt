-- ===== src/Forward/Queue/Steps.antt =====
-- The sequences of calls of the publish queue's methods, as a step relation
-- (modules/channel_forward/queue.py).
use telegram_auto.Prelude.{
  ℕ, ◌+◌, ◌≤◌, ◌≡◌, Bool, true, not, Option, none, some, List, [], ◌∷◌, ◌++◌, Text, arith, ◌==◌,
  nat_eq, text_eq, last_n, filter, find?, update_first, inl, inr, Option-cases,
}
use native.Mathlib.Nat.{le_trans}
use telegram_auto.Prelude.Filters.{
  count, count-append, count-filter-le, count-last_n-le, count-update_first-le,
}
use telegram_auto.Forward.Queue.{
  Status, pending, done, failed, Item, Publish, is_status, is_waiting, new_item, add, set_done,
  mark_done, set_failed, mark_failed, set_skipped, mark_skipped, is_closed, clear,
}
use telegram_auto.Forward.Queue.Pending.{UniqueIds}
use telegram_auto.Forward.Queue.Ids.{IsValid, add_new, add_old, add-NoTwins, count_one, parts-count}

-- How the file changes: the methods, each with a new id where it makes one.
pub data Step : List Item → List Item → Type 0 where
  added :
      (p : Publish) (id : Text) (now : ℕ) (items : List Item)
      → count (λ i. i.id == id) items ≡ 0
      → Step items (add p id now items).1
  finished : (id : Text) (now : ℕ) (items : List Item) → Step items (mark_done id now items)
  broke :
      (id error : Text) (now : ℕ) (items : List Item) → Step items (mark_failed id error now items)
  passed_over :
      (id reason : Text) (now : ℕ) (items : List Item)
      → Step items (mark_skipped id reason now items)
  cleared : (s : Option Status) (items : List Item) → Step items (clear s items).1

pub data Reach : List Item → Type 0 where
  start : Reach []
  next : {xs ys : List Item} → Reach xs → Step xs ys → Reach ys

mark_done-count :
    (t : Item → Bool) (id : Text) (now : ℕ) (items : List Item)
    → ((i : Item) → t (set_done now i) ≡ true → t i ≡ true)
    → count t (mark_done id now items) ≤ count t items
unfolding mark_done
mark_done-count t id now items h =
    let d = update_first (λ i. i.id == id) (set_done now) items in
    omega (
      arith,
      parts-count t (is_status pending) (is_status done) 200 d (λ i e. ground arith),
      count-update_first-le t (λ i. i.id == id) (set_done now) items h,
    )

-- The three classes of items share none.
count-three :
    (t : Item → Bool) (xs : List Item)
    → count t (filter (is_status pending) xs)
        + (count t (filter (is_status failed) xs) + count t (filter is_closed xs))
      ≤ count t xs
unfolding count filter
count-three t [] = omega arith
count-three t (x ∷ xs) = ground (arith, count-three t xs)

done_not_waiting :
    (q : Publish) (now : ℕ) (i : Item)
    → is_waiting q (set_done now i) ≡ true
    → is_waiting q i ≡ true
unfolding is_waiting set_done
done_not_waiting q now i h = ground arith

failed_not_waiting :
    (q : Publish) (error : Text) (now : ℕ) (i : Item)
    → is_waiting q (set_failed error now i) ≡ true
    → is_waiting q i ≡ true
unfolding is_waiting set_failed
failed_not_waiting q error now i h = ground arith

skipped_not_waiting :
    (q : Publish) (reason : Text) (now : ℕ) (i : Item)
    → is_waiting q (set_skipped reason now i) ≡ true
    → is_waiting q i ≡ true
unfolding is_waiting set_skipped
skipped_not_waiting q reason now i h = ground arith

mark_skipped-count :
    (t : Item → Bool) (id reason : Text) (now : ℕ) (items : List Item)
    → ((i : Item) → t (set_skipped reason now i) ≡ true → t i ≡ true)
    → count t (mark_skipped id reason now items) ≤ count t items
unfolding mark_skipped
mark_skipped-count t id reason now items h =
    let s = update_first (λ i. i.id == id) (set_skipped reason now) items in
    let ps = filter (is_status pending) s in
    let fs = filter (is_status failed) s in
    let cs = last_n 200 (filter is_closed s) in
    omega (
      arith,
      count-append t ps (fs ++ cs),
      count-append t fs cs,
      count-last_n-le t 200 (filter is_closed s),
      count-three t s,
      count-update_first-le t (λ i. i.id == id) (set_skipped reason now) items h,
    )

clear-count :
    (t : Item → Bool) (s : Option Status) (items : List Item)
    → count t (clear s items).1 ≤ count t items
unfolding clear count
clear-count t none items = omega arith
clear-count t (some s) items = count-filter-le t (λ i. not (is_status s i)) items

add-UniqueIds :
    (p : Publish) (id : Text) (now : ℕ) (items : List Item)
    → count (λ i. i.id == id) items ≡ 0
    → UniqueIds items
    → UniqueIds (items ++ new_item p id now ∷ [])
unfolding count new_item
add-UniqueIds p id now items fresh u k = elim (text_eq.dec id k) [
  | yes same ↦
      let fresh_k : count (λ i. i.id == k) items ≡ 0 = rw (← same) fresh in
      omega (
        arith,
        count-append (λ i. i.id == k) items (new_item p id now ∷ []),
        count_one (λ i. i.id == k) (new_item p id now),
        fresh_k,
      )
  | no apart ↦
      let none_k : count (λ i. i.id == k) (new_item p id now ∷ []) ≡ 0 = ground arith in
      omega (arith, count-append (λ i. i.id == k) items (new_item p id now ∷ []), u k, none_k)
]

-- Every method keeps the invariant.
pub Step-IsValid : {xs ys : List Item} → Step xs ys → IsValid xs → IsValid ys
unfolding set_done set_failed mark_failed set_skipped
Step-IsValid (added p id now items fresh) v = elim (Option-cases (find? (is_waiting p) items)) [
  | inl absent ↦ rw (add_new p id now items absent) (record {
    ids = add-UniqueIds p id now items fresh v.ids;
    twins = add-NoTwins p id now items absent v.twins;
  })
  | inr (i, found) ↦ rw (add_old p id now items i found) v
]
Step-IsValid (finished id now items) v = record {
  ids = λ k. le_trans (mark_done-count (λ i. i.id == k) id now items (λ i h. h)) (v.ids k);
  twins = λ q.
      le_trans (mark_done-count (is_waiting q) id now items (done_not_waiting q now)) (v.twins q);
}
Step-IsValid (broke id error now items) v = record {
  ids = λ k.
      le_trans
        (count-update_first-le (λ i. i.id == k) (λ i. i.id == id) (set_failed error now) items
          (λ i h. h))
        (v.ids k);
  twins = λ q.
      le_trans
        (count-update_first-le (is_waiting q) (λ i. i.id == id) (set_failed error now) items
          (failed_not_waiting q error now))
        (v.twins q);
}
Step-IsValid (passed_over id reason now items) v = record {
  ids =
      λ k. le_trans (mark_skipped-count (λ i. i.id == k) id reason now items (λ i h. h)) (v.ids k);
  twins = λ q.
      le_trans
        (mark_skipped-count (is_waiting q) id reason now items (skipped_not_waiting q reason now))
        (v.twins q);
}
Step-IsValid (cleared s items) v = record {
  ids = λ k. le_trans (clear-count (λ i. i.id == k) s items) (v.ids k);
  twins = λ q. le_trans (clear-count (is_waiting q) s items) (v.twins q);
}

-- From an empty file, whatever methods are called in whatever order, ids stay unique and the messages
-- of a source are pending once at most.
pub Reach-IsValid : {items : List Item} → Reach items → IsValid items
unfolding count
Reach-IsValid start = record { ids = λ k. omega arith; twins = λ q. omega arith }
Reach-IsValid (next r s) = Step-IsValid s (Reach-IsValid r)
