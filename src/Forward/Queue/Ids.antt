-- ===== src/Forward/Queue/Ids.antt =====
-- The ids and the pending twins of the publish queue (modules/channel_forward/queue.py).
use telegram_auto.Prelude.{
  ℕ, ◌≤◌, ◌≡◌, Bool, true, false, none, some, List, [], ◌∷◌, ◌++◌, Text, arith, nat_eq, text_eq,
  last_n, filter, find?, inl, inr, Option-cases, Bool-cases,
}
use mathlib.Core.Path.{fun_ext}
use telegram_auto.Prelude.Filters.{
  count, count-append, count-filter_disjoint, count-last_n-le, find?-none, find?-append_none,
}
use telegram_auto.Forward.Queue.{Item, Publish, is_waiting, new_item, add}
use telegram_auto.Forward.Queue.Pending.{UniqueIds}

-- At most one pending item for the messages of a source.
abbrev pub NoTwins : List Item → Type 0
NoTwins items = (p : Publish) → count (is_waiting p) items ≤ 1

pub record IsValid (items : List Item) : Type 0 where
  pub ids : UniqueIds items
  pub twins : NoTwins items

pub add_new :
    (p : Publish) (id : Text) (now : ℕ) (items : List Item)
    → find? (is_waiting p) items ≡ none
    → add p id now items ≡ (id, items ++ new_item p id now ∷ [])
unfolding add
add_new p id now items h = rw (h, add)

pub add_old :
    (p : Publish) (id : Text) (now : ℕ) (items : List Item) (i : Item)
    → find? (is_waiting p) items ≡ some i
    → add p id now items ≡ (i.id, items)
unfolding add
add_old p id now items i h = rw (h, add)

is_waiting-new_item : (p : Publish) (id : Text) (now : ℕ) → is_waiting p (new_item p id now) ≡ true
unfolding is_waiting new_item
is_waiting-new_item p id now = ground arith

-- After `add` the publish is pending, under the id that `add` returned.
pub find?-add :
    (p : Publish) (id : Text) (now : ℕ) (items : List Item)
    → (i : Item) × (find? (is_waiting p) (add p id now items).1 ≡ some i)
      × (i.id ≡ (add p id now items).0)
unfolding new_item
find?-add p id now items = elim (Option-cases (find? (is_waiting p) items)) [
  | inl absent ↦ (
    new_item p id now,
    rw (add_new p id now items absent) (
        find?-append_none (is_waiting p) items (new_item p id now) absent
          (is_waiting-new_item p id now)),
    rw (add_new p id now items absent),
  )
  | inr (i, found) ↦
      (i, rw (add_old p id now items i found) found, rw (add_old p id now items i found))
]

waiting_agree :
    (p q : Publish) (id : Text) (now : ℕ) (i : Item)
    → is_waiting q (new_item p id now) ≡ true
    → is_waiting q i ≡ is_waiting p i
unfolding is_waiting new_item
waiting_agree p q id now i h = ground arith

pub count_one {ℓ} : {A : Type ℓ} (t : A → Bool) (x : A) → count t (x ∷ []) ≤ 1
unfolding count
count_one t x = ground arith

-- The messages of a publish are added once.
pub add-NoTwins :
    (p : Publish) (id : Text) (now : ℕ) (items : List Item)
    → find? (is_waiting p) items ≡ none
    → NoTwins items
    → NoTwins (items ++ new_item p id now ∷ [])
unfolding count
add-NoTwins p id now items absent h q = elim (Bool-cases (is_waiting q (new_item p id now))) [
  | inl same ↦
      let zero_q : count (is_waiting q) items ≡ 0 =
        rw (fun_ext (λ i. waiting_agree p q id now i same))
          (find?-none (is_waiting p) items absent) in
      omega (
        arith,
        count-append (is_waiting q) items (new_item p id now ∷ []),
        count_one (is_waiting q) (new_item p id now),
        zero_q,
      )
  | inr apart ↦
      let none_q : count (is_waiting q) (new_item p id now ∷ []) ≡ 0 = ground arith in
      omega (arith, count-append (is_waiting q) items (new_item p id now ∷ []), h q, none_q)
]

-- The items of two disjoint classes, the second cut, repeat no id and no messages.
pub parts-count :
    (t p q : Item → Bool) (n : ℕ) (xs : List Item)
    → ((i : Item) → q i ≡ true → p i ≡ false)
    → count t (filter p xs ++ last_n n (filter q xs)) ≤ count t xs
parts-count t p q n xs h = omega (
  arith,
  count-append t (filter p xs) (last_n n (filter q xs)),
  count-last_n-le t n (filter q xs),
  count-filter_disjoint t p q xs h,
)
