-- ===== src/Pool/Order.antt =====
-- The order in which items are listed, and which raw item is next.
use telegram_auto.Prelude.{
  ℕ, zero, suc, ◌≤◌, max, ◌≡◌, refl, ap, ◌∙◌, Bool, true, false, not, ◌&&◌, ◌||◌, none, some, List,
  [], ◌∷◌, Text, arith, leb, leb→le, text_eq, if◌then◌else◌, inl, inr, Bool-cases, length, filter,
  take, find?, All, contains,
}
use mathlib.Core.Path.{subst}
use telegram_auto.Prelude.Filters.{count, All-filter, find?-some}
use telegram_auto.Pool.{
  Status, raw, Item, Items, values, insert_newest, newest_first, has_status, list_by_status,
  next_raw,
}

-- from the newest to the oldest
abbrev pub NewestFirst : List Item → Type 0
NewestFirst [] = Unit
NewestFirst (i ∷ is) = All (λ j. j.updated_at ≤ i.updated_at) is × NewestFirst is

All-insert_newest :
    (P : Item → Type 0) (i : Item) (is : List Item) → P i → All P is → All P (insert_newest i is)
unfolding insert_newest
All-insert_newest P i [] p h = (p, tt)
All-insert_newest P i (j ∷ js) p h =
    elim (leb j.updated_at i.updated_at)
      as (λ b. All P (if b then i ∷ j ∷ js else j ∷ insert_newest i js)) [
        | true ↦ (p, h)
        | false ↦ (h.0, All-insert_newest P i js p h.1)
      ]

All-newest_first : (P : Item → Type 0) (is : List Item) → All P is → All P (newest_first is)
unfolding newest_first
All-newest_first P [] h = tt
All-newest_first P (i ∷ is) h =
    All-insert_newest P i (newest_first is) h.0 (All-newest_first P is h.1)

below :
    (a b : ℕ) (is : List Item)
    → a ≤ b
    → All (λ j. j.updated_at ≤ a) is
    → All (λ j. j.updated_at ≤ b) is
below a b [] l h = tt
below a b (i ∷ is) l h = (omega (arith, h.0), below a b is l h.1)

insert_newest-NewestFirst :
    (i : Item) (is : List Item) → NewestFirst is → NewestFirst (insert_newest i is)
unfolding insert_newest
insert_newest-NewestFirst i [] h = (tt, tt)
insert_newest-NewestFirst i (j ∷ js) h = elim (Bool-cases (leb j.updated_at i.updated_at)) [
  | inl le ↦
      let l = leb→le j.updated_at i.updated_at le in
      rw le ((l, below j.updated_at i.updated_at js l h.0), h)
  | inr gt ↦ rw gt (
    All-insert_newest (λ k. k.updated_at ≤ j.updated_at) i js (ground arith) h.0,
    insert_newest-NewestFirst i js h.1,
  )
]

newest_first-NewestFirst : (is : List Item) → NewestFirst (newest_first is)
unfolding newest_first
newest_first-NewestFirst [] = tt
newest_first-NewestFirst (i ∷ is) =
    insert_newest-NewestFirst i (newest_first is) (newest_first-NewestFirst is)

take-All : (P : Item → Type 0) (n : ℕ) (is : List Item) → All P is → All P (take n is)
take-All P zero is h = tt
take-All P (suc n) [] h = tt
take-All P (suc n) (i ∷ is) h = (h.0, take-All P n is h.1)

length-take_le : (n : ℕ) (is : List Item) → length (take n is) ≤ n
length-take_le zero is = omega arith
length-take_le (suc n) [] = omega arith
length-take_le (suc n) (i ∷ is) = omega (arith, length-take_le n is)

take-NewestFirst : (n : ℕ) (is : List Item) → NewestFirst is → NewestFirst (take n is)
take-NewestFirst zero is h = tt
take-NewestFirst (suc n) [] h = tt
take-NewestFirst (suc n) (i ∷ is) h =
    (take-All (λ j. j.updated_at ≤ i.updated_at) n is h.0, take-NewestFirst n is h.1)

-- A listing by status has only items of that status, from the newest to the oldest, and at most as
-- many as the limit says, or one.
pub list_by_status_lem :
    (status : Status) (limit : ℕ) (items : Items)
    → All (λ i. has_status status i ≡ true) (list_by_status (some status) limit items)
      × NewestFirst (list_by_status (some status) limit items)
      × (length (list_by_status (some status) limit items) ≤ max 1 limit)
unfolding list_by_status
list_by_status_lem status limit items =
    let found = filter (has_status status) (values items) in
    (
      take-All (λ i. has_status status i ≡ true) (max 1 limit) (newest_first found)
          (All-newest_first (λ i. has_status status i ≡ true) found
            (All-filter (has_status status) (values items))),
      take-NewestFirst (max 1 limit) (newest_first found) (newest_first-NewestFirst found),
      length-take_le (max 1 limit) (newest_first found),
    )

-- how many items of a status are at least as new as an item
abbrev pub count_newer : Status → Item → List Item → ℕ
count_newer s j = count (λ k. has_status s k && leb j.updated_at k.updated_at)

head_found :
    (p : Item → Bool) (j i : Item) (js : List Item) → p j ≡ true → find? p (j ∷ js) ≡ some i → j ≡ i
unfolding find?
head_found p j i js a e =
    let found : some j ≡ some i = ground arith in ap (λ o. elim o [ none ↦ j | some k ↦ k ]) found

found-All :
    (P : Item → Type 0) (p : Item → Bool) (is : List Item) (i : Item)
    → All P is
    → find? p is ≡ some i
    → P i
unfolding find?
found-All P p [] i h e = absurd cc
found-All P p (j ∷ js) i h e = elim (Bool-cases (p j)) [
  | inl a ↦ subst P (head_found p j i js a e) h.0
  | inr a ↦ found-All P p js i h.1 (ground arith)
]

none_found :
    (skip : List Text) (is : List Item)
    → find? (λ i. not (contains skip i.key)) is ≡ none
    → All (λ i. contains skip i.key ≡ true) is
unfolding find?
none_found skip [] e = tt
none_found skip (i ∷ is) e = (ground arith, none_found skip is (ground arith))

older_pass :
    (skip : List Text) (i : Item) (is : List Item)
    → All (λ j. j.updated_at ≤ i.updated_at) is
    → All (λ j. (contains skip j.key || leb j.updated_at i.updated_at) ≡ true) is
older_pass skip i [] h = tt
older_pass skip i (j ∷ js) h = (ground (arith, h.0), older_pass skip i js h.1)

find?-newest :
    (skip : List Text) (is : List Item) (i : Item)
    → NewestFirst is
    → find? (λ j. not (contains skip j.key)) is ≡ some i
    → All (λ j. (contains skip j.key || leb j.updated_at i.updated_at) ≡ true) is
unfolding find?
find?-newest skip [] i h e = tt
find?-newest skip (j ∷ js) i h e = elim (Bool-cases (contains skip j.key)) [
  | inl a ↦ (ground arith, find?-newest skip js i h.1 (ground arith))
  | inr a ↦
      let same = head_found (λ k. not (contains skip k.key)) j i js (ground arith) e in
      older_pass skip i (j ∷ js)
        (subst (λ k. All (λ l. l.updated_at ≤ k.updated_at) (j ∷ js)) same (omega arith, h.0))
]

not-true : (b : Bool) → not b ≡ true → b ≡ false
not-true b h = ground arith

-- An item passes a test, or as many items are at least as new as it.
abbrev Beyond : (Item → Bool) → ℕ → List Item → Item → Type 0
Beyond t n is j = (t j || leb n (count (λ k. leb j.updated_at k.updated_at) is)) ≡ true

Beyond-cons :
    (t : Item → Bool) (n : ℕ) (i : Item) (is js : List Item)
    → All (λ j. j.updated_at ≤ i.updated_at) js
    → All (Beyond t n is) js
    → All (Beyond t (suc n) (i ∷ is)) js
unfolding count
Beyond-cons t n i is [] older h = tt
Beyond-cons t n i is (j ∷ js) older h =
    (ground (arith, older.0, h.0), Beyond-cons t n i is js older.1 h.1)

Beyond-zero : (t : Item → Bool) (is js : List Item) → All (Beyond t 0 is) js
Beyond-zero t is [] = tt
Beyond-zero t is (j ∷ js) = (ground arith, Beyond-zero t is js)

-- Of items from the newest to the oldest of which the first ones pass a test, each passes it or has
-- as many at least as new.
All-Beyond :
    (t : Item → Bool) (n : ℕ) (is : List Item)
    → NewestFirst is
    → All (λ j. t j ≡ true) (take n is)
    → All (Beyond t n is) is
All-Beyond t zero is s h = Beyond-zero t is is
All-Beyond t (suc n) [] s h = tt
All-Beyond t (suc n) (i ∷ is) s h =
    (ground (arith, h.0), Beyond-cons t n i is is s.0 (All-Beyond t n is s.1 h.1))

All-insert_newest_back :
    (P : Item → Type 0) (i : Item) (is : List Item) → All P (insert_newest i is) → P i × All P is
unfolding insert_newest
All-insert_newest_back P i [] h = h
All-insert_newest_back P i (j ∷ js) h = elim (Bool-cases (leb j.updated_at i.updated_at)) [
  | inl le ↦ let h' : P i × (P j × All P js) = rw le at h in (h'.0, h'.1)
  | inr gt ↦
      let h' : P j × All P (insert_newest i js) = rw gt at h in
      let (p, rest) = All-insert_newest_back P i js h'.1 in (p, (h'.0, rest))
]

All-newest_first_back : (P : Item → Type 0) (is : List Item) → All P (newest_first is) → All P is
unfolding newest_first
All-newest_first_back P [] h = tt
All-newest_first_back P (i ∷ is) h =
    let (p, rest) = All-insert_newest_back P i (newest_first is) h in
    (p, All-newest_first_back P is rest)

count-insert_newest :
    (t : Item → Bool) (i : Item) (is : List Item) → count t (insert_newest i is) ≡ count t (i ∷ is)
unfolding count insert_newest
count-insert_newest t i [] = refl
count-insert_newest t i (j ∷ js) = ground (arith, count-insert_newest t i js)

count-newest_first : (t : Item → Bool) (is : List Item) → count t (newest_first is) ≡ count t is
unfolding count newest_first
count-newest_first t [] = refl
count-newest_first t (i ∷ is) =
    ground (arith, count-insert_newest t i (newest_first is), count-newest_first t is)

count-filter :
    (p t : Item → Bool) (is : List Item) → count t (filter p is) ≡ count (λ k. p k && t k) is
unfolding count filter
count-filter p t [] = refl
count-filter p t (i ∷ is) = ground (arith, count-filter p t is)

-- What holds of the items of a status by the sorted ones, said of the pool.
pool-Beyond :
    (s : Status) (t : Item → Bool) (n : ℕ) (all is : List Item)
    → All (Beyond t n (newest_first (filter (has_status s) all))) (filter (has_status s) is)
    → All (λ j. (not (has_status s j) || t j || leb n (count_newer s j all)) ≡ true) is
unfolding filter
pool-Beyond s t n all [] h = tt
pool-Beyond s t n all (j ∷ js) h =
    let at_least : Item → Bool = λ k. leb j.updated_at k.updated_at in
    let same =
      count-newest_first at_least (filter (has_status s) all)
      ∙ count-filter (has_status s) at_least all in
    elim (Bool-cases (has_status s j)) [
      | inl of_status ↦
          let h' : All (Beyond t n (newest_first (filter (has_status s) all)))
              (j ∷ filter (has_status s) js) =
            rw of_status at h in
          (ground (arith, same, h'.0), pool-Beyond s t n all js h'.1)
      | inr other ↦ (ground arith, pool-Beyond s t n all js (rw other at h))
    ]

pool_passes :
    (t : Item → Bool) (items : Items)
    → All (λ j. t j ≡ true) (list_by_status (some raw) 500 items)
    → All
        (λ j. (not (has_status raw j) || t j || leb 500 (count_newer raw j (values items))) ≡ true)
        (values items)
unfolding list_by_status
pool_passes t items h =
    let found = filter (has_status raw) (values items) in
    pool-Beyond raw t 500 (values items) (values items) (
      All-newest_first_back (Beyond t 500 (newest_first found)) found
        (All-Beyond t 500 (newest_first found) (newest_first-NewestFirst found) h))

-- The next raw item has the status raw and none of the keys to leave out, and it is the newest of
-- those that can be next: each raw item of the pool has a key to leave out, is no newer than it, or
-- has 500 raw items of the pool at least as new as itself.
pub next_raw_lem :
    (skip : List Text) (items : Items) (i : Item)
    → next_raw skip items ≡ some i
    → (has_status raw i ≡ true)
      × (contains skip i.key ≡ false)
      × All
          (λ j.
            (not (has_status raw j)
              || (contains skip j.key || leb j.updated_at i.updated_at)
              || leb 500 (count_newer raw j (values items)))
            ≡ true)
          (values items)
unfolding next_raw
next_raw_lem skip items i e =
    let free : Item → Bool = λ j. not (contains skip j.key) in
    let listed = list_by_status (some raw) 500 items in
    let shape = list_by_status_lem raw 500 items in
    (
      found-All (λ j. has_status raw j ≡ true) free listed i shape.0 e,
      not-true (contains skip i.key) (find?-some free listed {x = i} e),
      pool_passes (λ j. contains skip j.key || leb j.updated_at i.updated_at) items
          (find?-newest skip listed i shape.1 e),
    )

-- Where there is no next raw item, each raw item of the pool has a key to leave out or 500 raw items
-- of the pool at least as new as itself.
pub next_raw-none :
    (skip : List Text) (items : Items)
    → next_raw skip items ≡ none
    → All
        (λ j.
          (not (has_status raw j)
            || contains skip j.key
            || leb 500 (count_newer raw j (values items)))
          ≡ true)
        (values items)
unfolding next_raw
next_raw-none skip items e =
    pool_passes (λ j. contains skip j.key) items
      (none_found skip (list_by_status (some raw) 500 items) e)
