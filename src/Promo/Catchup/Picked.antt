-- ===== src/Promo/Catchup/Picked.antt =====
-- Which posts are caught up (modules/promo_spread/catchup.py).
use telegram_auto.Prelude.{
  ℕ, suc, ◌+◌, ◌≤◌, ◌<◌, ◌≡◌, refl, ap, ◌∙◌, Bool, true, false, ◌&&◌, List, [], ◌∷◌, ◌++◌, map,
  ◌==◌, nat_eq, if◌then◌else◌, length, last_n, last_n_of_length-le, length-last_n-le, All,
  All-append, All-last_n, arith, inl, inr, Bool-cases,
}
use mathlib.Core.Path.{subst}
use telegram_auto.Prelude.Dict
use telegram_auto.Prelude.Dict.{Dict}
use telegram_auto.Prelude.Filters.{count, count-append}
use telegram_auto.Prelude.Sort.{insert_by, sort_by, All-sort_by, length-sort_by}
use telegram_auto.Promo.Catchup.{
  Message, Key, key_eq, key_of, is_recent, add_post, collect_posts, values_of, first_id,
  select_catchup_posts, group_or_empty,
}

-- how many messages of the groups pass a test
unfoldable pub total : (Message → Bool) → List (List Message) → ℕ
unfolding count
total t [] = 0
total t (ms ∷ groups) = count t ms + total t groups

module _ (t : Message → Bool) where
  total-insert :
      (k : Key) (v w : List Message) (posts : Dict Key (List Message))
      → group_or_empty (Dict.lookup k posts) ≡ v
      → total t (values_of (Dict.insert k w posts)) + count t v
        ≡ total t (values_of posts) + count t w
  unfolding total Dict.lookup Dict.insert count
  total-insert k v w [] = λ h. ground (arith, ap (count t) h)
  total-insert k v w ((j, u) ∷ posts) = elim (Bool-cases (k == j)) [
    | inl same ↦ rw same (λ h. omega (arith, ap (count t) h))
    | inr other ↦ rw other (λ h. omega (arith, total-insert k v w posts h))
  ]

  total-add_post :
      (m : Message) (posts : Dict Key (List Message))
      → total t (values_of (add_post m posts))
        ≡ (if t m then suc (total t (values_of posts)) else total t (values_of posts))
  unfolding add_post count
  total-add_post m posts =
      let v = group_or_empty (Dict.lookup (key_of m) posts) in
      ground (arith, total-insert (key_of m) v (v ++ m ∷ []) posts refl, count-append t v (m ∷ []))

  total-collect_posts :
      (cutoff : ℕ) (messages : List Message) (posts : Dict Key (List Message))
      → total t (values_of (collect_posts cutoff messages posts))
        ≡ total t (values_of posts) + count (λ m. is_recent cutoff m && t m) messages
  unfolding collect_posts count
  total-collect_posts cutoff [] posts = omega arith
  total-collect_posts cutoff (m ∷ messages) posts = elim (Bool-cases (is_recent cutoff m)) [
    | inl recent ↦ rw recent (
        ground
          (arith, total-collect_posts cutoff messages (add_post m posts), total-add_post m posts))
    | inr old ↦ rw old (ground (arith, total-collect_posts cutoff messages posts))
  ]

  total-insert_by :
      (ms : List Message) (groups : List (List Message))
      → total t (insert_by first_id ms groups) ≡ count t ms + total t groups
  unfolding insert_by total
  total-insert_by ms [] = refl
  total-insert_by ms (ns ∷ groups) = ground (arith, total-insert_by ms groups)

  total-sort_by :
      (groups : List (List Message)) → total t (sort_by first_id groups) ≡ total t groups
  unfolding sort_by total
  total-sort_by [] = refl
  total-sort_by (ms ∷ groups) =
      omega (arith, total-insert_by ms (sort_by first_id groups), total-sort_by groups)

  count-insert_by :
      (m : Message) (ms : List Message) → count t (insert_by (λ x. x.id) m ms) ≡ count t (m ∷ ms)
  unfolding insert_by count
  count-insert_by m [] = refl
  count-insert_by m (n ∷ ms) = ground (arith, count-insert_by m ms)

  count-sort_by : (ms : List Message) → count t (sort_by (λ x. x.id) ms) ≡ count t ms
  unfolding sort_by count
  count-sort_by [] = refl
  count-sort_by (m ∷ ms) =
      count-insert_by m (sort_by (λ x. x.id) ms) ∙ ground (arith, count-sort_by ms)

  total-map_sort :
      (groups : List (List Message)) → total t (map (sort_by (λ x. x.id)) groups) ≡ total t groups
  unfolding total
  total-map_sort [] = refl
  total-map_sort (ms ∷ groups) = omega (arith, count-sort_by ms, total-map_sort groups)

length-map_sort :
    (groups : List (List Message)) → length (map (sort_by (λ x. x.id)) groups) ≡ length groups
length-map_sort [] = refl
length-map_sort (ms ∷ groups) = omega (arith, length-map_sort groups)

abbrev chosen : List Message → ℕ → ℕ → List (List Message)
chosen messages cutoff limit =
    last_n limit (sort_by first_id (values_of (collect_posts cutoff messages [])))

-- No more posts are picked than the limit allows.
pub length-select_catchup_posts :
    (messages : List Message) (cutoff limit : ℕ)
    → length (select_catchup_posts messages cutoff limit) ≤ limit
unfolding select_catchup_posts
length-select_catchup_posts messages cutoff limit =
    let cut =
      length-last_n-le limit (sort_by first_id (values_of (collect_posts cutoff messages []))) in
    ground (arith, length-map_sort (chosen messages cutoff limit), cut)

-- Where there are no more posts than the limit, which is not zero, no recent message is lost or
-- taken twice: for every test, as many messages of the picked posts pass it as recent messages of
-- the history.
pub total-select_catchup_posts :
    (t : Message → Bool) (messages : List Message) (cutoff limit : ℕ)
    → 0 < limit
    → length (values_of (collect_posts cutoff messages [])) ≤ limit
    → total t (select_catchup_posts messages cutoff limit)
      ≡ count (λ m. is_recent cutoff m && t m) messages
unfolding select_catchup_posts total
total-select_catchup_posts t messages cutoff limit pos room =
    let groups = values_of (collect_posts cutoff messages []) in
    let some_limit : (limit == 0) ≡ false = ground arith in
    let whole =
      last_n_of_length-le limit (sort_by first_id groups)
        (omega (arith, length-sort_by first_id groups)) in
    rw some_limit (
      total-map_sort t (chosen messages cutoff limit)
      ∙ ap (total t) whole
      ∙ total-sort_by t groups
      ∙ total-collect_posts t cutoff messages []
      ∙ omega arith)

module _ (cutoff : ℕ) where
  -- a recent message of the post with the key
  abbrev belongs : Key → Message → Bool
  belongs k m = is_recent cutoff m && key_of m == k

  abbrev Grouped : Dict Key (List Message) → Type 0
  Grouped posts = All (λ e. All (λ m. belongs e.0 m ≡ true) e.1) posts

  abbrev AllBelong : Key → List Message → Type 0
  AllBelong k ms = All (λ m. belongs k m ≡ true) ms

  lookup-AllBelong :
      (k : Key) (posts : Dict Key (List Message))
      → Grouped posts
      → AllBelong k (group_or_empty (Dict.lookup k posts))
  unfolding Dict.lookup
  lookup-AllBelong k [] h = tt
  lookup-AllBelong k ((j, u) ∷ posts) h = elim (Bool-cases (k == j)) [
    | inl same ↦ let p : j ≡ k = ground (arith, same) in rw same (subst (λ x. AllBelong x u) p h.0)
    | inr other ↦ rw other (lookup-AllBelong k posts h.1)
  ]

  insert-Grouped :
      (k : Key) (w : List Message) (posts : Dict Key (List Message))
      → AllBelong k w
      → Grouped posts
      → Grouped (Dict.insert k w posts)
  unfolding Dict.insert
  insert-Grouped k w [] a h = (a, tt)
  insert-Grouped k w ((j, u) ∷ posts) a h = elim (Bool-cases (k == j)) [
    | inl same ↦
        let p : k ≡ j = ground (arith, same) in rw same (subst (λ x. AllBelong x w) p a, h.1)
    | inr other ↦ rw other (h.0, insert-Grouped k w posts a h.1)
  ]

  add_post-Grouped :
      (m : Message) (posts : Dict Key (List Message))
      → is_recent cutoff m ≡ true
      → Grouped posts
      → Grouped (add_post m posts)
  unfolding add_post
  add_post-Grouped m posts r h =
      let old = group_or_empty (Dict.lookup (key_of m) posts) in
      insert-Grouped (key_of m) (old ++ m ∷ []) posts
        (All-append (λ x. belongs (key_of m) x ≡ true) old (m ∷ [])
          (lookup-AllBelong (key_of m) posts h) (ground (arith, r), tt))
        h

  collect_posts-Grouped :
      (messages : List Message) (posts : Dict Key (List Message))
      → Grouped posts
      → Grouped (collect_posts cutoff messages posts)
  unfolding collect_posts
  collect_posts-Grouped [] posts h = h
  collect_posts-Grouped (m ∷ messages) posts h = elim (Bool-cases (is_recent cutoff m)) [
    | inl recent ↦
        rw recent
          (collect_posts-Grouped messages (add_post m posts) (add_post-Grouped m posts recent h))
    | inr old ↦ rw old (collect_posts-Grouped messages posts h)
  ]

  -- The messages of a post: recent ones, of one key.
  abbrev pub IsPost : List Message → Type 0
  IsPost ms = (k : Key) × All (λ m. is_recent cutoff m && key_of m == k ≡ true) ms

  values_of-IsPost :
      (posts : Dict Key (List Message)) → Grouped posts → All IsPost (values_of posts)
  values_of-IsPost [] h = tt
  values_of-IsPost ((k, ms) ∷ posts) h = ((k, h.0), values_of-IsPost posts h.1)

  map_sort-IsPost :
      (groups : List (List Message))
      → All IsPost groups
      → All IsPost (map (sort_by (λ x. x.id)) groups)
  map_sort-IsPost [] h = tt
  map_sort-IsPost (ms ∷ groups) ((k, h), hs) =
      ((k, All-sort_by (λ x. x.id) (λ m. belongs k m ≡ true) ms h), map_sort-IsPost groups hs)

  -- What is picked are posts: messages that are no actions, have an id and are no older than the
  -- cutoff, those of a post all of one album, or all with one id.
  pub select_catchup_posts-IsPost :
      (messages : List Message) (limit : ℕ)
      → All IsPost (select_catchup_posts messages cutoff limit)
  unfolding select_catchup_posts
  select_catchup_posts-IsPost messages limit =
      let groups = values_of (collect_posts cutoff messages []) in
      elim (Bool-cases (limit == 0)) [
        | inl nothing ↦ rw nothing tt
        | inr some_ ↦ rw some_ (
            map_sort-IsPost (chosen messages cutoff limit) (
              All-last_n IsPost limit (sort_by first_id groups) (
                All-sort_by first_id IsPost groups (
                  values_of-IsPost (collect_posts cutoff messages [])
                    (collect_posts-Grouped messages [] tt)))))
      ]
