-- ===== src/Forward/Catchup/Albums.antt =====
-- What a batch of the catch-up holds, and how new its messages are
-- (modules/channel_forward/catchup.py).
use telegram_auto.Prelude.{
  ℕ, suc, ◌-◌, max, min, ◌≤◌, ◌<◌, ◌≡◌, refl, sym, Bool, true, not, ◌&&◌, ◌||◌, Option, none, some,
  List, [], ◌∷◌, ltb, leb, ◌==◌, nat_eq, length, filter, any, All, All-append, arith, Bool-cases,
  inl, inr,
}
use mathlib.Core.Path.{subst}
use telegram_auto.Prelude.Dict
use telegram_auto.Prelude.Dict.{Dict}
use telegram_auto.Prelude.Filters.{filter-All}
use telegram_auto.Prelude.Sort.{sort_by, All-sort_by}
use telegram_auto.Forward.Catchup.{
  Post, post_id, close_batch, next_batch, split_batches, index_by_id, values_of, is_sibling, lowest,
  merge_extra, Client, refill, refill_all, fetched_posts, batches_of, last_or_zero, missed_batches,
}

abbrev pub all_above : ℕ → Option (List Post) → Bool
all_above low none = true
all_above low (some ms) = not (any (λ m. leb (post_id m) low) ms)

-- What the client's documentation says of `min_id`: only messages with greater ids are returned.
abbrev pub HonoursMinId : Client → Type 0
HonoursMinId get = (n low limit : ℕ) → all_above low (get n low limit) ≡ true

-- All of the list lies behind an id and is of one group.
abbrev pub IsPart : ℕ → ℕ → List Post → Type 0
IsPart last gid batch = All (λ m. (last < post_id m) × (m.grouped_id ≡ gid)) batch

-- An album, or one single message, behind an id.
abbrev pub IsBatch : ℕ → List Post → Type 0
IsBatch last batch =
    (gid : ℕ) × IsPart last gid batch × ((not (gid == 0) || length batch == 1) ≡ true)

module _ (last : ℕ) where
  close_batch-IsBatch :
      (gid : ℕ) (batch : List Post)
      → IsPart last gid batch
      → (not (gid == 0) || length batch == 0) ≡ true
      → All (IsBatch last) (close_batch batch)
  close_batch-IsBatch gid [] h g = tt
  close_batch-IsBatch gid (m ∷ batch) h g = ((gid, h, ground (arith, g)), tt)

  -- the album that is being read
  abbrev IsOpen : ℕ → List Post → Type 0
  IsOpen gid batch = IsPart last gid batch × ((not (gid == 0) || length batch == 0) ≡ true)

  next_batch-IsBatch :
      (gid : ℕ) (batch : List Post) (m : Post)
      → IsOpen gid batch
      → last < post_id m
      → let (ended, gid', batch') = next_batch gid batch m in
        All (IsBatch last) ended × IsOpen gid' batch'
  unfolding next_batch
  next_batch-IsBatch gid batch m o lt_ =
      let closed = close_batch-IsBatch gid batch o.0 o.1 in
      elim (Bool-cases (not (gid == 0) && m.grouped_id == gid)) [
        | inl more ↦ rw more (
          tt,
          (
            All-append (λ (x : Post). (last < post_id x) × (x.grouped_id ≡ gid)) batch (m ∷ []) o.0
                ((lt_, ground (arith, more)), tt),
            ground (arith, more),
          ),
        )
        | inr over ↦ elim (Bool-cases m.is_action) [
          | inl action ↦ simp (over, action) (closed, (tt, refl))
          | inr post ↦ elim (Bool-cases (m.grouped_id == 0)) [
            | inl single ↦
                simp (over, post, single)
                  (
                    All-append (IsBatch last) (close_batch batch) ((m ∷ []) ∷ []) closed
                        ((0, ((lt_, ground (arith, single)), tt), refl), tt),
                    (tt, refl),
                  )
            | inr album ↦
                simp (over, post, album) (closed, (((lt_, refl), tt), ground (arith, album)))
          ]
        ]
      ]

  split_batches-IsBatch :
      (gid : ℕ) (batch msgs : List Post)
      → IsOpen gid batch
      → All (λ m. last < post_id m) msgs
      → All (IsBatch last) (split_batches gid batch msgs)
  unfolding split_batches
  split_batches-IsBatch gid batch [] o h = close_batch-IsBatch gid batch o.0 o.1
  split_batches-IsBatch gid batch (m ∷ msgs) o h =
      let (ended, gid', batch') = next_batch gid batch m in
      let step = next_batch-IsBatch gid batch m o h.0 in
      All-append (IsBatch last) ended (split_batches gid' batch' msgs) step.0
        (split_batches-IsBatch gid' batch' msgs step.1 h.1)

  insert-All :
      (P : Post → Type 0) (m : Post) (d : Dict ℕ Post)
      → P m
      → All P (values_of d)
      → All P (values_of (Dict.insert (post_id m) m d))
  unfolding Dict.insert
  insert-All P m [] p h = (p, tt)
  insert-All P m ((j, x) ∷ d) p h = elim (Bool-cases (post_id m == j)) [
    | inl same ↦ rw same (p, h.1)
    | inr new ↦ rw new (h.0, insert-All P m d p h.1)
  ]

  index_by_id-All :
      (P : Post → Type 0) (ms : List Post) (d : Dict ℕ Post)
      → All P ms
      → All P (values_of d)
      → All P (values_of (index_by_id ms d))
  unfolding index_by_id
  index_by_id-All P [] d p h = h
  index_by_id-All P (m ∷ ms) d p h =
      index_by_id-All P ms (Dict.insert (post_id m) m d) p.1 (insert-All P m d p.0 h)

  siblings-IsPart :
      (gid low : ℕ) (ms : List Post)
      → last ≤ low
      → not (any (λ m. leb (post_id m) low) ms) ≡ true
      → IsPart last gid (filter (is_sibling gid) ms)
  unfolding filter any is_sibling
  siblings-IsPart gid low [] b h = tt
  siblings-IsPart gid low (m ∷ ms) b h = elim (Bool-cases (is_sibling gid m)) [
    | inl in_ ↦ rw in_ (
      (ground (arith, b, h), ground (arith, in_)),
      siblings-IsPart gid low ms b (ground (arith, h)),
    )
    | inr out_ ↦ rw out_ (siblings-IsPart gid low ms b (ground (arith, h)))
  ]

  merge_extra-IsPart :
      (gid low : ℕ) (batch : List Post) (extra : Option (List Post))
      → last ≤ low
      → all_above low extra ≡ true
      → IsPart last gid batch
      → IsPart last gid (merge_extra gid batch extra)
  unfolding merge_extra
  merge_extra-IsPart gid low batch none b h p = p
  merge_extra-IsPart gid low batch (some extra) b h p =
      let P = λ (m : Post). (last < post_id m) × (m.grouped_id ≡ gid) in
      let d = index_by_id batch [] in
      let siblings = filter (is_sibling gid) extra in
      All-sort_by post_id P (values_of (index_by_id siblings d)) (
        index_by_id-All P siblings d (siblings-IsPart gid low extra b h)
          (index_by_id-All P batch [] p tt))

  lowest-gt :
      (gid n : ℕ) (batch : List Post) → last < n → IsPart last gid batch → last < lowest n batch
  unfolding lowest
  lowest-gt gid n [] h p = h
  lowest-gt gid n (m ∷ batch) h p =
      lowest-gt gid (min n (post_id m)) batch (omega (arith, h, p.0.0)) p.1

  refill-IsBatch :
      (get : Client) (n : ℕ) (b : List Post)
      → HonoursMinId get
      → IsBatch last b
      → IsBatch last (refill get n b)
  unfolding refill
  refill-IsBatch get n [] honest h = h
  refill-IsBatch get n (m ∷ batch) honest (gid, p, s) =
      elim (Bool-cases (m.grouped_id == 0 || not (ltb (length (m ∷ batch)) 10))) [
        | inl whole ↦ rw whole (gid, p, s)
        | inr open_ ↦
            let low = lowest (post_id m) batch - 1 in
            let same : m.grouped_id ≡ gid = p.0.1 in
            let above = lowest-gt gid (post_id m) batch p.0.0 p.1 in
            rw open_ (
              m.grouped_id,
              merge_extra-IsPart m.grouped_id low (m ∷ batch) (get n low 10) (omega (arith, above))
                  (honest n low 10) (subst (λ g. IsPart last g (m ∷ batch)) (sym same) p),
              ground (arith, open_),
            )
      ]

  refill_all-IsBatch :
      (get : Client) (n : ℕ) (batches : List (List Post))
      → HonoursMinId get
      → All (IsBatch last) batches
      → All (IsBatch last) (refill_all get n batches)
  unfolding refill_all
  refill_all-IsBatch get n [] honest h = tt
  refill_all-IsBatch get n (b ∷ batches) honest h =
      (refill-IsBatch get n b honest h.0, refill_all-IsBatch get (suc n) batches honest h.1)

  above-All :
      (ms : List Post)
      → not (any (λ m. leb (post_id m) last) ms) ≡ true
      → All (λ m. last < post_id m) ms
  unfolding any
  above-All [] h = tt
  above-All (m ∷ ms) h = (ground (arith, h), above-All ms (ground (arith, h)))

  batches_of-IsBatch :
      (get : Client) (history : List Post)
      → HonoursMinId get
      → not (any (λ m. leb (post_id m) last) history) ≡ true
      → All (IsBatch last) (batches_of get history)
  unfolding batches_of fetched_posts
  batches_of-IsBatch get history honest h =
      let P = λ (m : Post). last < post_id m in
      let kept = filter (λ m. not (post_id m == 0)) history in
      refill_all-IsBatch get 1 (split_batches 0 [] (sort_by post_id kept)) honest (
        split_batches-IsBatch 0 [] (sort_by post_id kept) (tt, refl)
          (All-sort_by post_id P kept
            (filter-All P (λ m. not (post_id m == 0)) history (above-All history h))))

  history-IsBatch :
      (get : Client) (history : Option (List Post))
      → HonoursMinId get
      → all_above last history ≡ true
      → All (IsBatch last) (elim history [ none ↦ [] | some ms ↦ batches_of get ms ])
  history-IsBatch get none honest h = tt
  history-IsBatch get (some ms) honest h = batches_of-IsBatch get ms honest h

-- If the client returns only messages behind the `min_id` that it is given, then each batch that the
-- engine gets for a route is one album or one single message, and all of its messages lie behind the
-- last one seen on the route.
pub missed_batches-IsBatch :
    (get : Client) (last : Option ℕ) (limit : ℕ)
    → HonoursMinId get
    → All (IsBatch (last_or_zero last)) (missed_batches get last limit)
unfolding missed_batches
missed_batches-IsBatch get last limit honest =
    let low = last_or_zero last in
    let n = max 1 (min limit 200) in history-IsBatch low get (get 0 low n) honest (honest 0 low n)
