-- ===== src/Forward/Catchup.antt =====
-- modules/channel_forward/catchup.py, `catch_up_routes`: the posts that were missed on the routes. The
-- client's `get_messages` is an argument, by the number of the request, the `min_id` and the `limit`;
-- `none` is an exception. The moments and the answers of Telegram to the engine are arguments too.
pub mod Batches
pub mod Albums
use telegram_auto.Prelude.{
  ℕ, zero, suc, ◌+◌, ◌-◌, max, min, Bool, true, false, not, ◌&&◌, ◌||◌, Option, none, some, List,
  [], ◌∷◌, ◌++◌, map, ltb, ◌==◌, nat_eq, if◌then◌else◌, length, filter,
}
use telegram_auto.Prelude.Dict
use telegram_auto.Prelude.Dict.{Dict}
use telegram_auto.Prelude.Sort.{sort_by}
use telegram_auto.Forward.State.{get_last_seen}
use telegram_auto.Forward.Filters.{TextTools}
use telegram_auto.Forward.Delivery.{
  Message, Engine, Route, Call, Answer, returned, flood_wait, schedule_error, quota_error,
  process_messages,
}

-- a message of the history; the group is 0 where it belongs to no album
pub record Post : Type 0 where
  pub message : Message
  pub is_action : Bool
  pub grouped_id : ℕ

abbrev pub post_id : Post → ℕ
post_id m = m.message.id

-- the batch that ends, if one is open
abbrev pub close_batch : List Post → List (List Post)
close_batch [] = []
close_batch (m ∷ batch) = (m ∷ batch) ∷ []

-- what a message does to the album that is being read: the batches that end with it, and the album
-- and its messages after it
unfoldable pub next_batch : ℕ → List Post → Post → List (List Post) × ℕ × List Post
unfolding nat_eq
next_batch gid batch m =
    if not (gid == 0) && m.grouped_id == gid
    then ([], gid, batch ++ m ∷ [])
    else if m.is_action
    then (close_batch batch, 0, [])
    else if m.grouped_id == 0
    then (close_batch batch ++ (m ∷ []) ∷ [], 0, [])
    else (close_batch batch, m.grouped_id, m ∷ [])

-- the loop over the messages
unfoldable pub split_batches : ℕ → List Post → List Post → List (List Post)
unfolding next_batch
split_batches gid batch [] = close_batch batch
split_batches gid batch (m ∷ msgs) =
    let (ended, gid', batch') = next_batch gid batch m in ended ++ split_batches gid' batch' msgs

-- `by_id`, first of the batch and then of the siblings that were fetched
unfoldable pub index_by_id : List Post → Dict ℕ Post → Dict ℕ Post
unfolding Dict.insert nat_eq
index_by_id [] d = d
index_by_id (m ∷ ms) d = index_by_id ms (Dict.insert (post_id m) m d)

abbrev pub values_of : Dict ℕ Post → List Post
values_of [] = []
values_of ((k, m) ∷ d) = m ∷ values_of d

unfoldable pub is_sibling : ℕ → Post → Bool
unfolding nat_eq
is_sibling gid m = m.grouped_id == gid && not (post_id m == 0)

-- `min(m.id for m in batch)`
unfoldable pub lowest : ℕ → List Post → ℕ
lowest n [] = n
lowest n (m ∷ ms) = lowest (min n (post_id m)) ms

unfoldable pub merge_extra : ℕ → List Post → Option (List Post) → List Post
unfolding index_by_id is_sibling sort_by
merge_extra gid batch none = batch
merge_extra gid batch (some extra) =
    sort_by post_id (values_of (index_by_id (filter (is_sibling gid) extra) (index_by_id batch [])))

abbrev pub Client : Type 0
Client = ℕ → ℕ → ℕ → Option (List Post)

-- the siblings of an album of fewer than ten messages
unfoldable pub refill : Client → ℕ → List Post → List Post
unfolding merge_extra lowest nat_eq
refill get n [] = []
refill get n (m ∷ batch) =
    if m.grouped_id == 0 || not (ltb (length (m ∷ batch)) 10)
    then m ∷ batch
    else merge_extra m.grouped_id (m ∷ batch) (get n (lowest (post_id m) batch - 1) 10)

unfoldable pub refill_all : Client → ℕ → List (List Post) → List (List Post)
unfolding refill
refill_all get n [] = []
refill_all get n (b ∷ batches) = refill get n b ∷ refill_all get (suc n) batches

-- `[m for m in history if m.id]`, sorted
unfoldable pub fetched_posts : List Post → List Post
unfolding sort_by nat_eq
fetched_posts history = sort_by post_id (filter (λ m. not (post_id m == 0)) history)

unfoldable pub batches_of : Client → List Post → List (List Post)
unfolding refill_all split_batches fetched_posts
batches_of get history = refill_all get 1 (split_batches 0 [] (fetched_posts history))

abbrev pub last_or_zero : Option ℕ → ℕ
last_or_zero none = 0
last_or_zero (some last) = last

-- what a route's history holds, as the batches that the engine gets
unfoldable pub missed_batches : Client → Option ℕ → ℕ → List (List Post)
unfolding batches_of
missed_batches get last limit = elim (get 0 (last_or_zero last) (max 1 (min limit 200))) [
  | none ↦ []
  | some history ↦ batches_of get history
]

-- the number of messages delivered, and what follows an answer of the engine: an exception ends all
unfoldable pub count_answer : Answer → ℕ → Option ℕ × Engine → Engine → Option ℕ × Engine
count_answer (returned true) n (none, e) f = (none, e)
count_answer (returned true) n (some k, e) f = (some (n + k), e)
count_answer (returned false) n rest f = rest
count_answer flood_wait n rest f = (none, f)
count_answer schedule_error n rest f = (none, f)
count_answer quota_error n rest f = (none, f)

-- The batches of a route go to the engine, one call for each.
unfoldable pub deliver_batches :
    TextTools → Route → (ℕ → Call) → ℕ → List (List Post) → Engine → Option ℕ × Engine
unfolding count_answer process_messages
deliver_batches t r call n [] e = (some 0, e)
deliver_batches t r call n (b ∷ batches) e =
    let c = record (call n) { route = r; from_queue = false } in
    let (answer, f) = process_messages t c (map (λ m. m.message) b) e in
    count_answer answer (length b) (deliver_batches t r call (suc n) batches f) f

-- a route with the requests for it and the calls of the engine
pub record Errand : Type 0 where
  pub route : Route
  pub get : Client
  pub call : ℕ → Call

unfoldable pub catch_up_route : TextTools → ℕ → Errand → Engine → Option ℕ × Engine
unfolding deliver_batches missed_batches get_last_seen
catch_up_route t limit x e =
    if x.route.paused
    then (some 0, e)
    else deliver_batches t x.route x.call 0
        (missed_batches x.get (get_last_seen e.state x.route.route_key) limit) e

-- `catch_up_routes`, `none` where the engine raised
unfoldable pub catch_up_routes : TextTools → ℕ → List Errand → Engine → Option ℕ × Engine
unfolding catch_up_route
catch_up_routes t limit [] e = (some 0, e)
catch_up_routes t limit (x ∷ routes) e =
    let (delivered, f) = catch_up_route t limit x e in
    let (rest, g) = catch_up_routes t limit routes f in
    elim delivered [
      | none ↦ (none, f)
      | some n ↦ elim rest [ none ↦ (none, g) | some k ↦ (some (n + k), g) ]
    ]
