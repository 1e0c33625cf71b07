-- ===== src/Tests/Albums.antt =====
-- A history with an album, an album that arrives in parts, and the deletion of a message with copies.
use telegram_auto.Prelude.{
  ℕ, ◌≡◌, refl, true, false, ◌&&◌, Bool, none, some, List, [], ◌∷◌, ◌++◌, codes, arith, nat_eq,
  text_eq, any, filter, contains, ltb, if◌then◌else◌, All, ◌==◌, Bool-cases, inl, inr, map,
}
use telegram_auto.Prelude.Dict
use telegram_auto.Prelude.Sort.{sort_by, insert_by}
use telegram_auto.Forward.State.{StateFile, bucket, dest_for_source, remove_mapping, remove_from}
use telegram_auto.Forward.Catchup.{
  Post, post_id, next_batch, split_batches, index_by_id, is_sibling, lowest, merge_extra, Client,
  refill, refill_all, fetched_posts, batches_of, missed_batches, Errand,
}
use telegram_auto.Forward.Catchup.Albums.{HonoursMinId, IsBatch, missed_batches-IsBatch}
use telegram_auto.Forward.Inbox.{
  key_eq, Inbox, Arrival, arrived, timer, routes_for, buffer_at, add_to_album, hand_on, receive,
  is_wanted, handle_new, complete_album, flush_album, step, run,
}
use telegram_auto.Forward.Inbox.Albums.{handed-run}
use telegram_auto.Forward.Sync.{
  SyncRoute, delete_copy, delete_copies, delete_all, routes_from, on_message_deleted,
}
use telegram_auto.Forward.Sync.Deleted.{unless, reaches, dest_for_source-on_message_deleted}
use telegram_auto.Tests.Delivering.{post, route_with, unscheduled, call}

program : Unit {0}
unfolding any filter contains nat_eq text_eq Dict.lookup Dict.insert Dict.erase sort_by insert_by
    bucket dest_for_source remove_mapping remove_from next_batch split_batches index_by_id
    is_sibling lowest merge_extra refill refill_all fetched_posts batches_of missed_batches key_eq
    routes_for buffer_at add_to_album hand_on receive is_wanted handle_new complete_album
    flush_album step run delete_copy delete_copies delete_all routes_from on_message_deleted reaches
program = tt

abbrev numbered : ℕ → ℕ → Post
numbered id gid = record { message = record post { id = id }; is_action = false; grouped_id = gid }

-- the newest first, as the client returns them
abbrev history : List Post
history = numbered 13 0 ∷ numbered 12 5 ∷ numbered 11 5 ∷ []

abbrev client : Client
client n low limit = if ltb low 11 then some history else none

abbrev ids : List Post → List ℕ
ids ms = map post_id ms

split_history : map ids (batches_of client history) ≡ (11 ∷ 12 ∷ []) ∷ (13 ∷ []) ∷ []
unfolding program
split_history = refl

abbrev errand : Errand
errand = record { route = route_with unscheduled; get = client; call = call unscheduled }

client-HonoursMinId : HonoursMinId client
unfolding program
client-HonoursMinId n low limit = elim (Bool-cases (ltb low 11)) [
  | inl low_ ↦ rw low_ (ground arith)
  | inr high ↦ rw high refl
]

missed_batches-IsBatch_example : All (IsBatch 10) (missed_batches client (some 10) 50)
missed_batches-IsBatch_example = missed_batches-IsBatch client (some 10) 50 client-HonoursMinId

abbrev arrival : ℕ → Arrival
arrival id = record { post = numbered id 5; silent = false; chat_id = some 1 }

abbrev inbox : Inbox
inbox = record { buffers = []; handed = [] }

handed-run_example :
    any
      (λ b. b.0 == 1 && any (λ m. post_id m == 12) b.1)
      (run true
        (route_with unscheduled ∷ [])
        (arrived (arrival 11) ∷ [] ++ arrived (arrival 12) ∷ [] ++ timer 1 5 none ∷ [])
        inbox).handed
    ≡ true
unfolding program
handed-run_example =
    handed-run true (route_with unscheduled ∷ []) (arrived (arrival 11) ∷ []) [] (arrival 12) 1 none
      inbox refl refl refl refl

abbrev state : StateFile
state = record { last_seen = []; mappings = (codes "@a->@b", (7, 70) ∷ (8, 71) ∷ []) ∷ [] }

abbrev synced : SyncRoute
synced = record { route = route_with unscheduled; sync_edits = true; sync_deletes = true }

abbrev deleted_ids : List ℕ
deleted_ids = 7 ∷ 8 ∷ []

abbrev deletes : ℕ → ℕ → Bool
deletes to dest = dest == 70

deleted_only :
    let f = on_message_deleted deletes false (synced ∷ []) (some 1) deleted_ids state in
    dest_for_source f (codes "@a->@b") 7 ≡ none
unfolding program
deleted_only = refl

dest_for_source-on_message_deleted_example :
    dest_for_source
      (on_message_deleted deletes false (synced ∷ []) (some 1) deleted_ids state)
      (codes "@a->@b")
      8
    ≡ unless
        (λ x.
          contains deleted_ids 8
          && any (reaches deletes (codes "@a->@b") x) (routes_from (synced ∷ []) 1))
        (dest_for_source state (codes "@a->@b") 8)
dest_for_source-on_message_deleted_example =
    dest_for_source-on_message_deleted deletes (codes "@a->@b") (synced ∷ []) 1 deleted_ids 8 state
