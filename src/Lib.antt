-- ===== src/Lib.antt =====
-- Verification of telegram-auto: the stores and pacing rules behind its forwarding and promo
-- modules. Most of them keep their state in a JSON file that every method loads anew under a lock;
-- `GroupPool` and `CloudflareAIStore` hold it in memory and save it. Either way a method is a function
-- from the content to the new content and the answer.
--
-- The parts, by their files:
-- - Forward.Quota: modules/channel_forward/quota.py, `DailyQuotaStore`, the daily cap of a
--   destination. Pruning, Counts, Refund, Bounds and Isolation hold its lemmas.
-- - Forward.Queue: modules/channel_forward/queue.py, `PublishQueue`, the publishes that wait for an
--   open window. Pending, Ids and Steps hold its lemmas.
-- - Forward.Flush: modules/channel_forward/module.py, `_flush_queue_once`, with the engine in Pass.
--   Kept holds its lemmas.
-- - Forward.Inbox: the same file's `_handle_new`, `_complete_album` and `_flush_album_later`, with the
--   lemmas in Albums.
-- - Forward.Sync: the same file's `_on_message_edited` and `_on_message_deleted`, with the lemmas in
--   Deleted.
-- - Forward.Catchup: modules/channel_forward/catchup.py, with the lemmas in Batches and Albums.
-- - Forward.State: modules/channel_forward/state.py, `ForwardStateStore`.
-- - Forward.Dedup: modules/channel_forward/dedup.py, `DedupStore`.
-- - Forward.Schedule: modules/channel_forward/schedule.py, windows, days and their parsers.
-- - Forward.Media, Forward.Filters: modules/channel_forward/media_filter.py and filters.py, the tests of
--   a post and the rewriting of its text.
-- - Forward.Delivery: modules/channel_forward/delivery.py, `process_messages` and `_deliver`. Copy holds
--   the texts and captions; Accounting, Capped, Repeats, Window, Gates and
--   Queued hold the theorems.
-- - Promo.Queue: modules/promo_spread/queue.py, `PromoQueue`, the deliveries to groups and the
--   markers of posts. Enqueue, Retry, Order and Markers hold its lemmas.
-- - Promo.Safety: modules/promo_spread/safety.py, `SafetyGuard`: budgets, cooldowns, circuit breaker.
-- - Promo.Safety.Active: the same file's `is_active_now`, the days and windows of the sender; Quiet:
--   its `quiet_hours_to_windows`.
-- - Promo.Worker: modules/promo_spread/module.py, `_worker_once` and `_deliver_item`. Guarded
--   and Reported hold its theorems.
-- - Promo.Posting: the same file's `_enqueue_post` and `_catchup_route`, with the lemmas in Seen.
-- - Promo.Routes: modules/promo_spread/routes.py, and `display_ref` of modules/channel_forward/refs.py.
-- - Promo.Refs, Promo.Profile: the norms and lists of groups of modules/channel_forward/refs.py and
--   modules/promo_spread/targets.py, and `migrate_routes` of modules/promo_spread/routes.py.
-- - Promo.Exclusive: app/promo_exclusivity.py: `claim_group`, with the theorems in Claims;
--   `reconcile_exclusive_profiles` in Reconcile, whose theorem is in Unique and its lemmas in Kept, Given,
--   Rows, Passes, Settled and Total; `foreign_group_norms_for_account` in Foreign. The number of a
--   SHA-1 is a parameter.
-- - Promo.Catchup: modules/promo_spread/catchup.py, with the theorems in Picked.
-- - Pool: modules/group_pool/pool.py, `GroupPool`, from collected to approved groups.
-- - Ai.Store: app/cloudflare_ai/store.py, `CloudflareAIStore`; Names and Quota hold its theorems.
-- - Ai.Provider: app/cloudflare_ai/provider.py, `chat`; Rotation and Answers hold its theorems.
-- - Ai.Json, Ai.Agent: app/cloudflare_ai/agent.py, `Agent.run` and the reading of JSON; Ends holds its
--   theorem.
-- - Prelude: tests, lists with Python's slices, dictionaries in insertion order, stable sorting,
--   stripping and reading numbers; Tests: runs at concrete inputs.
-- The forwarder asks the filters, then the duplicates, then the schedule, queues what it may not
-- publish yet, and asks the quota for the rest; the promo worker asks the guard, takes the next job
-- and notes its outcome. New messages pass the inbox, which collects albums, and missed ones the
-- catch-up, before they come to the forwarder's engine. The agent asks the provider, which goes through
-- the accounts of the store.
--
-- Instants are numbers of microseconds and days are ordinals, in the order of the ISO texts that the
-- files hold. New ids, the time and hashes are arguments. No loop needs fuel: each is structural
-- recursion over a list or the number of attempts or rounds that are left. The bounds are the
-- source's: 14 days, 200, 300, 400, 500 and 2000 entries, 200, 300, 1024, 4000 and 4096 characters.
--
-- Not modelled: the Telegram client, JSON and files, locks, logs and message texts; calls that interleave
-- within a method; capital letters other than those of ASCII; the admin bot,
-- the scripts and the link finders.
pub mod Prelude
pub mod Forward
pub mod Promo
pub mod Pool
pub mod Ai
mod Tests
