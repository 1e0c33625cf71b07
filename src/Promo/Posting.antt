-- ===== src/Promo/Posting.antt =====
-- modules/promo_spread/module.py: how a post of the source becomes jobs (`_enqueue_post`), and which
-- posts of the time without a run do (`_catchup_route`). The key of a post, which prints its source
-- and its first and last id, and the new ids are arguments; the shuffled targets are the list given.
-- A post has an id that is not zero. Reports, logs and the reaction itself are left out.
pub mod Seen
use telegram_auto.Prelude.{
  ℕ, suc, Bool, true, false, not, ◌&&◌, Option, none, some, List, [], ◌∷◌, Text, ltb, if◌then◌else◌,
}
use telegram_auto.Promo.Queue.{
  QueueFile, Share, enqueue, try_claim_post_seen, post_seen, has_seen_history,
}

-- a group of the route, with the id for its job: `label`, `gid` and `item_id`
pub record Destination : Type 0 where
  pub label : Text
  pub gid : ℕ
  pub job_id : Text

-- the post with its key and the texts of the route
pub record Post : Type 0 where
  pub source_id : ℕ
  pub message_ids : List ℕ
  pub mode : Text
  pub post_key : Text
  pub targets : List Destination
  -- `is_fresh_enough_to_enqueue`
  pub fresh : Bool

unfoldable pub share_of : Post → Destination → Share
share_of p d = record {
  source_id = p.source_id;
  group_ref = d.label;
  group_id = d.gid;
  message_ids = p.message_ids;
  mode = p.mode;
  post_key = p.post_key;
}

unfoldable pub count_some : Option Text → ℕ → ℕ
count_some none n = n
count_some (some id) n = suc n

-- the loop over the targets: how many jobs were created, and the file
unfoldable pub enqueue_targets : Post → ℕ → List Destination → QueueFile → ℕ × QueueFile
unfolding share_of enqueue count_some
enqueue_targets p now [] q = (0, q)
enqueue_targets p now (d ∷ ds) q =
    let (id, r) = enqueue (share_of p d) d.job_id now q in
    let (created, s) = enqueue_targets p now ds r in (count_some id created, s)

-- the claim of `_react_seen`, if the module reacts to posts
unfoldable pub react_seen : Bool → Post → ℕ → QueueFile → QueueFile
unfolding try_claim_post_seen
react_seen reacts p now q = if reacts then (try_claim_post_seen p.post_key now q).1 else q

-- `_enqueue_post`
unfoldable pub enqueue_post : Bool → ℕ → Post → QueueFile → QueueFile
unfolding enqueue_targets react_seen
enqueue_post reacts now p q =
    let (created, r) = enqueue_targets p now p.targets q in
    if ltb 0 created then react_seen reacts p now r else r

-- the body of the loop in `_catchup_route`
unfoldable pub catchup_post : Bool → Bool → ℕ → Post → QueueFile → QueueFile
unfolding enqueue_post try_claim_post_seen post_seen
catchup_post reacts priming now p q =
    if post_seen p.post_key q
    then q
    else if priming && not p.fresh
    then (try_claim_post_seen p.post_key now q).1
    else enqueue_post reacts now p q

unfoldable pub catchup_posts : Bool → Bool → ℕ → List Post → QueueFile → QueueFile
unfolding catchup_post
catchup_posts reacts priming now [] q = q
catchup_posts reacts priming now (p ∷ ps) q =
    catchup_posts reacts priming now ps (catchup_post reacts priming now p q)

-- `_catchup_route` over the posts that `select_catchup_posts` picked
unfoldable pub catchup_route : Bool → ℕ → List Post → QueueFile → QueueFile
unfolding catchup_posts has_seen_history
catchup_route reacts now ps q = catchup_posts reacts (not (has_seen_history q)) now ps q
