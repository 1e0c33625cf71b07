-- ===== src/Promo/Posting/Seen.antt =====
-- Posts of the past on a new state file (modules/promo_spread/module.py).
use telegram_auto.Prelude.{
  ℕ, ◌≡◌, refl, ◌∙◌, Bool, true, false, List, [], ◌∷◌, All, arith, inl, inr, Bool-cases,
}
use telegram_auto.Promo.Queue.{QueueFile, try_claim_post_seen, post_seen, has_seen_history}
use telegram_auto.Promo.Posting.{Post, catchup_post, catchup_posts, catchup_route}

items-seen_claim :
    (p : Post) (now : ℕ) (q : QueueFile) → (try_claim_post_seen p.post_key now q).1.items ≡ q.items
unfolding try_claim_post_seen
items-seen_claim p now q = ground arith

catchup_post-stale :
    (reacts : Bool) (now : ℕ) (p : Post) (q : QueueFile)
    → p.fresh ≡ false
    → (catchup_post reacts true now p q).items ≡ q.items
unfolding catchup_post
catchup_post-stale reacts now p q stale = elim (Bool-cases (post_seen p.post_key q)) [
  | inl seen ↦ rw seen refl
  | inr new ↦ rw (new, stale) (items-seen_claim p now q)
]

catchup_posts-stale :
    (reacts : Bool) (now : ℕ) (ps : List Post) (q : QueueFile)
    → All (λ p. p.fresh ≡ false) ps
    → (catchup_posts reacts true now ps q).items ≡ q.items
unfolding catchup_posts
catchup_posts-stale reacts now [] q h = refl
catchup_posts-stale reacts now (p ∷ ps) q h =
    catchup_posts-stale reacts now ps (catchup_post reacts true now p q) h.1
    ∙ catchup_post-stale reacts now p q h.0

-- On a state file without a marker of any post, as a new one is, a catch-up of old posts creates no
-- job: it leaves the items as they were.
pub catchup_route-stale :
    (reacts : Bool) (now : ℕ) (ps : List Post) (q : QueueFile)
    → has_seen_history q ≡ false
    → All (λ p. p.fresh ≡ false) ps
    → (catchup_route reacts now ps q).items ≡ q.items
unfolding catchup_route
catchup_route-stale reacts now ps q new h = rw new (catchup_posts-stale reacts now ps q h)
