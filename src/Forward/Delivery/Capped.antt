-- ===== src/Forward/Delivery/Capped.antt =====
-- The daily cap over many posts to one destination (modules/channel_forward/delivery.py).
use telegram_auto.Prelude.{
  ℕ, suc, ◌+◌, max, ◌≤◌, ◌<◌, ◌≡◌, ap, ◌∙◌, false, ◌&&◌, List, [], ◌∷◌, Text, arith, leb, nat_eq,
  text_eq, if◌then◌else◌, All, Bool-cases, inl, inr,
}
use mathlib.Core.Path.{subst}
use telegram_auto.Prelude.Dict
use telegram_auto.Forward.Quota.{ok, reload, count}
use telegram_auto.Forward.Quota.Pruning.{IsCurrent}
use telegram_auto.Forward.Filters.{TextTools}
use telegram_auto.Forward.Delivery.{Message, Engine, Answer, Call, is_delivered, process_messages}
use telegram_auto.Forward.Delivery.Accounting.{limit_of, process_messages-Counts}

-- The posts that come one after the other, on the routes of their calls: how many are delivered, and
-- the engine in the end.
unfoldable pub deliveries : TextTools → List (Call × List Message) → Engine → ℕ × Engine
deliveries t [] e = (0, e)
deliveries t ((c, ms) ∷ posts) e =
    let (answer, after) = process_messages t c ms e in
    let (n, last) = deliveries t posts after in (if is_delivered answer then suc n else n, last)

-- A call for a destination with a cap on a day, that is no dry run.
pub record IsFor (key : Text) (limit day : ℕ) (c : Call) : Type 0 where
  pub same_key : c.route.dest_key ≡ key
  pub same_limit : limit_of c ≡ limit
  pub same_day : c.begins.day ≡ day
  pub same_end : c.ends.day ≡ c.begins.day
  pub wet : c.dry_run ≡ false

-- One post counts towards the destination.
abbrev Counted : Text → ℕ → ℕ → ℕ → Answer × Engine → Type 0
Counted key limit day k r =
    (count r.1.quota key day ≡ ok (if is_delivered r.0 then k + 1 else k))
    × (is_delivered r.0 && leb limit k ≡ false)
    × IsCurrent day (Dict.lookup key (reload r.1.quota))

module _ (t : TextTools) (key : Text) (limit day : ℕ) (pos : 0 < limit) where
  process_messages-Counted :
      (c : Call) (ms : List Message) (e : Engine) (k : ℕ)
      → IsFor key limit day c
      → IsCurrent day (Dict.lookup key (reload e.quota))
      → count e.quota key day ≡ ok k
      → Counted key limit day k (process_messages t c ms e)
  process_messages-Counted c ms e k f =
      let Holds : Text → ℕ → ℕ → Type 0 = λ key limit day.
        0 < limit
        → IsCurrent day (Dict.lookup key (reload e.quota))
        → count e.quota key day ≡ ok k
        → Counted key limit day k (process_messages t c ms e) in
      let own : Holds c.route.dest_key (limit_of c) c.begins.day =
        λ p h n. process_messages-Counts c k f.same_end t ms e p f.wet h n in
      subst (λ x. Holds key limit x) f.same_day
        (subst (λ x. Holds key x c.begins.day) f.same_limit
          (subst (λ x. Holds x (limit_of c) c.begins.day) f.same_key own))
        pos

  -- Whatever posts come for a destination with a cap, each processed within the day and none in a
  -- dry run, on whatever routes with that cap and in whatever order, with failures and refusals
  -- among them, and where no day of the destination lies after this one: the destination's count
  -- grows by the number of the posts delivered, and not above the cap, unless it was above it
  -- before.
  pub deliveries-Capped :
      (posts : List (Call × List Message)) (e : Engine) (k : ℕ)
      → All (λ post. IsFor key limit day post.0) posts
      → IsCurrent day (Dict.lookup key (reload e.quota))
      → count e.quota key day ≡ ok k
      → let (n, last) = deliveries t posts e in
        (count last.quota key day ≡ ok (k + n)) × (k + n ≤ max k limit)
  unfolding deliveries
  deliveries-Capped [] e k f h n = (n ∙ ap ok (omega arith), omega arith)
  deliveries-Capped ((c, ms) ∷ posts) e k f h n =
      let r = process_messages t c ms e in
      let (counted, below, current) = process_messages-Counted c ms e k f.0 h n in
      elim (Bool-cases (is_delivered r.0)) [
        | inl sent ↦
            let low : k < limit = ground (arith, sent, below) in
            let one_more : count r.1.quota key day ≡ ok (k + 1) = ground (arith, counted, sent) in
            let (m, b) = deliveries-Capped posts r.1 (k + 1) f.1 current one_more in
            simp sent (m ∙ ap ok (omega arith), omega (arith, b, low))
        | inr kept ↦
            let same : count r.1.quota key day ≡ ok k = ground (arith, counted, kept) in
            simp kept (deliveries-Capped posts r.1 k f.1 current same)
      ]
