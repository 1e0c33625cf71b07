-- ===== src/Promo/Queue/Retry.antt =====
-- Failures and the attempts that are left (modules/promo_spread/queue.py).
use telegram_auto.Prelude.{
  ℕ, suc, ◌+◌, ◌-◌, ◌*◌, ◌≤◌, ◌<◌, ◌≡◌, ap, ◌∙◌, Bool, true, false, some, List, [], ◌∷◌, ◌++◌, Text,
  arith, ltb, ◌==◌, nat_eq, text_eq, if◌then◌else◌, inl, inr, Bool-cases, length, last_n, filter,
  any, find?, update_first, All, All-append, All-last_n,
}
use mathlib.Core.Option.{some-injective}
use telegram_auto.Prelude.Filters.{filter-All, All-update_first}
use telegram_auto.Promo.Queue.Enqueue.{created, waiting}
use telegram_auto.Promo.Queue.{
  Item, Markers, QueueFile, Share, is_pending, is_settled, is_waiting, new_item, cap_pending,
  cap_items, enqueue, set_done, mark_done, set_failed, mark_failed, set_deferred, defer,
  clear_pending, try_claim_post_seen, try_claim_post_ack,
}

-- A job that still waits has attempts left.
abbrev pub HasAttempts : Item → Type 0
HasAttempts i = is_pending i ≡ true → i.attempts < 3

-- the attempts that the pending jobs have left
unfoldable pub budget : List Item → ℕ
budget [] = 0
budget (i ∷ items) = (if is_pending i then 3 - i.attempts else 0) + budget items

set_failed-HasAttempts :
    (error : Text) (retry : Bool) (now : ℕ) (i : Item) → HasAttempts (set_failed error retry now i)
unfolding set_failed
set_failed-HasAttempts error retry now i h = ground arith

new_item-HasAttempts : (s : Share) (id : Text) (now : ℕ) → HasAttempts (new_item s id now)
unfolding new_item
new_item-HasAttempts s id now h = omega arith

budget-set_failed :
    (error : Text) (retry : Bool) (now : ℕ) (i : Item) (rest : List Item)
    → is_pending i ≡ true
    → i.attempts < 3
    → budget (set_failed error retry now i ∷ rest) < budget (i ∷ rest)
unfolding budget set_failed
budget-set_failed error retry now i rest waits few = ground arith

budget-update_first :
    (id error : Text) (retry : Bool) (now : ℕ) (items : List Item) (i : Item)
    → All HasAttempts items
    → find? (λ j. j.id == id) items ≡ some i
    → is_pending i ≡ true
    → budget (update_first (λ j. j.id == id) (set_failed error retry now) items) < budget items
unfolding find? update_first budget
budget-update_first id error retry now [] i h found waits = cc
budget-update_first id error retry now (j ∷ items) i h found waits =
    elim (Bool-cases (j.id == id)) [
      | inl hit ↦
          let same : j ≡ i = some-injective j i (ground arith) in
          let waits_j : is_pending j ≡ true = ap is_pending same ∙ waits in
          rw hit (budget-set_failed error retry now j items waits_j (h.0 waits_j))
      | inr miss ↦
          let rest = budget-update_first id error retry now items i h.1 (ground arith) waits in
          rw miss (omega arith)
    ]

-- How the file changes.
pub data Step : QueueFile → QueueFile → Type 0 where
  enqueued : (s : Share) (id : Text) (now : ℕ) (q : QueueFile) → Step q (enqueue s id now q).1
  delivered : (id : Text) (now : ℕ) (q : QueueFile) → Step q (mark_done id now q)
  broke :
      (id error : Text) (retry : Bool) (now : ℕ) (q : QueueFile)
      → Step q (mark_failed id error retry now q)
  deferred : (id reason : Text) (now : ℕ) (q : QueueFile) → Step q (defer id reason now q)
  cleared : (q : QueueFile) → Step q (clear_pending q).1
  saw : (key : Text) (now : ℕ) (q : QueueFile) → Step q (try_claim_post_seen key now q).1
  acked : (key : Text) (now : ℕ) (q : QueueFile) → Step q (try_claim_post_ack key now q).1

pub data Reach : QueueFile → Type 0 where
  start :
      (seen acked : Markers) → Reach (record { items = []; seen_posts = seen; acked_posts = acked })
  next : {q r : QueueFile} → Reach q → Step q r → Reach r

cap_items-All : (P : Item → Type 0) (items : List Item) → All P items → All P (cap_items items)
unfolding cap_items cap_pending
cap_items-All P items h =
    let ps = filter is_pending items in
    let ss = filter is_settled items in
    let hp = filter-All P is_pending items h in
    All-append P (cap_pending ps) (last_n 150 ss)
      (elim (ltb 400 (length ps)) as (λ b. All P (if b then last_n 400 ps else ps)) [
        | true ↦ All-last_n P 400 ps hp
        | false ↦ hp
      ])
      (All-last_n P 150 ss (filter-All P is_settled items h))

items-seen :
    (key : Text) (now : ℕ) (q : QueueFile) → (try_claim_post_seen key now q).1.items ≡ q.items
unfolding try_claim_post_seen
items-seen key now q = ground arith

items-acked :
    (key : Text) (now : ℕ) (q : QueueFile) → (try_claim_post_ack key now q).1.items ≡ q.items
unfolding try_claim_post_ack
items-acked key now q = ground arith

-- No method leaves a pending job without attempts.
pub Step-HasAttempts :
    {q r : QueueFile} → Step q r → All HasAttempts q.items → All HasAttempts r.items
unfolding mark_done mark_failed defer clear_pending
Step-HasAttempts (enqueued s id now q) h = elim (Bool-cases (any (is_waiting s) q.items)) [
  | inl waits ↦ rw (waiting s id now q waits) h
  | inr fresh ↦ rw (created s id now q fresh) (
      cap_items-All HasAttempts (q.items ++ new_item s id now ∷ []) (
        All-append HasAttempts q.items (new_item s id now ∷ []) h
          (new_item-HasAttempts s id now, tt)))
]
Step-HasAttempts (delivered id now q) h =
    All-update_first HasAttempts (λ i. i.id == id) (set_done now) q.items (λ i a p. cc) h
Step-HasAttempts (broke id error retry now q) h =
    All-update_first HasAttempts (λ i. i.id == id) (set_failed error retry now) q.items
      (λ i a. set_failed-HasAttempts error retry now i) h
Step-HasAttempts (deferred id reason now q) h =
    All-update_first HasAttempts (λ i. i.id == id) (set_deferred reason now) q.items (λ i a. a) h
Step-HasAttempts (cleared q) h = filter-All HasAttempts is_settled q.items h
Step-HasAttempts (saw key now q) h = rw (items-seen key now q) h
Step-HasAttempts (acked key now q) h = rw (items-acked key now q) h

-- From an empty file, whatever methods are called, a job that waits has failed at most twice.
pub Reach-HasAttempts : {q : QueueFile} → Reach q → All HasAttempts q.items
Reach-HasAttempts (start seen_posts acked_posts) = tt
Reach-HasAttempts (next r s) = Step-HasAttempts s (Reach-HasAttempts r)

budget-mark_failed :
    (id error : Text) (retry : Bool) (now : ℕ) (q : QueueFile) (i : Item)
    → All HasAttempts q.items
    → find? (λ j. j.id == id) q.items ≡ some i
    → is_pending i ≡ true
    → budget (mark_failed id error retry now q).items < budget q.items
unfolding mark_failed
budget-mark_failed id error retry now q i h found waits =
    budget-update_first id error retry now q.items i h found waits

-- a number of failures, one after the other, each of a job that waits at the time
pub data Failures (q : QueueFile) : ℕ → QueueFile → Type 0 where
  intact : Failures q 0 q
  another :
      {n : ℕ} {r : QueueFile} (id error : Text) (retry : Bool) (now : ℕ) (i : Item)
      → Failures q n r
      → find? (λ j. j.id == id) r.items ≡ some i
      → is_pending i ≡ true
      → Failures q (suc n) (mark_failed id error retry now r)

Failures-budget :
    {q r : QueueFile} {n : ℕ}
    → All HasAttempts q.items
    → Failures q n r
    → All HasAttempts r.items × (n + budget r.items ≤ budget q.items)
Failures-budget h intact = (h, omega arith)
Failures-budget h (another {r = r} id error retry now i fs found waits) =
    let (a, l) = Failures-budget h fs in
    (
      Step-HasAttempts (broke id error retry now r) a,
      omega (arith, l, budget-mark_failed id error retry now r i a found waits),
    )

budget-le : (items : List Item) → budget items ≤ 3 * length (filter is_pending items)
unfolding budget filter
budget-le [] = omega arith
budget-le (i ∷ items) = ground (arith, budget-le items)

-- In a queue that was reached from an empty one, a run of failures, each of a job that waits at the
-- time and with nothing else between them, is at most three times as long as there are jobs that wait
-- at its start, whatever is to be tried again.
pub Failures-le :
    {q r : QueueFile} {n : ℕ}
    → Reach q
    → Failures q n r
    → n ≤ 3 * length (filter is_pending q.items)
Failures-le {q = q} reached fs =
    omega (arith, (Failures-budget (Reach-HasAttempts reached) fs).1, budget-le q.items)
