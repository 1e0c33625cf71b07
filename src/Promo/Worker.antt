-- ===== src/Promo/Worker.antt =====
-- modules/promo_spread/module.py: one tick of the worker (`_worker_once`), the delivery of a job
-- (`_deliver_item`) and the acknowledgement of a post (`_maybe_ack_source_post`), over the queue and
-- the guard. What Telegram answers is an argument: whether the group is found, and how the sending
-- ends. The calls of one delivery share an instant. The texts of reasons are arguments or fixed ones,
-- and a job's group reference is not empty. Sleeps, logs, counters and reactions are left out.
pub mod Guarded
pub mod Reported
use telegram_auto.Prelude.{
  ℕ, Bool, true, false, not, ◌&&◌, ◌||◌, Option, none, some, List, [], ◌∷◌, ◌++◌, Text, codes, ◌==◌,
  nat_eq, text_eq, if◌then◌else◌, length, any, take,
}
use telegram_auto.Promo.Queue.{
  Item, QueueFile, list_pending, pop_next, mark_done, mark_failed, defer, try_claim_post_ack,
}
use telegram_auto.Promo.Safety.{
  SafetyConfig, Guard, Verdict, ok, hourly_cap, daily_cap, cooldown, budget_ok, group_cooldown_ok,
  note_success, note_flood_wait, note_peer_flood,
}
use telegram_auto.Promo.Safety.Active.{ActiveHours, Clock, is_active_now}

-- the fields of the module that the worker reads
pub record Config : Type 0 where
  pub safety : SafetyConfig
  pub hours : ActiveHours
  pub dry_run : Bool
  pub ack_reaction : Bool

-- `_group_entities.get` or `ensure_promo_group`: a known group, a group found under a reference, or
-- an exception with its text
pub data Target : Type 0 where
  known : Target
  found : Text → Target
  unreachable : Text → Target

-- how the sending ends: the messages may be missing, and an exception carries its name or text
pub data Sending : Type 0 where
  delivered : Sending
  missing : Sending
  flood_wait : Text → Sending
  peer_flood : Sending
  slow_mode : Text → Sending
  forbidden : Text → Sending
  rpc_error : Text → Sending
  unexpected : Text → Sending

-- the status of `_report_item`
pub data Report : Type 0 where
  reported_dry_run : Report
  reported_delivered : Report
  reported_failed : Text → Report
  reported_deferred : Text → Report

pub record Sender : Type 0 where
  pub queue : QueueFile
  pub guard : Guard

-- what a delivery leaves: whether the post was acknowledged, its report, and the state
pub record Outcome : Type 0 where
  pub acked : Bool
  pub report : Report
  pub state : Sender

-- `_maybe_ack_source_post`, where the source may be gone
unfoldable pub maybe_ack : Config → Bool → Item → ℕ → QueueFile → Bool × QueueFile
unfolding try_claim_post_ack
maybe_ack c source_known i now q =
    if not c.ack_reaction
    then (false, q)
    else let (claimed, r) = try_claim_post_ack i.post_key now q in
      (claimed && not (i.source_id == 0) && not (length i.message_ids == 0) && source_known, r)

-- the report of a job and its acknowledgement
unfoldable pub settle : Config → Bool → Item → ℕ → Report → Sender → Outcome
unfolding maybe_ack
settle c source_known i now report s =
    let (acked, q) = maybe_ack c source_known i now s.queue in
    record { acked = acked; report = report; state = record s { queue = q } }

unfoldable pub fail : Config → Bool → Item → ℕ → Text → Sender → Outcome
unfolding settle mark_failed
fail c source_known i now error s =
    settle c source_known i now (reported_failed (take 300 error))
      (record s { queue = mark_failed i.id error false now s.queue })

unfoldable pub succeed : Config → Item → Text → ℕ → Report → Sender → Outcome
unfolding settle mark_done note_success
succeed c i group_ref now report s =
    settle c true i now report
      (record { queue = mark_done i.id now s.queue; guard = note_success group_ref now s.guard })

-- A job that is put off is reported, and its post is not acknowledged.
unfoldable pub put_off : Item → ℕ → Text → Sender → Outcome
unfolding defer
put_off i now reason s = record {
  acked = false;
  report = reported_deferred reason;
  state = record s { queue = defer i.id reason now s.queue };
}

-- An error after which the job is tried again, while it has attempts left.
unfoldable pub try_again : Config → Item → ℕ → Text → Sender → Outcome
unfolding settle mark_failed list_pending
try_again c i now error s =
    let q = mark_failed i.id error true now s.queue in
    let report =
      if any (λ j. j.id == i.id) (list_pending q)
      then reported_deferred (take 300 (codes "retry:" ++ error))
      else reported_failed (take 300 error) in
    settle c true i now report (record s { queue = q })

-- the `try` block of `_deliver_item`
unfoldable pub send : Config → Item → Text → Sending → ℕ → Sender → Outcome
unfolding succeed fail put_off try_again note_flood_wait note_peer_flood
send c i group_ref delivered now s = succeed c i group_ref now reported_delivered s
send c i group_ref missing now s = fail c true i now (codes "source messages missing") s
send c i group_ref (flood_wait reason) now s =
    put_off i now reason (record s { guard = note_flood_wait c.safety reason now s.guard })
send c i group_ref peer_flood now s =
    put_off i now (codes "PeerFlood")
      (record s { guard = note_peer_flood c.safety (codes "PeerFlood") now s.guard })
send c i group_ref (slow_mode reason) now s = put_off i now reason s
send c i group_ref (forbidden name) now s = fail c true i now name s
send c i group_ref (rpc_error name) now s = try_again c i now name s
send c i group_ref (unexpected error) now s = try_again c i now error s

-- `_deliver_item` from the search for the source on
unfoldable pub deliver_to : Config → Item → Text → Bool → Sending → ℕ → Sender → Outcome
unfolding send
deliver_to c i group_ref source_known sending now s =
    if not source_known
    then fail c false i now (codes "source route gone") s
    else if c.dry_run
    then succeed c i group_ref now reported_dry_run s
    else send c i group_ref sending now s

-- `_deliver_item`
unfoldable pub deliver_item : Config → Item → Target → Bool → Sending → ℕ → Sender → Outcome
unfolding deliver_to fail
deliver_item c i known source_known sending now s =
    deliver_to c i i.group_ref source_known sending now s
deliver_item c i (found group_ref) source_known sending now s =
    deliver_to c i group_ref source_known sending now s
deliver_item c i (unreachable error) source_known sending now s = fail c source_known i now error s

-- what a tick meets: the pause flag and the clock before and after the delay, Telegram's answers,
-- and the instant at which the delivery notes its outcome
pub record Tick : Type 0 where
  pub paused : Bool
  pub clock : Clock
  pub paused_after : Bool
  pub clock_after : Clock
  pub target : Target
  pub source_known : Bool
  pub sending : Sending
  pub end_ : ℕ

abbrev is_ok : Verdict → Bool
is_ok ok = true
is_ok (hourly_cap n) = false
is_ok (daily_cap n) = false
is_ok (cooldown n) = false

-- `_worker_once` from the end of the delay on
unfoldable pub worker_send : Config → Tick → Item → Sender → Sender
unfolding is_active_now deliver_item budget_ok
worker_send c t i s =
    let (active, g) = is_active_now c.hours t.clock_after s.guard in
    let r : Sender = record s { guard = g } in
    if not active || t.paused_after
    then r
    else if not (is_ok (budget_ok c.safety t.clock_after.now g))
    then r
    else (deliver_item c i t.target t.source_known t.sending t.end_ r).state

-- `_worker_once` with a job in hand
unfoldable pub worker_item : Config → Tick → Option Item → Sender → Sender
unfolding worker_send defer group_cooldown_ok
worker_item c t none s = s
worker_item c t (some i) s =
    if is_ok (group_cooldown_ok c.safety i.group_ref t.clock.now s.guard)
    then worker_send c t i s
    else record s { queue = defer i.id (codes "cooldown") t.clock.now s.queue }

-- `_worker_once`
unfoldable pub worker_once : Config → Tick → Sender → Sender
unfolding worker_item is_active_now budget_ok pop_next
worker_once c t s =
    if t.paused
    then s
    else let (active, g) = is_active_now c.hours t.clock s.guard in
      let r : Sender = record s { guard = g } in
      if not active
      then r
      else if not (is_ok (budget_ok c.safety t.clock.now g))
      then r
      else worker_item c t (pop_next r.queue) r

-- `_worker_loop`: one tick after the other
unfoldable pub worker_loop : Config → List Tick → Sender → Sender
unfolding worker_once
worker_loop c [] s = s
worker_loop c (t ∷ ts) s = worker_loop c ts (worker_once c t s)
