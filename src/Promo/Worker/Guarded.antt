-- ===== src/Promo/Worker/Guarded.antt =====
-- The calls of the guard that the worker makes (modules/promo_spread/module.py).
use telegram_auto.Prelude.{
  ℕ, ◌≤◌, ◌≡◌, refl, sym, Bool, true, false, not, ◌&&◌, ◌||◌, Option, none, some, List, [], ◌∷◌,
  Text, codes, arith, inl, inr, Bool-cases, if◌then◌else◌,
}
use mathlib.Core.Path.{subst}
use telegram_auto.Promo.Queue.{Item, pop_next}
use telegram_auto.Promo.Safety.{
  SafetyConfig, Guard, Verdict, ok, hourly_cap, daily_cap, cooldown, budget_ok, circuit_status,
  group_cooldown_ok,
}
use telegram_auto.Promo.Safety.Active.{
  ActiveHours, Clock, is_active_now, is_active_day, is_active_time,
}
use telegram_auto.Promo.Safety.Budget
use telegram_auto.Promo.Safety.Budget.{
  Within, Run, Step, stay, then_, waited, sent, flooded, banned, checked,
}
use telegram_auto.Promo.Worker.{
  Config, Target, known, found, unreachable, Sending, delivered, missing, flood_wait, peer_flood,
  slow_mode, forbidden, rpc_error, unexpected, Sender, settle, fail, succeed, put_off, try_again,
  send, deliver_to, deliver_item, Tick, is_ok, worker_send, worker_item, worker_once, worker_loop,
}

either_guard :
    (b x : Bool) (h : Guard) → (if◌then◌else◌ {A = Bool × Guard} b (false, h) (x, h)).1 ≡ h
either_guard true x h = refl
either_guard false x h = refl

-- the guard that a test of the active hours leaves is the one of the circuit's test
active_guard :
    (a : ActiveHours) (k : Clock) (g : Guard) → (is_active_now a k g).1 ≡ (circuit_status k.now g).1
unfolding is_active_now
active_guard a k g =
    either_guard (circuit_status k.now g).0 (is_active_day a k.weekday && is_active_time a k.time)
      (circuit_status k.now g).1

Run-append : (c : SafetyConfig) {s t u : ℕ × Guard} → Run c s t → Run c t u → Run c s u
Run-append c r (stay s) = r
Run-append c r (then_ q e) = then_ (Run-append c r q) e

module _ (c : Config) (now end_ : ℕ) (allowed : now ≤ end_) where
  send-Run :
      (i : Item) (group_ref : Text) (x : Sending) (s : Sender)
      → budget_ok c.safety now s.guard ≡ ok
      → Run c.safety (now, s.guard) (end_, (send c i group_ref x end_ s).state.guard)
  unfolding send succeed fail put_off try_again settle
  send-Run i group_ref delivered s b =
      then_ (stay (now, s.guard)) (sent group_ref now end_ s.guard b allowed)
  send-Run i group_ref missing s b = then_ (stay (now, s.guard)) (waited now end_ s.guard allowed)
  send-Run i group_ref (flood_wait reason) s b =
      then_ (then_ (stay (now, s.guard)) (waited now end_ s.guard allowed))
        (flooded reason end_ s.guard)
  send-Run i group_ref peer_flood s b =
      then_ (then_ (stay (now, s.guard)) (waited now end_ s.guard allowed))
        (banned (codes "PeerFlood") end_ s.guard)
  send-Run i group_ref (slow_mode reason) s b =
      then_ (stay (now, s.guard)) (waited now end_ s.guard allowed)
  send-Run i group_ref (forbidden name) s b =
      then_ (stay (now, s.guard)) (waited now end_ s.guard allowed)
  send-Run i group_ref (rpc_error name) s b =
      then_ (stay (now, s.guard)) (waited now end_ s.guard allowed)
  send-Run i group_ref (unexpected error) s b =
      then_ (stay (now, s.guard)) (waited now end_ s.guard allowed)

  deliver_to-Run :
      (i : Item) (group_ref : Text) (source_known : Bool) (x : Sending) (s : Sender)
      → budget_ok c.safety now s.guard ≡ ok
      → Run c.safety
          (now, s.guard)
          (end_, (deliver_to c i group_ref source_known x end_ s).state.guard)
  unfolding deliver_to succeed fail settle
  deliver_to-Run i group_ref false x s b =
      then_ (stay (now, s.guard)) (waited now end_ s.guard allowed)
  deliver_to-Run i group_ref true x s b = elim (Bool-cases c.dry_run) [
    | inl dry ↦ rw dry (then_ (stay (now, s.guard)) (sent group_ref now end_ s.guard b allowed))
    | inr wet ↦ rw wet (send-Run i group_ref x s b)
  ]

  deliver_item-Run :
      (i : Item) (target : Target) (source_known : Bool) (x : Sending) (s : Sender)
      → budget_ok c.safety now s.guard ≡ ok
      → Run c.safety
          (now, s.guard)
          (end_, (deliver_item c i target source_known x end_ s).state.guard)
  unfolding deliver_item fail settle
  deliver_item-Run i known source_known x s b = deliver_to-Run i i.group_ref source_known x s b
  deliver_item-Run i (found group_ref) source_known x s b =
      deliver_to-Run i group_ref source_known x s b
  deliver_item-Run i (unreachable error) source_known x s b =
      then_ (stay (now, s.guard)) (waited now end_ s.guard allowed)

is_ok-true : (v : Verdict) → is_ok v ≡ true → v ≡ ok
is_ok-true ok h = refl
is_ok-true (hourly_cap n) h = cc
is_ok-true (daily_cap n) h = cc
is_ok-true (cooldown n) h = cc

-- The clocks of a tick do not run backwards.
pub record InOrder (t : Tick) : Type 0 where
  pub delay : t.clock.now ≤ t.clock_after.now
  pub delivery : t.clock_after.now ≤ t.end_

module _ (c : Config) (t : Tick) (o : InOrder t) where
  after_test :
      (s : Sender)
      → Run c.safety
          (t.clock_after.now, s.guard)
          (t.clock_after.now, (is_active_now c.hours t.clock_after s.guard).1)
  after_test s =
      subst (λ g. Run c.safety (t.clock_after.now, s.guard) (t.clock_after.now, g))
        (sym (active_guard c.hours t.clock_after s.guard))
        (then_ (stay (t.clock_after.now, s.guard)) (checked t.clock_after.now s.guard))

  wait_to_end :
      (g h : Guard)
      → Run c.safety (t.clock_after.now, g) (t.clock_after.now, h)
      → Run c.safety (t.clock_after.now, g) (t.end_, h)
  wait_to_end g h r = then_ r (waited t.clock_after.now t.end_ h o.delivery)

  worker_send-Run :
      (i : Item) (s : Sender)
      → Run c.safety (t.clock_after.now, s.guard) (t.end_, (worker_send c t i s).guard)
  unfolding worker_send
  worker_send-Run i s =
      let (active, g) = is_active_now c.hours t.clock_after s.guard in
      let tested = after_test s in
      elim (Bool-cases (not active || t.paused_after)) [
        | inl stop ↦ rw stop (wait_to_end s.guard g tested)
        | inr on ↦ elim (Bool-cases (is_ok (budget_ok c.safety t.clock_after.now g))) [
          | inl allowed ↦
              rw (on, allowed)
                (Run-append c.safety tested (
                  deliver_item-Run c t.clock_after.now t.end_ o.delivery i t.target t.source_known
                    t.sending (record s { guard = g })
                    (is_ok-true (budget_ok c.safety t.clock_after.now g) allowed)))
          | inr full ↦ rw (on, full) (wait_to_end s.guard g tested)
        ]
      ]

  wait_all : (g : Guard) → Run c.safety (t.clock.now, g) (t.end_, g)
  wait_all g =
      then_ (stay (t.clock.now, g))
        (waited t.clock.now t.end_ g (omega (arith, o.delay, o.delivery)))

  wait_delay :
      (g h : Guard)
      → Run c.safety (t.clock_after.now, g) (t.end_, h)
      → Run c.safety (t.clock.now, g) (t.end_, h)
  wait_delay g h r =
      Run-append c.safety
        (then_ (stay (t.clock.now, g)) (waited t.clock.now t.clock_after.now g o.delay)) r

  worker_item-Run :
      (i : Option Item) (s : Sender)
      → Run c.safety (t.clock.now, s.guard) (t.end_, (worker_item c t i s).guard)
  unfolding worker_item
  worker_item-Run none s = wait_all s.guard
  worker_item-Run (some i) s =
      elim (Bool-cases (is_ok (group_cooldown_ok c.safety i.group_ref t.clock.now s.guard))) [
        | inl warm ↦ rw warm (wait_delay s.guard (worker_send c t i s).guard (worker_send-Run i s))
        | inr cold ↦ rw cold (wait_all s.guard)
      ]

  -- A tick of the worker does to the guard what a run of allowed calls does: a success is noted only
  -- after the budget allowed the delivery, behind the delay, and all else leaves the sends alone.
  pub worker_once-Run :
      (s : Sender) → Run c.safety (t.clock.now, s.guard) (t.end_, (worker_once c t s).guard)
  unfolding worker_once
  worker_once-Run s =
      let (active, g) = is_active_now c.hours t.clock s.guard in
      let tested : Run c.safety (t.clock.now, s.guard) (t.clock.now, g) =
        subst (λ h. Run c.safety (t.clock.now, s.guard) (t.clock.now, h))
          (sym (active_guard c.hours t.clock s.guard))
          (then_ (stay (t.clock.now, s.guard)) (checked t.clock.now s.guard)) in
      elim (Bool-cases t.paused) [
        | inl halted ↦ rw halted (wait_all s.guard)
        | inr going ↦ elim (Bool-cases active) [
          | inr quiet ↦ rw (going, quiet) (Run-append c.safety tested (wait_all g))
          | inl awake ↦ elim (Bool-cases (is_ok (budget_ok c.safety t.clock.now g))) [
            | inr full ↦ rw (going, awake, full) (Run-append c.safety tested (wait_all g))
            | inl room ↦
                rw (going, awake, room)
                  (Run-append c.safety tested
                    (worker_item-Run (pop_next s.queue) (record s { guard = g })))
          ]
        ]
      ]

-- the ticks one after the other, from an instant on
abbrev pub Chain : ℕ → List Tick → Type 0
Chain now [] = Unit
Chain now (t ∷ ts) = (now ≤ t.clock.now) × InOrder t × Chain t.end_ ts

abbrev pub end_of : ℕ → List Tick → ℕ
end_of now [] = now
end_of now (t ∷ ts) = end_of t.end_ ts

-- If the sends are within both budgets at the start, then however long the worker runs and whatever
-- Telegram answers, the sends of the last hour never exceed
-- the hourly budget, nor those of the last day the daily one, if the clock does not run backwards.
pub worker_loop-Within :
    (c : Config) (now : ℕ) (ts : List Tick) (s : Sender)
    → Chain now ts
    → Within c.safety now s.guard
    → Within c.safety (end_of now ts) (worker_loop c ts s).guard
unfolding worker_loop
worker_loop-Within c now [] s o w = w
worker_loop-Within c now (t ∷ ts) s o w =
    let ready =
      Budget.Run-Within c.safety (then_ (stay (now, s.guard)) (waited now t.clock.now s.guard o.0))
        w in
    worker_loop-Within c t.end_ ts (worker_once c t s) o.2
      (Budget.Run-Within c.safety (worker_once-Run c t o.1 s) ready)
