-- ===== src/Promo/Safety.antt =====
-- modules/promo_spread/safety.py: pacing, budgets and the circuit breaker of the promo sender.
-- An instant and a duration are numbers of microseconds. The state is promo_safety.json, which every
-- method loads anew; an instant that `fromisoformat` refuses is `none`. The messages for a person
-- are the constructors of `Verdict`.
pub mod Budget
pub mod Circuit
pub mod Active
pub mod Quiet
use telegram_auto.Prelude.{
  ℕ, zero, suc, ◌+◌, ◌-◌, ◌*◌, ◌/◌, max, Bool, true, false, not, ◌&&◌, ◌||◌, Option, none, some,
  List, [], ◌∷◌, ◌++◌, Text, leb, ltb, ◌==◌, nat_eq, text_eq, if◌then◌else◌, length, filter, last_n,
}
use telegram_auto.Prelude.Dict
use telegram_auto.Prelude.Dict.{Dict}

-- the fields of `SafetyConfig` that the guard reads
pub record SafetyConfig : Type 0 where
  pub per_group_cooldown : ℕ
  pub hourly_budget : ℕ
  pub daily_budget : ℕ
  pub flood_strikes_to_pause : ℕ
  pub peer_flood_cooldown : ℕ
  pub circuit_breaker : ℕ

abbrev pub minute : ℕ
minute = 60_000_000

abbrev pub hour : ℕ
hour = 60 * minute

abbrev pub day : ℕ
day = 24 * hour

-- the clamps of `SafetyConfig.from_dict` on the budgets and the cooldown
unfoldable pub from_dict : SafetyConfig → SafetyConfig
from_dict c = record c {
  hourly_budget = max 1 c.hourly_budget;
  daily_budget = max 1 c.daily_budget;
  per_group_cooldown = max (5 * minute) c.per_group_cooldown;
}

pub record Send : Type 0 where
  pub at : Option ℕ
  pub group : Text

-- `paused_until`: absent, not an instant, or an instant
pub data Pause : Type 0 where
  not_paused : Pause
  unreadable : Pause
  until : ℕ → Pause

pub record Guard : Type 0 where
  pub sends : List Send
  pub group_last : Dict Text (Option ℕ)
  pub flood_strikes : ℕ
  pub paused_until : Pause
  pub pause_reason : Option Text

-- the answers of the guard's tests, with the numbers that the messages print
pub data Verdict : Type 0 where
  ok : Verdict
  hourly_cap : ℕ → Verdict
  daily_cap : ℕ → Verdict
  cooldown : ℕ → Verdict

unfoldable pub close_circuit : Guard → Guard
close_circuit g = record g { paused_until = not_paused; pause_reason = none; flood_strikes = 0 }

unfoldable pub circuit_until : ℕ → ℕ → Guard → Bool × Guard
unfolding close_circuit
circuit_until now end_ g = if ltb now end_ then (true, g) else (false, close_circuit g)

-- `circuit_status`, but for the text that goes with an open circuit: whether the circuit is open,
-- and the state it leaves
unfoldable pub circuit_status : ℕ → Guard → Bool × Guard
unfolding circuit_until
circuit_status now g = elim g.paused_until [
  | not_paused ↦ (false, g)
  | unreadable ↦ (false, g)
  | until end_ ↦ circuit_until now end_ g
]

-- `open_circuit`; the alert to the control plane is left out.
unfoldable pub open_circuit : Text → ℕ → ℕ → Guard → Guard
open_circuit reason duration now g = record g {
  paused_until = until (now + max (15 * minute) duration);
  pause_reason = some reason;
}

unfoldable pub note_flood_wait : SafetyConfig → Text → ℕ → Guard → Guard
unfolding open_circuit
note_flood_wait c reason now g =
    let strikes = g.flood_strikes + 1 in
    let struck = record g { flood_strikes = strikes } in
    if leb c.flood_strikes_to_pause strikes
    then open_circuit reason c.circuit_breaker now struck
    else struck

unfoldable pub note_peer_flood : SafetyConfig → Text → ℕ → Guard → Guard
unfolding open_circuit
note_peer_flood c reason now g = open_circuit reason c.peer_flood_cooldown now g

-- `ts >= since`, where a send without an instant is skipped
unfoldable pub is_since : ℕ → Send → Bool
is_since since s = elim s.at [ none ↦ false | some ts ↦ leb since ts ]

unfoldable pub note_success : Text → ℕ → Guard → Guard
unfolding is_since
note_success group_key now g =
    let all = g.sends ++ (record { at = some now; group = group_key }) ∷ [] in
    record g {
      sends = last_n 2000 (filter (is_since (now - 3 * day)) all);
      group_last = Dict.insert group_key (some now) g.group_last;
      flood_strikes = g.flood_strikes - 1;
    }

-- `_count_since`
unfoldable pub count_since : ℕ → List Send → ℕ
unfolding is_since
count_since since [] = 0
count_since since (s ∷ ss) = let n = count_since since ss in if is_since since s then suc n else n

unfoldable pub budget_ok : SafetyConfig → ℕ → Guard → Verdict
unfolding count_since
budget_ok c now g =
    let hourly = count_since (now - hour) g.sends in
    let daily = count_since (now - day) g.sends in
    if leb c.hourly_budget hourly
    then hourly_cap hourly
    else if leb c.daily_budget daily
    then daily_cap daily
    else ok

-- the cooldown's test, with the minutes that are left of it
unfoldable pub cooldown_verdict : ℕ → ℕ → Verdict
cooldown_verdict end_ now = if ltb now end_ then cooldown ((end_ - now) / minute + 1) else ok

-- `group_cooldown_ok`: a group without a readable last send is free.
unfoldable pub group_cooldown_ok : SafetyConfig → Text → ℕ → Guard → Verdict
unfolding cooldown_verdict
group_cooldown_ok c group_key now g = elim (Dict.lookup group_key g.group_last) [
  | none ↦ ok
  | some none ↦ ok
  | some (some ts) ↦ cooldown_verdict (ts + c.per_group_cooldown) now
]
