-- ===== src/Promo/Safety/Budget.antt =====
-- The hourly and the daily budget over any run of the sender, and the cooldown of a group.
use telegram_auto.Prelude.{
  ℕ, zero, suc, ◌+◌, ◌-◌, ◌*◌, ◌/◌, ◌≤◌, ◌<◌, ◌≡◌, refl, Bool, true, false, some, List, [], ◌∷◌,
  ◌++◌, Text, arith, ◌==◌, text_eq, inl, inr, Option-cases, length, filter, drop, last_n,
}
use telegram_auto.Prelude.Dict.{lookup-insert}
use telegram_auto.Promo.Safety.{
  SafetyConfig, hour, day, minute, Send, Pause, Guard, ok, cooldown, circuit_status, circuit_until,
  close_circuit, open_circuit, note_flood_wait, note_peer_flood, is_since, note_success,
  count_since, budget_ok, cooldown_verdict, group_cooldown_ok, not_paused, unreadable, until,
}

is_since-antitone : (a b : ℕ) (s : Send) → a ≤ b → is_since b s ≡ true → is_since a s ≡ true
unfolding is_since
is_since-antitone a b s l h = elim (Option-cases s.at) [
  | inl n ↦ ground arith
  | inr (t, n) ↦ ground arith
]

-- A later start counts fewer sends.
count_since-antitone : (a b : ℕ) (ss : List Send) → a ≤ b → count_since b ss ≤ count_since a ss
unfolding count_since
count_since-antitone a b [] l = omega arith
count_since-antitone a b (s ∷ ss) l =
    ground (arith, count_since-antitone a b ss l, is_since-antitone a b s l)

count_since-append_le :
    (a : ℕ) (ss : List Send) (s : Send) → count_since a (ss ++ s ∷ []) ≤ suc (count_since a ss)
unfolding count_since
count_since-append_le a [] s = ground arith
count_since-append_le a (x ∷ ss) s = ground (arith, count_since-append_le a ss s)

count_since-filter_le :
    (a : ℕ) (p : Send → Bool) (ss : List Send) → count_since a (filter p ss) ≤ count_since a ss
unfolding count_since filter
count_since-filter_le a p [] = omega arith
count_since-filter_le a p (s ∷ ss) = ground (arith, count_since-filter_le a p ss)

count_since-drop_le : (a n : ℕ) (ss : List Send) → count_since a (drop n ss) ≤ count_since a ss
unfolding count_since
count_since-drop_le a zero ss = omega arith
count_since-drop_le a (suc n) [] = omega arith
count_since-drop_le a (suc n) (s ∷ ss) = ground (arith, count_since-drop_le a n ss)

count_since-last_n_le : (a n : ℕ) (ss : List Send) → count_since a (last_n n ss) ≤ count_since a ss
unfolding last_n
count_since-last_n_le a n ss = count_since-drop_le a (length ss - n) ss

-- A success adds one send at most to any count.
count_since-note_success :
    (a : ℕ) (key : Text) (now : ℕ) (g : Guard)
    → count_since a (note_success key now g).sends ≤ suc (count_since a g.sends)
unfolding note_success
count_since-note_success a key now g =
    let s : Send = record { at = some now; group = key } in
    let kept = filter (is_since (now - 3 * day)) (g.sends ++ s ∷ []) in
    omega (
      arith,
      count_since-last_n_le a 2000 kept,
      count_since-filter_le a (is_since (now - 3 * day)) (g.sends ++ s ∷ []),
      count_since-append_le a g.sends s,
    )

budget_ok_lem :
    (c : SafetyConfig) (now : ℕ) (g : Guard)
    → budget_ok c now g ≡ ok
    → (count_since (now - hour) g.sends < c.hourly_budget)
      × (count_since (now - day) g.sends < c.daily_budget)
unfolding budget_ok
budget_ok_lem c now g h = ground arith

-- the counts of the last hour and of the last day within their budgets
pub record Within (c : SafetyConfig) (now : ℕ) (g : Guard) : Type 0 where
  pub by_hour : count_since (now - hour) g.sends ≤ c.hourly_budget
  pub by_day : count_since (now - day) g.sends ≤ c.daily_budget

-- How time passes and the guard is called: a delivery asks for the budget, and notes its success
-- when it is sent, after its delays.
pub data Step (c : SafetyConfig) : ℕ × Guard → ℕ × Guard → Type 0 where
  waited : (now later : ℕ) (g : Guard) → now ≤ later → Step c (now, g) (later, g)
  sent :
      (key : Text) (now later : ℕ) (g : Guard)
      → budget_ok c now g ≡ ok
      → now ≤ later
      → Step c (now, g) (later, note_success key later g)
  flooded :
      (reason : Text) (now : ℕ) (g : Guard) → Step c (now, g) (now, note_flood_wait c reason now g)
  banned :
      (reason : Text) (now : ℕ) (g : Guard) → Step c (now, g) (now, note_peer_flood c reason now g)
  checked : (now : ℕ) (g : Guard) → Step c (now, g) (now, (circuit_status now g).1)

pub data Run (c : SafetyConfig) : ℕ × Guard → ℕ × Guard → Type 0 where
  stay : (s : ℕ × Guard) → Run c s s
  then_ : {s t u : ℕ × Guard} → Run c s t → Step c t u → Run c s u

sends-flood :
    (c : SafetyConfig) (reason : Text) (now : ℕ) (g : Guard)
    → (note_flood_wait c reason now g).sends ≡ g.sends
unfolding note_flood_wait open_circuit
sends-flood c reason now g = ground arith

sends-circuit_until : (now end_ : ℕ) (g : Guard) → (circuit_until now end_ g).1.sends ≡ g.sends
unfolding circuit_until close_circuit
sends-circuit_until now end_ g = ground arith

sends-paused :
    (now : ℕ) (g : Guard) (p : Pause)
    → g.paused_until ≡ p
    → (circuit_status now g).1.sends ≡ g.sends
unfolding circuit_status
sends-paused now g not_paused e = ground arith
sends-paused now g unreadable e = ground arith
sends-paused now g (until end_) e = ground (arith, sends-circuit_until now end_ g)

sends-circuit : (now : ℕ) (g : Guard) → (circuit_status now g).1.sends ≡ g.sends
sends-circuit now g = sends-paused now g g.paused_until refl

Within-later :
    (c : SafetyConfig) (now later : ℕ) (g : Guard) → now ≤ later → Within c now g → Within c later g
Within-later c now later g l w = record {
  by_hour =
      omega
        (arith, w.by_hour, count_since-antitone (now - hour) (later - hour) g.sends (omega arith));
  by_day =
      omega (arith, w.by_day, count_since-antitone (now - day) (later - day) g.sends (omega arith));
}

Within-sends :
    (c : SafetyConfig) (now : ℕ) (g h : Guard) → h.sends ≡ g.sends → Within c now g → Within c now h
Within-sends c now g h e w = record { by_hour = rw e w.by_hour; by_day = rw e w.by_day }

Within-sent :
    (c : SafetyConfig) (key : Text) (now later : ℕ) (g : Guard)
    → budget_ok c now g ≡ ok
    → now ≤ later
    → Within c later (note_success key later g)
Within-sent c key now later g h l =
    let b = budget_ok_lem c now g h in
    record {
      by_hour = omega (
        arith,
        b.0,
        count_since-antitone (now - hour) (later - hour) g.sends (omega arith),
        count_since-note_success (later - hour) key later g,
      );
      by_day = omega (
        arith,
        b.1,
        count_since-antitone (now - day) (later - day) g.sends (omega arith),
        count_since-note_success (later - day) key later g,
      );
    }

Step-Within :
    (c : SafetyConfig) {s t : ℕ × Guard} → Step c s t → Within c s.0 s.1 → Within c t.0 t.1
unfolding note_peer_flood open_circuit
Step-Within c (waited now later g l) w = Within-later c now later g l w
Step-Within c (sent key now later g h l) w = Within-sent c key now later g h l
Step-Within c (flooded reason now g) w =
    Within-sends c now g (note_flood_wait c reason now g) (sends-flood c reason now g) w
Step-Within c (banned reason now g) w = Within-sends c now g (note_peer_flood c reason now g) refl w
Step-Within c (checked now g) w =
    Within-sends c now g (circuit_status now g).1 (sends-circuit now g) w

-- If the sends are within both budgets at the start and every success follows a delivery that the
-- budget allowed, then however long the delays are and
-- whatever floods come between, the sends of the last hour never exceed the hourly budget, nor
-- those of the last day the daily one.
pub Run-Within :
    (c : SafetyConfig) {s t : ℕ × Guard} → Run c s t → Within c s.0 s.1 → Within c t.0 t.1
Run-Within c (stay s) w = w
Run-Within c (then_ r s) w = Step-Within c s (Run-Within c r w)

-- After a success in a group, the group's cooldown holds until the configured time has passed and is
-- over from then on, and the cooldown of any other group is as before.
pub group_cooldown_ok-note_success :
    (c : SafetyConfig) (key other : Text) (sent_at now : ℕ) (g : Guard)
    → (now < sent_at + c.per_group_cooldown
        → group_cooldown_ok c key now (note_success key sent_at g)
          ≡ cooldown ((sent_at + c.per_group_cooldown - now) / minute + 1))
      × (sent_at + c.per_group_cooldown ≤ now
          → group_cooldown_ok c key now (note_success key sent_at g) ≡ ok)
      × ((other == key) ≡ false
          → group_cooldown_ok c other now (note_success key sent_at g)
            ≡ group_cooldown_ok c other now g)
unfolding group_cooldown_ok note_success cooldown_verdict
group_cooldown_ok-note_success c key other sent_at now g =
    let found = lookup-insert key key (some sent_at) g.group_last in
    let else_ = lookup-insert other key (some sent_at) g.group_last in
    (λ l. ground (arith, found), λ l. ground (arith, found), λ n. ground (arith, else_))
