-- ===== src/Promo/Safety/Circuit.antt =====
-- When the circuit opens, how long it stays open, and what closes it.
use telegram_auto.Prelude.{
  ℕ, suc, ◌+◌, ◌*◌, ◌≤◌, ◌<◌, max, ◌≡◌, true, false, List, [], ◌∷◌, length, Text, arith, ltb,
}
use telegram_auto.Promo.Safety.{
  SafetyConfig, minute, Guard, circuit_status, circuit_until, close_circuit, open_circuit,
  note_flood_wait, until,
}

-- A circuit that was opened is open until its time has passed, a quarter of an hour at least, and
-- leaves the state alone; the first test from then on closes it and forgets the strikes.
pub circuit_status-open_circuit :
    (reason : Text) (duration opened now : ℕ) (g : Guard)
    → let h = open_circuit reason duration opened g in
      (now < opened + max (15 * minute) duration → circuit_status now h ≡ (true, h))
      × (opened + max (15 * minute) duration ≤ now
          → (circuit_status now h ≡ (false, close_circuit h))
            × ((circuit_status now h).1.flood_strikes ≡ 0)
            × ((later : ℕ) → (circuit_status later (circuit_status now h).1).0 ≡ false))
unfolding circuit_status circuit_until open_circuit close_circuit
circuit_status-open_circuit reason duration opened now g =
    (λ l. ground arith, λ l. (ground arith, ground arith, λ later. ground arith))

-- flood waits at instants, the newest first, with nothing between them
abbrev pub flood_times : SafetyConfig → Text → List ℕ → Guard → Guard
flood_times c reason [] g = g
flood_times c reason (t ∷ before) g = note_flood_wait c reason t (flood_times c reason before g)

-- A flood wait counts a strike; with the configured number of them it opens the circuit for the
-- configured time, and with fewer the circuit stays as it is.
pub note_flood_wait_lem :
    (c : SafetyConfig) (reason : Text) (now : ℕ) (g : Guard)
    → ((note_flood_wait c reason now g).flood_strikes ≡ suc g.flood_strikes)
      × (c.flood_strikes_to_pause ≤ suc g.flood_strikes
          → (note_flood_wait c reason now g).paused_until
            ≡ until (now + max (15 * minute) c.circuit_breaker))
      × (suc g.flood_strikes < c.flood_strikes_to_pause
          → (note_flood_wait c reason now g).paused_until ≡ g.paused_until)
unfolding note_flood_wait open_circuit
note_flood_wait_lem c reason now g = (ground arith, λ l. ground arith, λ l. ground arith)

strikes-flood_times :
    (c : SafetyConfig) (reason : Text) (times : List ℕ) (g : Guard)
    → (flood_times c reason times g).flood_strikes ≡ length times + g.flood_strikes
strikes-flood_times c reason [] g = omega arith
strikes-flood_times c reason (t ∷ before) g = ground (
  arith,
  strikes-flood_times c reason before g,
  (note_flood_wait_lem c reason t (flood_times c reason before g)).0,
)

until_status :
    (now end_ : ℕ) (g : Guard)
    → g.paused_until ≡ until end_
    → (circuit_status now g).0 ≡ ltb now end_
unfolding circuit_status circuit_until
until_status now end_ g e = ground arith

-- After flood waits at whatever times, with no success and no test of the circuit between them, that
-- with the strikes before make as many as are configured or more, the circuit is open until the last
-- of them is the configured time past, a quarter of an hour at least, and closed from then on.
pub circuit_status-flood_times :
    (c : SafetyConfig) (reason : Text) (last : ℕ) (before : List ℕ) (later : ℕ) (g : Guard)
    → c.flood_strikes_to_pause ≤ length (last ∷ before) + g.flood_strikes
    → (circuit_status later (flood_times c reason (last ∷ before) g)).0
      ≡ ltb later (last + max (15 * minute) c.circuit_breaker)
circuit_status-flood_times c reason last before later g l =
    let h = flood_times c reason before g in
    until_status later (last + max (15 * minute) c.circuit_breaker)
      (note_flood_wait c reason last h)
      ((note_flood_wait_lem c reason last h).1
        (omega (arith, l, strikes-flood_times c reason before g)))
