-- ===== src/Forward/Quota/Counts.antt =====
-- `try_consume` and the counts of a destination whose newest day is the day of the call, as it is
-- when the clock does not run backwards (modules/channel_forward/quota.py).
use telegram_auto.Prelude.{
  ◌⊎◌, ℕ, zero, suc, ◌+◌, ◌-◌, ◌≤◌, ◌<◌, min, ◌≡◌, refl, ap, ◌∙◌, Bool, Option, none, some, [],
  arith, Text, ltb, nat_eq, text_eq, if◌then◌else◌, inl, inr, Bool-cases, All,
}
use telegram_auto.Prelude.Dict
use telegram_auto.Prelude.Dict.{Dict, keys, NodupKeys, lookup-insert, lookup-erase}
use telegram_auto.Prelude.Numbers.{Nodup}
use telegram_auto.Forward.Quota.{
  Cell, Bucket, days, falsy, truthy, QuotaFile, Result, ok, attribute_error, reload, cell_value,
  count_in, count, write_count, consume_in, try_consume,
}
use telegram_auto.Forward.Quota.Pruning.{IsCurrent, count-write_count, write_count-IsCurrent}

-- What an attempt at a cap does: the answer, the file after it and its count.
abbrev pub Attempts : QuotaFile → Text → ℕ → ℕ → ℕ → Result (Bool × QuotaFile) → Type 0
Attempts f key limit day c r =
    (g : QuotaFile) × (r ≡ ok (ltb c limit, g))
    × (count g key day ≡ ok (if ltb c limit then c + 1 else c))
    × ((c < limit) ⊎ (g ≡ f))
    × IsCurrent day (Dict.lookup key (reload g))

module _ (f : QuotaFile) (key : Text) (limit day : ℕ) where
  attempt_below :
      (d : Dict ℕ Cell) (c : ℕ)
      → Nodup (keys d)
      → All (λ k. k ≤ day) (keys d)
      → cell_value (Dict.lookup day d) ≡ c
      → c < limit
      → Attempts f key limit day c (consume_in (reload f) key (some (days d)) limit day f)
  unfolding consume_in
  attempt_below d c u newest e lt =
      let g = write_count (reload f) key d day (c + 1) in
      (
        g,
        ground arith,
        ground (arith, count-write_count (reload f) key d day (c + 1) u newest),
        inl lt,
        write_count-IsCurrent (reload f) key d day (c + 1) u newest,
      )

  attempt :
      (b : Option Bucket) (c : ℕ)
      → Dict.lookup key (reload f) ≡ b
      → IsCurrent day b
      → 0 < limit
      → count f key day ≡ ok c
      → Attempts f key limit day c (consume_in (reload f) key b limit day f)
  unfolding consume_in count
  attempt none c e h pos hc =
      let g = write_count (reload f) key [] day 1 in
      (
        g,
        ground arith,
        ground (arith, count-write_count (reload f) key [] day 1 tt tt),
        inl (ground arith),
        write_count-IsCurrent (reload f) key [] day 1 tt tt,
      )
  attempt (some falsy) c e h pos hc = absurd h
  attempt (some truthy) c e h pos hc = absurd h
  attempt (some (days d)) c e h pos hc =
      let hv : cell_value (Dict.lookup day d) ≡ c = cc (rw (e, count_in) at hc) in
      elim (Bool-cases (ltb c limit)) [
        | inl low ↦ attempt_below d c h.0 h.1 hv (ground arith)
        | inr full ↦ (f, ground arith, ground arith, inr refl, rw e h)
      ]

  -- If no recorded day of the destination lies after the day of the call, an attempt below a
  -- positive cap succeeds and raises the day's count by one; an attempt at the cap is refused and
  -- leaves the file as it was.
  pub try_consume_lem :
      (c : ℕ)
      → IsCurrent day (Dict.lookup key (reload f))
      → 0 < limit
      → count f key day ≡ ok c
      → Attempts f key limit day c (try_consume f key limit day)
  unfolding try_consume
  try_consume_lem c h pos e =
      let (g, r, k, o, w) = attempt (Dict.lookup key (reload f)) c refl h pos e in
      (g, ground (arith, r), k, o, w)

-- The calls of `try_consume` that a sequence of deliveries makes on one day: how many were allowed,
-- and the file in the end. An exception ends the sequence.
pub consume_times : ℕ → QuotaFile → Text → ℕ → ℕ → Result (ℕ × QuotaFile)
consume_times zero f key limit day = ok (0, f)
consume_times (suc n) f key limit day = elim (try_consume f key limit day) [
  | attribute_error ↦ attribute_error
  | ok (allowed, g) ↦ elim (consume_times n g key limit day) [
    | attribute_error ↦ attribute_error
    | ok (k, g') ↦ ok ((if allowed then k + 1 else k), g')
  ]
]

consume_times_step :
    (n k : ℕ) (b : Bool) (f g g' : QuotaFile) (key : Text) (limit day : ℕ)
    → try_consume f key limit day ≡ ok (b, g)
    → consume_times n g key limit day ≡ ok (k, g')
    → consume_times (suc n) f key limit day ≡ ok ((if b then k + 1 else k), g')
unfolding consume_times
consume_times_step n k b f g g' key limit day p q = ground arith

-- From a file without a day of the destination after this one, and a count within a positive cap:
-- however many deliveries try on one day, those allowed fill the cap exactly and never pass it.
pub consume_times-eq-min :
    (n : ℕ) (f : QuotaFile) (key : Text) (limit day c : ℕ)
    → IsCurrent day (Dict.lookup key (reload f))
    → 0 < limit
    → count f key day ≡ ok c
    → c ≤ limit
    → (g : QuotaFile) × (consume_times n f key limit day ≡ ok (min n (limit - c), g))
      × (count g key day ≡ ok (min (c + n) limit))
unfolding consume_times
consume_times-eq-min zero f key limit day c h pos e le = (f, ground arith, ground arith)
consume_times-eq-min (suc n) f key limit day c h pos e le =
    let (g, r, k, o, w) = try_consume_lem f key limit day c h pos e in
    let c' : ℕ = if ltb c limit then c + 1 else c in
    let (g', r', k') = consume_times-eq-min n g key limit day c' w pos k (ground arith) in
    let m : ℕ = min n (limit - c') in
    let tally : (if ltb c limit then m + 1 else m) ≡ min (suc n) (limit - c) = ground arith in
    (
      g',
      consume_times_step n m (ltb c limit) f g g' key limit day r r' ∙ ap (λ j. ok (j, g')) tally,
      k' ∙ ap ok (ground arith),
    )
