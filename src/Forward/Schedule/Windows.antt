-- ===== src/Forward/Schedule/Windows.antt =====
-- The ends of a window, and windows over midnight (modules/channel_forward/schedule.py).
use telegram_auto.Prelude.{
  ℕ, ◌≤◌, ◌<◌, ◌≡◌, Bool, true, false, ◌||◌, Option, none, some, Text, arith, nat_eq, text_eq, inl,
  inr, ◌⊎◌, Option-cases,
}
use telegram_auto.Prelude.Parse.{in_range, int_of, split_once}
use telegram_auto.Prelude.Strip.{strip}
use telegram_auto.Forward.Schedule.{HourMinute, check_hhmm, parse_hhmm, within}

-- The window from one time to a different one and the window back cover the day between them, and
-- only the two ends lie in both.
pub within_complement :
    (start end_ now : ℕ)
    → start < end_ ⊎ end_ < start
    → ((within start end_ now || within end_ start now) ≡ true)
      × (within start end_ now ≡ true → within end_ start now ≡ true → (now ≡ start) ⊎ (now ≡ end_))
unfolding within
within_complement start end_ now (inl l) = (ground arith, λ a b. ground arith)
within_complement start end_ now (inr l) = (ground arith, λ a b. ground arith)

check_hhmm_range :
    (h m : Bool × ℕ) (t : HourMinute) → check_hhmm h m ≡ some t → (t.hour ≤ 23) × (t.minute ≤ 59)
unfolding check_hhmm in_range
check_hhmm_range (true, h) (true, m) t e = ground arith
check_hhmm_range (true, h) (false, m) t e = ground arith
check_hhmm_range (false, h) (true, m) t e = ground arith
check_hhmm_range (false, h) (false, m) t e = ground arith

check_both_range :
    (a b : Option (Bool × ℕ)) (t : HourMinute)
    → (elim a [ none ↦ none | some h ↦ elim b [ none ↦ none | some m ↦ check_hhmm h m ] ]) ≡ some t
    → (t.hour ≤ 23) × (t.minute ≤ 59)
check_both_range none b t e = ground arith
check_both_range (some h) none t e = ground arith
check_both_range (some h) (some m) t e = check_hhmm_range h m t e

-- A time that is accepted is a time of a day.
pub parse_hhmm_range :
    (value : Text) (t : HourMinute) → parse_hhmm value ≡ some t → (t.hour ≤ 23) × (t.minute ≤ 59)
unfolding parse_hhmm
parse_hhmm_range value t e = elim (Option-cases (split_once b':' (strip value))) [
  | inl n ↦ ground arith
  | inr (p, n) ↦ check_both_range (int_of p.0) (int_of p.1) t (ground arith)
]
