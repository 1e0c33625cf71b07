-- ===== src/Forward/Schedule.antt =====
-- modules/channel_forward/schedule.py: the windows in which a route publishes. A time of day is the
-- number of microseconds since midnight; days are numbered from Monday, 0, as in `_DAY_NAMES`. The
-- weekday and the time of a moment in the route's time zone are arguments, since `astimezone` reads
-- the time zone database.
pub mod Windows
pub mod Days
use Prim.Native.String.{String}
use telegram_auto.Prelude.{
  ℕ, ◌+◌, ◌*◌, Bool, true, false, not, ◌&&◌, ◌||◌, Option, none, some, List, [], ◌∷◌, ◌++◌, map,
  Text, codes, leb, ltb, ◌==◌, nat_eq, text_eq, if◌then◌else◌, length, filter, contains,
}
use telegram_auto.Prelude.Dict
use telegram_auto.Prelude.Dict.{Dict}
use telegram_auto.Prelude.Strip.{strip, is_empty}
use telegram_auto.Prelude.Parse.{lower, replace_char, split_once, split_all, int_of, in_range}

-- a time of day in hours and minutes
pub record HourMinute : Type 0 where
  pub hour : ℕ
  pub minute : ℕ

unfoldable pub micros : HourMinute → ℕ
micros t = (t.hour * 60 + t.minute) * 60_000_000

-- the range test of `_parse_hhmm`
unfoldable pub check_hhmm : Bool × ℕ → Bool × ℕ → Option HourMinute
unfolding in_range
check_hhmm h m =
    if in_range 23 h && in_range 59 m then some (record { hour = h.1; minute = m.1 }) else none

-- `_parse_hhmm`: `none` is the `ValueError`
unfoldable pub parse_hhmm : Text → Option HourMinute
unfolding check_hhmm int_of split_once
parse_hhmm value = elim (split_once b':' (strip value)) [
  | none ↦ none
  | some (hour_s, minute_s) ↦ elim (int_of hour_s) [
    | none ↦ none
    | some h ↦ elim (int_of minute_s) [ none ↦ none | some m ↦ check_hhmm h m ]
  ]
]

pub record ScheduleWindow : Type 0 where
  pub start : Text
  pub end_ : Text

-- the comparisons of `ScheduleWindow.contains`
unfoldable pub within : ℕ → ℕ → ℕ → Bool
within start end_ now =
    if leb start end_ then leb start now && leb now end_ else leb start now || leb now end_

-- `ScheduleWindow.contains`
unfoldable pub window_contains : ScheduleWindow → ℕ → Option Bool
unfolding within parse_hhmm micros
window_contains w now = elim (parse_hhmm w.start) [
  | none ↦ none
  | some s ↦ elim (parse_hhmm w.end_) [
    | none ↦ none
    | some e ↦ some (within (micros s) (micros e) now)
  ]
]

pub record ScheduleConfig : Type 0 where
  pub enabled : Bool
  pub days : List ℕ
  pub windows : List ScheduleWindow
  pub max_posts_per_day : ℕ

-- `any(window.contains(now_t) for window in windows)`
unfoldable pub any_contains : List ScheduleWindow → ℕ → Option Bool
unfolding window_contains
any_contains [] now = some false
any_contains (w ∷ ws) now =
    let rest = any_contains ws now in
    elim (window_contains w now) [ none ↦ none | some true ↦ some true | some false ↦ rest ]

-- `is_open`, for a moment with the weekday and the time of day
unfoldable pub is_open : ScheduleConfig → ℕ → ℕ → Option Bool
unfolding any_contains
is_open c weekday now =
    if not c.enabled
    then some true
    else if length c.windows == 0
    then some false
    else if not (contains c.days weekday)
    then some false
    else any_contains c.windows now

-- `_DAY_ALIASES`; the Persian names are given by their code points.
abbrev pub day_aliases : Dict Text ℕ
day_aliases =
    (codes "mon", 0)
    ∷ (codes "monday", 0)
    ∷ ((0x62f ∷ 0x648 ∷ 0x634 ∷ 0x646 ∷ 0x628 ∷ 0x647 ∷ []), 0)
    ∷ (codes "tue", 1)
    ∷ (codes "tuesday", 1)
    ∷ ((0x633 ∷ 0x647 ∷ 0x200c ∷ 0x634 ∷ 0x646 ∷ 0x628 ∷ 0x647 ∷ []), 1)
    ∷ ((0x633 ∷ 0x647 ∷ 0x634 ∷ 0x646 ∷ 0x628 ∷ 0x647 ∷ []), 1)
    ∷ (codes "wed", 2)
    ∷ (codes "wednesday", 2)
    ∷ ((0x686 ∷ 0x647 ∷ 0x627 ∷ 0x631 ∷ 0x634 ∷ 0x646 ∷ 0x628 ∷ 0x647 ∷ []), 2)
    ∷ (codes "thu", 3)
    ∷ (codes "thursday", 3)
    ∷ ((0x67e ∷ 0x646 ∷ 0x62c ∷ 0x634 ∷ 0x646 ∷ 0x628 ∷ 0x647 ∷ []), 3)
    ∷ (codes "fri", 4)
    ∷ (codes "friday", 4)
    ∷ ((0x62c ∷ 0x645 ∷ 0x639 ∷ 0x647 ∷ []), 4)
    ∷ (codes "sat", 5)
    ∷ (codes "saturday", 5)
    ∷ ((0x634 ∷ 0x646 ∷ 0x628 ∷ 0x647 ∷ []), 5)
    ∷ (codes "sun", 6)
    ∷ (codes "sunday", 6)
    ∷ ((0x6cc ∷ 0x6a9 ∷ 0x634 ∷ 0x646 ∷ 0x628 ∷ 0x647 ∷ []), 6)
    ∷ []

-- the words of a list with commas, Persian ones included
unfoldable pub words : Text → List Text
unfolding replace_char split_all
words text =
    filter (λ w. not (is_empty w)) (map strip (split_all b',' (replace_char 0x60c b',' text)))

-- the loop of `parse_days_csv`, which refuses a word that names no day
unfoldable pub collect_days : List Text → List ℕ → Option (List ℕ)
unfolding lower
collect_days [] out = some out
collect_days (w ∷ ws) out = elim (Dict.lookup (lower w) day_aliases) [
  | none ↦ none
  | some d ↦ collect_days ws (if contains out d then out else out ++ d ∷ [])
]

unfoldable pub nonempty {ℓ} : {A : Type ℓ} → List A → Option (List A)
nonempty [] = none
nonempty (x ∷ xs) = some (x ∷ xs)

-- `parse_days_csv`
unfoldable pub parse_days_csv : Text → Option (List ℕ)
unfolding words collect_days nonempty
parse_days_csv text = elim (collect_days (words text) []) [ none ↦ none | some out ↦ nonempty out ]

unfoldable pub parse_window : Text → Option ScheduleWindow
unfolding parse_hhmm
parse_window chunk = elim (split_once b'-' chunk) [
  | none ↦ none
  | some (start, end_) ↦ elim (parse_hhmm (strip start)) [
    | none ↦ none
    | some _ ↦ elim (parse_hhmm (strip end_)) [
      | none ↦ none
      | some _ ↦ some (record { start = strip start; end_ = strip end_ })
    ]
  ]
]

unfoldable pub collect_windows : List Text → Option (List ScheduleWindow)
unfolding parse_window
collect_windows [] = some []
collect_windows (c ∷ cs) =
    let rest = collect_windows cs in
    elim (parse_window c) [
      | none ↦ none
      | some w ↦ elim rest [ none ↦ none | some ws ↦ some (w ∷ ws) ]
    ]

-- `parse_windows_csv`
unfoldable pub parse_windows_csv : Text → Option (List ScheduleWindow)
unfolding words collect_windows nonempty
parse_windows_csv text = elim (collect_windows (words text)) [ none ↦ none | some ws ↦ nonempty ws ]
