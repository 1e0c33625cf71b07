-- ===== src/Promo/Safety/Active.antt =====
-- modules/promo_spread/safety.py, `is_active_now`: the days and windows in which the sender works.
-- The weekday, from Monday, 0, and the time of day in minutes are those of the moment in the
-- configured time zone.
use telegram_auto.Prelude.{
  ℕ, zero, suc, ◌+◌, ◌*◌, Bool, true, false, ◌&&◌, ◌||◌, Option, none, some, List, [], ◌∷◌, map,
  Text, codes, leb, ◌==◌, nat_eq, text_eq, if◌then◌else◌, length, take, any, contains,
}
use telegram_auto.Prelude.Strip.{strip}
use telegram_auto.Prelude.Parse.{lower, split_once, int_of, in_range}
use telegram_auto.Promo.Safety.{Guard, circuit_status}

pub record ActiveHours : Type 0 where
  pub active_days : List Text
  -- the texts under "start" and "end", empty where they are missing
  pub active_windows : List (Text × Text)

-- a moment: the instant, the weekday and the minute of the day
pub record Clock : Type 0 where
  pub now : ℕ
  pub weekday : ℕ
  pub time : ℕ

-- the keys of `_DAY_ALIASES` in the order of their days
abbrev day_names : List Text
day_names =
    codes "mon"
    ∷ codes "tue"
    ∷ codes "wed"
    ∷ codes "thu"
    ∷ codes "fri"
    ∷ codes "sat"
    ∷ codes "sun"
    ∷ []

abbrev nth : List Text → ℕ → Option Text
nth [] n = none
nth (x ∷ xs) zero = some x
nth (x ∷ xs) (suc n) = nth xs n

-- the minutes of a time that `dt_time` accepts
unfoldable pub minutes_of : Bool × ℕ → Bool × ℕ → Option ℕ
unfolding in_range
minutes_of h m = if in_range 23 h && in_range 59 m then some (h.1 * 60 + m.1) else none

-- `_parse_hhmm`, in minutes
unfoldable pub parse_minutes : Text → Option ℕ
unfolding minutes_of int_of split_once
parse_minutes raw = elim (split_once b':' (strip raw)) [
  | none ↦ none
  | some (h, m) ↦ elim (int_of h) [
    | none ↦ none
    | some h ↦ elim (int_of m) [ none ↦ none | some m ↦ minutes_of h m ]
  ]
]

-- the two tests of a window, by day and over midnight
unfoldable pub lies_within : ℕ → ℕ → ℕ → Bool
lies_within start end_ t =
    if leb start end_ then leb start t && leb t end_ else leb start t || leb t end_

-- A window that cannot be read is passed over.
unfoldable pub in_window : ℕ → Text × Text → Bool
unfolding parse_minutes lies_within
in_window t w = elim (parse_minutes w.0) [
  | none ↦ false
  | some start ↦ elim (parse_minutes w.1) [ none ↦ false | some end_ ↦ lies_within start end_ t ]
]

unfoldable pub is_active_day : ActiveHours → ℕ → Bool
unfolding lower strip
is_active_day a weekday = elim (nth day_names weekday) [
  | none ↦ true
  | some name ↦ contains (map (λ d. take 3 (lower (strip d))) a.active_days) name
]

unfoldable pub is_active_time : ActiveHours → ℕ → Bool
unfolding in_window
is_active_time a t = length a.active_windows == 0 || any (in_window t) a.active_windows

-- `is_active_now`: the answer, and the state that the circuit's test leaves
unfoldable pub is_active_now : ActiveHours → Clock → Guard → Bool × Guard
unfolding is_active_day is_active_time circuit_status
is_active_now a k g =
    let (paused, h) = circuit_status k.now g in
    if paused then (false, h) else (is_active_day a k.weekday && is_active_time a k.time, h)
