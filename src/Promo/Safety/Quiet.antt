-- ===== src/Promo/Safety/Quiet.antt =====
-- modules/promo_spread/safety.py, `quiet_hours_to_windows`: the windows of work outside of quiet hours.
use telegram_auto.Prelude.{
  ℕ, zero, suc, ◌+◌, ◌*◌, ◌/◌, ◌%◌, ◌<◌, ◌≡◌, refl, ap, Bool, true, false, not, ◌&&◌, ◌||◌, Option,
  none, some, List, [], ◌∷◌, ◌++◌, Text, codes, ltb, leb, ◌==◌, nat_eq, text_eq, if◌then◌else◌, any,
  arith, length, Bool-cases, Option-cases, inl, inr,
}
use mathlib.Core.Path.{subst}
use telegram_auto.Prelude.Strip.{strip, lstrip, is_space}
use telegram_auto.Prelude.Parse.{
  split_once, int_of, in_range, read_signed, read_digits, digit_value,
}
use telegram_auto.Promo.Safety.Active.{
  ActiveHours, is_active_time, minutes_of, parse_minutes, lies_within, in_window,
}

-- hours and minutes
abbrev pub Time : Type 0
Time = ℕ × ℕ

-- the order of tuples
unfoldable pub time_le : Time → Time → Bool
unfolding nat_eq
time_le a b = ltb a.0 b.0 || (a.0 == b.0 && leb a.1 b.1)

unfoldable pub time_of : Bool × ℕ → Bool × ℕ → Option Time
unfolding in_range nat_eq
time_of h m =
    if not h.0 && h.1 == 24 && m.1 == 0
    then some (0, 0)
    else if in_range 23 h && in_range 59 m
    then some (h.1, m.1)
    else none

-- `_parse_hhmm_tuple`
unfoldable pub parse_hhmm_tuple : Text → Option Time
unfolding time_of int_of split_once strip
parse_hhmm_tuple raw = elim (split_once b':' (strip raw)) [
  | none ↦ none
  | some (h, m) ↦ elim (int_of h) [
    | none ↦ none
    | some h ↦ elim (int_of m) [ none ↦ none | some m ↦ time_of h m ]
  ]
]

-- `f"{n:02d}"` of a number below 100
abbrev two_digits : ℕ → Text
two_digits n = (b'0' + n / 10) ∷ (b'0' + n % 10) ∷ []

unfoldable pub time_text : Time → Text
time_text t = two_digits t.0 ++ b':' ∷ two_digits t.1

unfoldable pub windows_between : Time → Time → List (Text × Text)
unfolding time_le time_text
windows_between a b =
    if time_le a b
    then if a.0 == 0 && a.1 == 0
      then (time_text b, codes "23:59") ∷ []
      else (codes "00:00", time_text a)
        ∷ (if b.0 == 23 && b.1 == 59 then [] else (time_text b, codes "23:59") ∷ [])
    else (time_text b, time_text a) ∷ []

-- `quiet_hours_to_windows`, `none` where a time cannot be read
unfoldable pub quiet_hours_to_windows : Text → Text → Option (List (Text × Text))
unfolding parse_hhmm_tuple windows_between
quiet_hours_to_windows start end_ = elim (parse_hhmm_tuple start) [
  | none ↦ none
  | some a ↦ elim (parse_hhmm_tuple end_) [ none ↦ none | some b ↦ some (windows_between a b) ]
]

-- The texts of all times of a day are read back, by a table.
abbrev all_below : ℕ → (ℕ → Bool) → Bool
all_below zero f = true
all_below (suc n) f = f n && all_below n f

abbrev is_minutes : ℕ → Option ℕ → Bool
is_minutes n none = false
is_minutes n (some k) = k == n

table :
    all_below 24
      (λ h. all_below 60 (λ m. is_minutes (h * 60 + m) (parse_minutes (time_text (h, m)))))
    ≡ true
unfolding parse_minutes time_text strip lstrip is_space split_once int_of read_signed read_digits
    digit_value minutes_of in_range nat_eq
table = refl

all_below-at : (n : ℕ) (f : ℕ → Bool) (k : ℕ) → k < n → all_below n f ≡ true → f k ≡ true
all_below-at zero f k h e = absurd (omega arith)
all_below-at (suc n) f k h e = elim (Bool-cases (k == n)) [
  | inl last ↦
      let same : n ≡ k = ground (arith, last) in subst (λ x. f x ≡ true) same (ground (arith, e))
  | inr earlier ↦ all_below-at n f k (ground (arith, h, earlier)) (ground (arith, e))
]

is_minutes-some : (n : ℕ) (o : Option ℕ) → is_minutes n o ≡ true → o ≡ some n
is_minutes-some n none h = cc
is_minutes-some n (some k) h = let e : k ≡ n = ground (arith, h) in ap some e

abbrev IsTime : Time → Type 0
IsTime t = (t.0 < 24) × (t.1 < 60)

-- the minute of the day
abbrev pub minute_of : Time → ℕ
minute_of t = t.0 * 60 + t.1

parse_minutes-time_text : (t : Time) → IsTime t → parse_minutes (time_text t) ≡ some (minute_of t)
parse_minutes-time_text t h = is_minutes-some (minute_of t) (parse_minutes (time_text t)) (
    all_below-at 60 (λ m. is_minutes (t.0 * 60 + m) (parse_minutes (time_text (t.0, m)))) t.1 h.1
      (all_below-at 24
        (λ k. all_below 60 (λ m. is_minutes (k * 60 + m) (parse_minutes (time_text (k, m))))) t.0
        h.0 table))

in_window-time_text :
    (t : ℕ) (a b : Time)
    → IsTime a
    → IsTime b
    → in_window t (time_text a, time_text b) ≡ lies_within (minute_of a) (minute_of b) t
unfolding in_window
in_window-time_text t a b ha hb =
    rw (parse_minutes-time_text a ha, parse_minutes-time_text b hb, in_window) refl

time_le-minute_of :
    (a b : Time) → IsTime a → IsTime b → time_le a b ≡ leb (minute_of a) (minute_of b)
unfolding time_le
time_le-minute_of a b ha hb = ground (arith, ha, hb)

-- whether a minute lies between the quiet hours' start and end, over midnight where they end before
-- they start
abbrev pub is_quiet : ℕ → ℕ → ℕ → Bool
is_quiet start end_ t =
    if leb start end_ then ltb start t && ltb t end_ else ltb start t || ltb t end_

abbrev within_day : Option Time → Bool
within_day none = true
within_day (some t) = ltb t.0 24 && ltb t.1 60

within_day-time_of : (h m : Bool × ℕ) → within_day (time_of h m) ≡ true
unfolding time_of in_range
within_day-time_of (true, h) (true, m) = ground arith
within_day-time_of (true, h) (false, m) = ground arith
within_day-time_of (false, h) (true, m) = ground arith
within_day-time_of (false, h) (false, m) = ground arith

within_day-parse_hhmm_tuple : (raw : Text) → within_day (parse_hhmm_tuple raw) ≡ true
unfolding parse_hhmm_tuple
within_day-parse_hhmm_tuple raw = elim (Option-cases (split_once b':' (strip raw))) [
  | inl e ↦ rw (e, parse_hhmm_tuple) refl
  | inr (p, e) ↦ elim (Option-cases (int_of p.0)) [
    | inl f ↦ rw (e, f, parse_hhmm_tuple) refl
    | inr (h, f) ↦ elim (Option-cases (int_of p.1)) [
      | inl g ↦ rw (e, f, g, parse_hhmm_tuple) refl
      | inr (m, g) ↦ rw (e, f, g, parse_hhmm_tuple) (within_day-time_of h m)
    ]
  ]
]

parse_hhmm_tuple-IsTime : (raw : Text) (t : Time) → parse_hhmm_tuple raw ≡ some t → IsTime t
parse_hhmm_tuple-IsTime raw t e =
    let inside : within_day (some t) ≡ true =
      subst (λ o. within_day o ≡ true) e (within_day-parse_hhmm_tuple raw) in
    (ground (arith, inside), ground (arith, inside))

in_window-last :
    (t : ℕ) (b : Time)
    → IsTime b
    → in_window t (time_text b, codes "23:59") ≡ lies_within (minute_of b) 1439 t
unfolding time_text
in_window-last t b hb = in_window-time_text t b (23, 59) hb (omega arith, omega arith)

in_window-first :
    (t : ℕ) (a : Time)
    → IsTime a
    → in_window t (codes "00:00", time_text a) ≡ lies_within 0 (minute_of a) t
unfolding time_text
in_window-first t a ha = in_window-time_text t (0, 0) a (omega arith, omega arith) ha

windows_between_some : (a b : Time) → (length (windows_between a b) == 0) ≡ false
unfolding windows_between
windows_between_some a b = ground arith

any-windows_between :
    (a b : Time) (t : ℕ)
    → IsTime a
    → IsTime b
    → 0 < t
    → t < 1439
    → any (in_window t) (windows_between a b) ≡ not (is_quiet (minute_of a) (minute_of b) t)
unfolding windows_between any lies_within
any-windows_between a b t ha hb lo hi =
    let order = time_le-minute_of a b ha hb in
    elim (Bool-cases (time_le a b)) [
      | inl le ↦ elim (Bool-cases (a.0 == 0 && a.1 == 0)) [
        | inl midnight ↦
            rw (le, midnight) (ground (arith, in_window-last t b hb, order, le, hi, midnight))
        | inr later ↦ elim (Bool-cases (b.0 == 23 && b.1 == 59)) [
          | inl last ↦
              rw (le, later, last) (ground (arith, in_window-first t a ha, order, le, hi, last))
          | inr before ↦
              rw (le, later, before)
                (ground (arith, in_window-first t a ha, in_window-last t b hb, order, le, hi))
        ]
      ]
      | inr gt_ ↦ rw gt_ (ground (arith, in_window-time_text t b a hb ha, order, gt_))
    ]

-- Where both times of the quiet hours can be read, `quiet_hours_to_windows` gives windows with which
-- the sender works in a minute of the day, other than the first and the last one, if and only if that
-- minute does not lie between the start and the end, over midnight where the end is before the start.
pub is_active_time-quiet_hours_to_windows :
    (start end_ : Text) (a b : Time) (hours : ActiveHours) (t : ℕ)
    → parse_hhmm_tuple start ≡ some a
    → parse_hhmm_tuple end_ ≡ some b
    → 0 < t
    → t < 1439
    → (ws : List (Text × Text)) × (quiet_hours_to_windows start end_ ≡ some ws)
      × (is_active_time (record hours { active_windows = ws }) t
          ≡ not (is_quiet (minute_of a) (minute_of b) t))
unfolding quiet_hours_to_windows is_active_time
is_active_time-quiet_hours_to_windows start end_ a b hours t e f lo hi = (
  windows_between a b,
  rw (e, f, quiet_hours_to_windows) refl,
  rw (windows_between_some a b) (
      any-windows_between a b t (parse_hhmm_tuple-IsTime start a e)
        (parse_hhmm_tuple-IsTime end_ b f) lo hi),
)
