-- ===== src/Tests/Quieting.antt =====
-- Quiet hours over midnight, and those of a whole day.
use telegram_auto.Prelude.{
  ◌≡◌, refl, not, some, List, [], ◌∷◌, codes, nat_eq, text_eq, Text, arith, any,
}
use telegram_auto.Prelude.Strip.{strip, lstrip, is_space}
use telegram_auto.Prelude.Parse.{
  split_once, int_of, in_range, read_signed, read_digits, digit_value,
}
use telegram_auto.Promo.Safety.Active.{
  ActiveHours, minutes_of, parse_minutes, lies_within, in_window, is_active_time,
}
use telegram_auto.Promo.Safety.Quiet.{
  time_le, time_of, parse_hhmm_tuple, time_text, windows_between, quiet_hours_to_windows, is_quiet,
  minute_of, is_active_time-quiet_hours_to_windows,
}

program : Unit {0}
unfolding any strip lstrip is_space split_once int_of in_range read_signed read_digits digit_value
    minutes_of parse_minutes lies_within in_window is_active_time time_le time_of parse_hhmm_tuple
    time_text windows_between quiet_hours_to_windows nat_eq text_eq
program = tt

abbrev hours : ActiveHours
hours = record { active_days = []; active_windows = [] }

quiet_hours_to_windows-night :
    quiet_hours_to_windows (codes "22:00") (codes "08:00")
    ≡ some ((codes "08:00", codes "22:00") ∷ [])
unfolding program
quiet_hours_to_windows-night = refl

is_active_time-quiet_hours_to_windows_example :
    (ws : List (Text × Text)) × (quiet_hours_to_windows (codes "22:00") (codes "8:00") ≡ some ws)
    × (is_active_time (record hours { active_windows = ws }) 600
        ≡ not (is_quiet (minute_of (22, 0)) (minute_of (8, 0)) 600))
unfolding program
is_active_time-quiet_hours_to_windows_example =
    is_active_time-quiet_hours_to_windows (codes "22:00") (codes "8:00") (22, 0) (8, 0) hours 600
      refl refl (omega arith) (omega arith)

-- Quiet hours from midnight to midnight leave the whole day to the sender.
quiet_hours_to_windows-day :
    quiet_hours_to_windows (codes "00:00") (codes "24:00")
    ≡ some ((codes "00:00", codes "23:59") ∷ [])
unfolding program
quiet_hours_to_windows-day = refl
