-- ===== src/Forward/Schedule/Days.antt =====
-- The days that `parse_days_csv` gives (modules/channel_forward/schedule.py).
use telegram_auto.Prelude.{
  ℕ, ◌<◌, ◌≡◌, refl, ap, sym, false, none, some, List, [], ◌∷◌, ◌++◌, Text, arith, ◌==◌, nat_eq,
  text_eq, inl, inr, Bool-cases, Option-cases, length, All, All-append, contains,
}
use mathlib.Core.Path.{subst}
use telegram_auto.Prelude.Dict
use telegram_auto.Prelude.Numbers.{Nodup}
use telegram_auto.Prelude.Parse.{lower}
use telegram_auto.Forward.Schedule.{day_aliases, words, collect_days, nonempty, parse_days_csv}

aliases_range : (w : Text) (d : ℕ) → Dict.lookup w day_aliases ≡ some d → d < 7
unfolding Dict.lookup
aliases_range w d e = All-values day_aliases (omega arith) e
  where
    All-values : (m : Dict.Dict Text ℕ) → All (λ x. x.1 < 7) m → Dict.lookup w m ≡ some d → d < 7
    All-values [] h e = cc
    All-values ((k, v) ∷ m) h e = ground (arith, All-values m h.1)

contains-append :
    (x d : ℕ) (out : List ℕ)
    → contains out x ≡ false
    → (d == x) ≡ false
    → contains (out ++ d ∷ []) x ≡ false
unfolding contains
contains-append x d [] h n = ground arith
contains-append x d (y ∷ out) h n = ground (arith, contains-append x d out)

Nodup-append : (d : ℕ) (out : List ℕ) → Nodup out → contains out d ≡ false → Nodup (out ++ d ∷ [])
unfolding contains
Nodup-append d [] u h = (refl, tt)
Nodup-append d (x ∷ out) u h =
    (contains-append x d out (ground arith) (ground arith), Nodup-append d out u.1 (ground arith))

abbrev Is7 : ℕ → Type 0
Is7 d = d < 7

collect_nil : (out res : List ℕ) → collect_days [] out ≡ some res → out ≡ res
unfolding collect_days
collect_nil out res e = ap (λ o. elim o [ none ↦ out | some ds ↦ ds ]) e

collect_days_lem :
    (ws : List Text) (out res : List ℕ)
    → Nodup out
    → All Is7 out
    → collect_days ws out ≡ some res
    → Nodup res × All Is7 res
unfolding collect_days
collect_days_lem [] out res u h e = subst (λ r. Nodup r × All Is7 r) (collect_nil out res e) (u, h)
collect_days_lem (w ∷ ws) out res u h e = elim (Option-cases (Dict.lookup (lower w) day_aliases)) [
  | inl n ↦ ground arith
  | inr (d, n) ↦ elim (Bool-cases (contains out d)) [
    | inl c ↦ collect_days_lem ws out res u h (ground arith)
    | inr c ↦
        collect_days_lem ws (out ++ d ∷ []) res (Nodup-append d out u c)
          (All-append Is7 out (d ∷ []) h (aliases_range (lower w) d n, tt)) (ground arith)
  ]
]

nonempty_lem : (ds res : List ℕ) → nonempty ds ≡ some res → (res ≡ ds) × ((length res == 0) ≡ false)
unfolding nonempty
nonempty_lem [] res e = ground arith
nonempty_lem (d ∷ ds) res e = ground arith

-- The days that `parse_days_csv` gives are numbers of weekdays, none is listed twice, and there is
-- at least one.
pub parse_days_csv_lem :
    (text : Text) (res : List ℕ)
    → parse_days_csv text ≡ some res
    → Nodup res × All (λ d. d < 7) res × ((length res == 0) ≡ false)
unfolding parse_days_csv
parse_days_csv_lem text res e = elim (Option-cases (collect_days (words text) [])) [
  | inl n ↦ ground arith
  | inr (ds, n) ↦
      let found = nonempty_lem ds res (ground arith) in
      let days = collect_days_lem (words text) [] ds tt tt n in
      (subst Nodup (sym found.0) days.0, subst (All Is7) (sym found.0) days.1, found.1)
]
