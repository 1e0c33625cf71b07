-- ===== src/Forward/Dedup.antt =====
-- modules/channel_forward/dedup.py, `DedupStore`: the fingerprints of what was forwarded on each
-- route. The state is the list under "entries" of dedup.json. Times are microseconds in UTC; an
-- entry whose time cannot be read has `none`. `content_fingerprint` hashes by SHA-256 of hashlib;
-- the fingerprint is an argument.
use telegram_auto.Prelude.{
  ℕ, ◌+◌, ◌*◌, ◌≤◌, ◌<◌, max, ◌≡◌, refl, ap, ◌∙◌, Bool, true, false, ◌&&◌, ◌||◌, Option, none, some,
  List, [], ◌∷◌, ◌++◌, Text, arith, leb, ◌==◌, nat_eq, text_eq, length, last_n, last_n-append,
  last_n_of_length-le, length-last_n-le, length-append, length-filter-le, filter, any, any-append,
}

pub record Entry : Type 0 where
  pub route_key : Text
  pub fp : Text
  pub at : Option ℕ

-- `timedelta(hours=max(1, window_hours))`
unfoldable pub window : ℕ → ℕ
window hours = max 1 hours * 3_600_000_000

-- the test `ts >= cutoff` of `_prune`, false where the time cannot be read
unfoldable pub is_fresh : ℕ → ℕ → Entry → Bool
unfolding window
is_fresh hours now e = elim e.at [ none ↦ false | some t ↦ leb now (t + window hours) ]

unfoldable pub prune : ℕ → ℕ → List Entry → List Entry
unfolding is_fresh
prune hours now entries = last_n 2000 (filter (is_fresh hours now) entries)

unfoldable pub is_match : Text → Text → Entry → Bool
is_match route fp e = e.route_key == route && e.fp == fp

-- The pruned list is not saved here: the file stays as it was.
unfoldable pub is_duplicate : Text → Text → ℕ → ℕ → List Entry → Bool
unfolding prune is_match
is_duplicate route fp hours now entries = any (is_match route fp) (prune hours now entries)

unfoldable pub remember : Text → Text → ℕ → List Entry → List Entry
remember route fp now entries =
    last_n 2000 (entries ++ record { route_key = route; fp = fp; at = some now } ∷ [])

any-filter : (p q : Entry → Bool) (xs : List Entry) → any p (filter q xs) ≡ any (λ e. p e && q e) xs
unfolding any filter
any-filter p q [] = refl
any-filter p q (x ∷ xs) = ground (arith, any-filter p q xs)

-- On a file within the bound that `remember` keeps, a post is a duplicate exactly when an entry of
-- its route with its fingerprint lies in the window of at least an hour.
pub is_duplicate_lem :
    (route fp : Text) (hours now : ℕ) (entries : List Entry)
    → length entries ≤ 2000
    → is_duplicate route fp hours now entries
      ≡ any (λ e. is_match route fp e && is_fresh hours now e) entries
unfolding is_duplicate
is_duplicate_lem route fp hours now entries h =
    let kept = filter (is_fresh hours now) entries in
    ap (any (is_match route fp))
      (last_n_of_length-le 2000 kept (omega (arith, length-filter-le (is_fresh hours now) entries)))
    ∙ any-filter (is_match route fp) (is_fresh hours now) entries

pub length-remember :
    (route fp : Text) (now : ℕ) (entries : List Entry)
    → length (remember route fp now entries) ≤ 2000
unfolding remember
length-remember route fp now entries =
    length-last_n-le 2000 (entries ++ record { route_key = route; fp = fp; at = some now } ∷ [])

-- What was remembered is a duplicate for as long as the window lasts, whatever the file held.
pub is_duplicate-remember :
    (route fp : Text) (hours now later : ℕ) (entries : List Entry)
    → later ≤ now + window hours
    → is_duplicate route fp hours later (remember route fp now entries) ≡ true
unfolding remember any is_match is_fresh
is_duplicate-remember route fp hours now later entries h =
    let e : Entry = record { route_key = route; fp = fp; at = some now } in
    let (zs, cut) = last_n-append 1999 entries e in
    is_duplicate_lem route fp hours later (remember route fp now entries)
      (length-remember route fp now entries)
    ∙ ap (any (λ x. is_match route fp x && is_fresh hours later x)) cut
    ∙ any-append (λ x. is_match route fp x && is_fresh hours later x) zs (e ∷ [])
    ∙ ground arith

-- While the file has fewer than 2000 entries, a post is a duplicate after `remember` exactly where it
-- was one before, or has the route and the fingerprint remembered and comes no later than the window
-- after, which is the configured number of hours and one hour at least.
pub is_duplicate-remember_any :
    (route fp other fp' : Text) (hours now later : ℕ) (entries : List Entry)
    → length entries < 2000
    → is_duplicate other fp' hours later (remember route fp now entries) ≡ (
        (route == other && fp == fp' && leb later (now + max 1 hours * 3_600_000_000))
        || is_duplicate other fp' hours later entries)
unfolding remember any is_match is_fresh window
is_duplicate-remember_any route fp other fp' hours now later entries h =
    let e : Entry = record { route_key = route; fp = fp; at = some now } in
    let room : length (entries ++ e ∷ []) ≤ 2000 = omega (arith, length-append entries (e ∷ [])) in
    let p : Entry → Bool = λ x. is_match other fp' x && is_fresh hours later x in
    is_duplicate_lem other fp' hours later (remember route fp now entries)
      (length-remember route fp now entries)
    ∙ ap (any p) (last_n_of_length-le 2000 (entries ++ e ∷ []) room)
    ∙ any-append p entries (e ∷ [])
    ∙ ground (arith, is_duplicate_lem other fp' hours later entries (omega arith))
