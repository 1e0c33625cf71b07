-- ===== src/Promo/Refs.antt =====
-- modules/channel_forward/refs.py, `normalize_ref` of a text and the test of `invite_hash`, and the
-- lists of groups of modules/promo_spread/targets.py. Digits are those of ASCII and the two Arabic
-- series.
pub mod Shown
use telegram_auto.Prelude.{
  ℕ, ◌+◌, Bool, true, false, not, ◌&&◌, ◌||◌, Option, none, some, List, [], ◌∷◌, ◌++◌, Text, codes,
  ◌==◌, nat_eq, text_eq, if◌then◌else◌, contains, drop, length,
}
use mathlib.Core.List.{reverse}
use telegram_auto.Prelude.Strip.{strip, is_empty}
use telegram_auto.Prelude.Parse.{digit_value}
use telegram_auto.Prelude.Search.{starts_with, occurs_in}
use telegram_auto.Promo.Routes.{display_ref, is_number}

-- `text.lstrip(c)` for one character
unfoldable pub drop_char : ℕ → Text → Text
unfolding nat_eq
drop_char c [] = []
drop_char c (d ∷ s) = if d == c then drop_char c s else d ∷ s

-- `text.strip("/")`
unfoldable pub strip_slashes : Text → Text
unfolding drop_char
strip_slashes s = reverse (drop_char b'/' (reverse (drop_char b'/' s)))

-- `text.split("?")[0]`
unfoldable pub before_query : Text → Text
unfolding nat_eq
before_query [] = []
before_query (c ∷ s) = let rest = before_query s in if c == b'?' then [] else c ∷ rest

-- the digits of a number as `str` writes them, zeros in front included
unfoldable pub ascii_digits : Text → Text
ascii_digits [] = []
ascii_digits (c ∷ s) =
    let rest = ascii_digits s in elim (digit_value c) [ none ↦ rest | some d ↦ (b'0' + d) ∷ rest ]

-- without them
unfoldable pub drop_zeros : Text → Text
drop_zeros [] = []
drop_zeros (c ∷ []) = c ∷ []
drop_zeros (c ∷ d ∷ s) = let rest = drop_zeros (d ∷ s) in if c == b'0' then rest else c ∷ d ∷ s

abbrev with_sign : Text → Text
with_sign digits = if digits == codes "0" then digits else b'-' ∷ digits

-- `str(int(text))` of digits with minus signs in front, of which `int` takes one
unfoldable pub int_text : Text → Option Text
unfolding ascii_digits drop_zeros starts_with
int_text [] = some []
int_text (c ∷ s) =
    if c == b'-'
    then if starts_with (codes "-") s then none else some (with_sign (drop_zeros (ascii_digits s)))
    else some (drop_zeros (ascii_digits (c ∷ s)))

-- `text.split("t.me/", 1)[1]` of a link
unfoldable pub without_host : Text → Text
unfolding starts_with
without_host text =
    if starts_with (codes "https://t.me/") text
    then drop 13 text
    else if starts_with (codes "http://t.me/") text
    then drop 12 text
    else text

unfoldable pub without_at : Text → Text
unfolding starts_with
without_at text = if starts_with (codes "@") text then drop 1 text else text

-- `str(normalize_ref(value))`, `none` where it raises
unfoldable pub group_norm_key : Text → Option Text
unfolding strip is_empty without_host before_query strip_slashes without_at is_number int_text
group_norm_key value =
    let text = strip value in
    if is_empty text
    then none
    else let name = without_at (strip_slashes (before_query (without_host text))) in
      if is_number name then int_text name else some name

-- the text behind the first place where the part stands
unfoldable pub after_part : Text → Text → Option Text
unfolding starts_with
after_part part [] = none
after_part part (c ∷ s) =
    let rest = after_part part s in
    if starts_with part (c ∷ s) then some (drop (length part) (c ∷ s)) else rest

abbrev hash_in : Text → Text
hash_in behind = strip_slashes (before_query behind)

-- what follows the search for "/+" in `invite_hash`
abbrev plus_hash : Option Text → Text → Text
plus_hash (some behind) text = hash_in behind
plus_hash none text = if starts_with (codes "+") text then drop 1 text else []

abbrev join_hash : Option Text → Text → Text
join_hash (some behind) text = hash_in behind
join_hash none text = plus_hash (after_part (codes "/+") text) text

-- `invite_hash`, empty where it returns None
unfoldable pub invite_hash : Text → Text
unfolding after_part strip_slashes before_query starts_with
invite_hash value = let text = strip value in join_hash (after_part (codes "joinchat/") text) text

-- whether `normalize_group_list` leaves a text as it is
unfoldable pub is_link : Text → Bool
unfolding occurs_in is_empty
is_link text =
    not (is_empty (invite_hash text))
    || occurs_in (codes "t.me/") text
    || occurs_in (codes "telegram.me/") text

unfoldable pub shown_ref : Text → Text
shown_ref text = if is_link text then text else display_ref text

-- the loop of `normalize_group_list`
unfoldable pub collect_groups : List Text → List Text → List Text
unfolding is_empty contains
collect_groups [] out = out
collect_groups (item ∷ raw) out =
    let shown = shown_ref (strip item) in
    let skip = is_empty (strip item) || is_empty shown || contains out shown in
    collect_groups raw (if skip then out else out ++ shown ∷ [])

unfoldable pub normalize_group_list : List Text → List Text
normalize_group_list raw = collect_groups raw []
