-- ===== src/Promo/Routes.antt =====
-- modules/promo_spread/routes.py: the routes by their source, and the form of a reference from
-- modules/channel_forward/refs.py, `display_ref`, of a text.
pub mod Upsert
use telegram_auto.Prelude.{
  ℕ, Bool, true, false, not, ◌&&◌, ◌||◌, Option, none, some, List, [], ◌∷◌, ◌++◌, Text, codes, ◌==◌,
  nat_eq, text_eq, if◌then◌else◌, filter, find?, any,
}
use telegram_auto.Prelude.Strip.{strip, is_empty}
use telegram_auto.Prelude.Parse.{digit_value}
use telegram_auto.Prelude.Search.{starts_with, occurs_in}

unfoldable pub all_digits : Text → Bool
unfolding digit_value
all_digits [] = true
all_digits (c ∷ text) = elim (digit_value c) [ none ↦ false | some d ↦ all_digits text ]

-- `text.lstrip("-").isdigit()`, for the digits of ASCII and the Arabic and Persian ones
unfoldable pub is_number : Text → Bool
unfolding all_digits is_empty
is_number [] = false
is_number (c ∷ text) = if c == b'-' then is_number text else all_digits (c ∷ text)

-- `display_ref` of a text
unfoldable pub display_ref : Text → Text
unfolding strip is_empty starts_with occurs_in is_number
display_ref value =
    let text = strip value in
    let linked = starts_with (codes "@") text || occurs_in (codes "t.me/") text in
    if is_empty text
    then text
    else if linked || (is_number text && starts_with (codes "-") text)
    then text
    else codes "@" ++ text

pub record Route : Type 0 where
  pub source : Text
  pub groups : List Text
  pub enabled : Bool
  pub paused : Bool
  pub mode : Text

-- `display_ref(route.get("source")) == want`
unfoldable pub has_source : Text → Route → Bool
unfolding display_ref
has_source want r = display_ref r.source == want

unfoldable pub find_route : List Route → Text → Option Route
unfolding has_source
find_route routes source = find? (has_source (display_ref source)) routes

-- the loop of `upsert_route`
unfoldable pub replace_routes : Text → Route → List Route → List Route
unfolding has_source
replace_routes src route [] = []
replace_routes src route (r ∷ rs) =
    let rest = replace_routes src route rs in if has_source src r then route ∷ rest else r ∷ rest

unfoldable pub upsert_route : List Route → Route → List Route
unfolding replace_routes
upsert_route routes route =
    let src = display_ref route.source in
    let out = replace_routes src route routes in
    if any (has_source src) routes then out else out ++ route ∷ []

unfoldable pub remove_route : List Route → Text → List Route
unfolding has_source
remove_route routes source = filter (λ r. not (has_source (display_ref source) r)) routes
