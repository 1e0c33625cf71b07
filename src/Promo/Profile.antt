-- ===== src/Promo/Profile.antt =====
-- modules/promo_spread/routes.py, `migrate_routes`: the routes of an account's configuration under
-- "promo_spread", with the older form of one source. A profile's other entries are left out; a source
-- that is missing is the empty text.
use telegram_auto.Prelude.{
  Bool, true, not, ◌||◌, List, [], ◌∷◌, Text, codes, ◌==◌, nat_eq, text_eq, if◌then◌else◌,
}
use telegram_auto.Prelude.Strip.{is_empty}
use telegram_auto.Prelude.Parse.{lower}
use telegram_auto.Promo.Routes.{Route, display_ref}
use telegram_auto.Promo.Refs.{normalize_group_list}

pub record Profile : Type 0 where
  pub routes : List Route
  -- the older form
  pub source : Text
  pub groups : List Text
  pub paused : Bool
  pub mode : Text

-- `a or b or "forward"`
unfoldable pub mode_or : Text → Text → Text
mode_or a b = if not (is_empty a) then a else if not (is_empty b) then b else codes "forward"

unfoldable pub clean_mode : Text → Text
clean_mode mode = if mode == codes "forward" || mode == codes "copy" then mode else codes "forward"

unfoldable pub migrate_route : Text → Route → Route
unfolding mode_or clean_mode
migrate_route config_mode r = record r {
  source = display_ref r.source;
  groups = normalize_group_list r.groups;
  mode = clean_mode (lower (mode_or r.mode config_mode));
}

-- the loop over the entries, of which those without a source are left out
unfoldable pub migrate_listed : Text → List Route → List Route
unfolding migrate_route
migrate_listed config_mode [] = []
migrate_listed config_mode (r ∷ rs) =
    let rest = migrate_listed config_mode rs in
    if is_empty r.source then rest else migrate_route config_mode r ∷ rest

-- `default_route` of the older form, whose groups are normalised before
unfoldable pub legacy_route : Profile → Route
unfolding mode_or
legacy_route p = record {
  source = display_ref p.source;
  groups = normalize_group_list (normalize_group_list p.groups);
  enabled = true;
  paused = p.paused;
  mode = lower (mode_or p.mode []);
}

unfoldable pub migrate_from : List Route → Profile → List Route
unfolding migrate_listed legacy_route
migrate_from [] p = if is_empty p.source then [] else legacy_route p ∷ []
migrate_from (r ∷ rs) p = migrate_listed p.mode (r ∷ rs)

unfoldable pub migrate_routes : Profile → List Route
unfolding migrate_from
migrate_routes p = migrate_from p.routes p
