-- ===== src/Promo/Exclusive.antt =====
-- app/promo_exclusivity.py: a group of the promo senders belongs to one account. The profiles are a
-- list of account ids with their configurations.
pub mod Claims
pub mod Reconcile
pub mod Kept
pub mod Given
pub mod Rows
pub mod Passes
pub mod Settled
pub mod Total
pub mod Unique
pub mod Foreign
use telegram_auto.Prelude.{
  ℕ, zero, suc, ◌+◌, Bool, true, false, not, ◌&&◌, ◌||◌, Option, none, some, List, [], ◌∷◌, ◌++◌,
  map, Text, ◌==◌, nat_eq, text_eq, if◌then◌else◌, filter, find?, any, length,
}
use telegram_auto.Prelude.Strip.{strip, is_empty}
use telegram_auto.Prelude.Dict
use telegram_auto.Prelude.Dict.{Dict}
use telegram_auto.Prelude.Ordered.{text_le, sort_in}
use telegram_auto.Promo.Routes.{Route, display_ref}
use telegram_auto.Promo.Refs.{group_norm_key}
use telegram_auto.Promo.Profile.{Profile, migrate_routes}

-- `group_norm_key(g) == group_norm`, false where it raises
unfoldable pub is_norm : Text → Text → Bool
is_norm norm g = elim (group_norm_key g) [ none ↦ false | some k ↦ k == norm ]

-- a placement in `_iter_route_groups`
pub record Placement : Type 0 where
  pub source : Text
  pub raw : Text
  pub norm : Text

-- the loop over the groups of a route
unfoldable pub place_groups : Text → List Text → List Placement
place_groups src [] = []
place_groups src (raw ∷ groups) =
    let rest = place_groups src groups in
    if is_empty (strip raw) then rest else elim (group_norm_key raw) [
      | none ↦ rest
      | some nk ↦ record { source = src; raw = raw; norm = nk } ∷ rest
    ]

unfoldable pub place_routes : List Route → List Placement
unfolding place_groups
place_routes [] = []
place_routes (r ∷ routes) =
    let rest = place_routes routes in
    let src = display_ref r.source in
    if is_empty src then rest else place_groups src r.groups ++ rest

unfoldable pub iter_route_groups : Profile → List Placement
unfolding place_routes
iter_route_groups p = place_routes (migrate_routes p)

-- a route without the group
unfoldable pub strip_route : Text → Route → Route
strip_route norm r = record r { groups = filter (λ g. not (is_norm norm g)) r.groups }

-- whether the profile had the group, and the profile without it
unfoldable pub strip_group_from_profile : Profile → Text → Bool × Profile
unfolding strip_route
strip_group_from_profile p norm =
    let routes = migrate_routes p in
    if any (λ r. any (is_norm norm) r.groups) routes
    then (true, record p { routes = map (strip_route norm) routes })
    else (false, p)

abbrev pub Profiles : Type 0
Profiles = List (Text × Profile)

-- the first loop of `claim_group`: how many profiles had the group
unfoldable pub strip_others : Text → Text → Profiles → ℕ × Profiles
unfolding strip_group_from_profile
strip_others owner norm [] = (0, [])
strip_others owner norm ((aid, p) ∷ profiles) =
    let (n, rest) = strip_others owner norm profiles in
    let (had, p') = strip_group_from_profile p norm in
    if aid == owner then (n, (aid, p) ∷ rest) else (if had then suc n else n, (aid, p') ∷ rest)

-- the route that `ensure_group_on_profile` chooses: the one of the preferred source, the first that
-- is enabled, or the first
unfoldable pub choose_route : Text → List Route → Option Route
choose_route preferred [] = none
choose_route preferred (r ∷ routes) =
    let wanted =
      if is_empty preferred
      then none
      else find? (λ x. display_ref x.source == preferred) (r ∷ routes) in
    elim wanted [
      | some x ↦ some x
      | none ↦ elim (find? (λ x. x.enabled) (r ∷ routes)) [ some x ↦ some x | none ↦ some r ]
    ]

-- `by_src`, after the loop and after the chosen route
unfoldable pub routes_by_source : List Route → Dict Text Route → Dict Text Route
routes_by_source [] d = d
routes_by_source (r ∷ routes) d =
    let src = display_ref r.source in
    routes_by_source routes (if is_empty src then d else Dict.insert src r d)

abbrev pub route_values : Dict Text Route → List Route
route_values [] = []
route_values ((k, r) ∷ d) = r ∷ route_values d

unfoldable pub put_route : Route → Dict Text Route → Dict Text Route
put_route r d = let src = display_ref r.source in if is_empty src then d else Dict.insert src r d

-- The chosen route is an entry of the list, and is changed there too; the entry under its source is
-- replaced in the end.
unfoldable pub add_to_route : Profile → Route → Text → Profile
unfolding put_route routes_by_source
add_to_route p target group_ref =
    let changed = record target { groups = target.groups ++ group_ref ∷ [] } in
    let by_src = put_route changed (routes_by_source (migrate_routes p) []) in
    record p { routes = sort_in (λ r s. text_le r.source s.source) (route_values by_src) }

-- whether the group is already there, and what becomes of the profile
unfoldable pub ensure_group_on_profile : Profile → Text → Text → Text → Bool × Profile
unfolding choose_route add_to_route
ensure_group_on_profile p norm group_ref preferred =
    elim (choose_route preferred (migrate_routes p)) [
      | none ↦ (false, p)
      | some target ↦
          (if any (is_norm norm) target.groups
            then (false, p)
            else (true, add_to_route p target group_ref))
    ]

-- the second loop of `claim_group`, which ends at the owner
unfoldable pub ensure_on_owner : Text → Text → Text → Text → Profiles → Bool × Profiles
unfolding ensure_group_on_profile
ensure_on_owner owner norm group_ref preferred [] = (false, [])
ensure_on_owner owner norm group_ref preferred ((aid, p) ∷ profiles) =
    let (added, rest) = ensure_on_owner owner norm group_ref preferred profiles in
    let (here, p') = ensure_group_on_profile p norm group_ref preferred in
    if aid == owner then (here, (aid, p') ∷ profiles) else (added, (aid, p) ∷ rest)

pub record Claimed : Type 0 where
  pub removed : ℕ
  pub added : Bool
  pub profiles : Profiles

-- `claim_group`, `none` where the reference to the group is empty or no number can be read of it. The
-- source that is preferred is empty where none is.
unfoldable pub claim_group : Text → Text → Text → Profiles → Option Claimed
claim_group owner group_ref source profiles = elim (group_norm_key group_ref) [
  | none ↦ none
  | some norm ↦
      let (removed, stripped) = strip_others owner norm profiles in
      let preferred = if is_empty source then [] else display_ref source in
      let (added, claimed) = ensure_on_owner owner norm group_ref preferred stripped in
      some (record { removed = removed; added = added; profiles = claimed })
]

-- whether an account sends to a group
unfoldable pub holds : Text → Profile → Bool
unfolding iter_route_groups
holds norm p = any (λ x. x.norm == norm) (iter_route_groups p)

-- the accounts that a group stands on, in `find_overlaps`
unfoldable pub owners_of : Text → Profiles → List Text
unfolding holds
owners_of norm [] = []
owners_of norm ((aid, p) ∷ profiles) =
    let rest = owners_of norm profiles in if holds norm p then aid ∷ rest else rest
