-- ===== src/Promo/Exclusive/Reconcile.antt =====
-- app/promo_exclusivity.py, `reconcile_exclusive_profiles`, `rightful_owner` and
-- `foreign_group_norms_for_account`. The number that the hexadecimal SHA-1 of a text writes is a
-- parameter.
use telegram_auto.Prelude.{
  ℕ, suc, ◌+◌, ◌%◌, max, Bool, true, false, not, ◌&&◌, ◌||◌, Option, none, some, List, [], ◌∷◌,
  ◌++◌, map, Text, leb, ◌==◌, nat_eq, text_eq, if◌then◌else◌, filter, find?, any, length, contains,
  get_elem?,
}
use telegram_auto.Prelude.Strip.{strip, is_empty}
use telegram_auto.Prelude.Dict
use telegram_auto.Prelude.Dict.{Dict}
use telegram_auto.Prelude.Ordered.{text_le, sort_in}
use telegram_auto.Promo.Routes.{Route, display_ref}
use telegram_auto.Promo.Refs.{group_norm_key}
use telegram_auto.Promo.Profile.{Profile, migrate_routes}
use telegram_auto.Promo.Exclusive.{
  Placement, iter_route_groups, Profiles, strip_others, ensure_group_on_profile, owners_of,
}

-- `set(...)`, by the last occurrences
unfoldable pub distinct : List Text → List Text
unfolding contains
distinct [] = []
distinct (x ∷ xs) = let rest = distinct xs in if contains rest x then rest else x ∷ rest

-- `sorted(set(...))`
unfoldable pub sorted_set : List Text → List Text
unfolding distinct sort_in
sorted_set xs = sort_in text_le (distinct xs)

-- the ids without white space around them, and without the empty ones
unfoldable pub clean_ids : List Text → List Text
unfolding is_empty filter
clean_ids ids = filter (λ a. not (is_empty a)) (map strip ids)

unfoldable pub is_source : Route → Bool
unfolding is_empty
is_source r = r.enabled && not (is_empty (display_ref r.source))

-- the loop of `_enabled_source_keys`
unfoldable pub collect_sources : List Route → List Text → List Text
unfolding is_source contains
collect_sources [] sources = sources
collect_sources (r ∷ routes) sources =
    let src = display_ref r.source in
    let new = is_source r && not (contains sources src) in
    collect_sources routes (if new then sources ++ src ∷ [] else sources)

unfoldable pub enabled_source_keys : Profile → List Text
unfolding collect_sources
enabled_source_keys p = collect_sources (migrate_routes p) []

-- `profile_by_id.get(aid)`: the last profile of the id
unfoldable pub profile_of : Text → Profiles → Option Profile
profile_of aid [] = none
profile_of aid ((a, p) ∷ profiles) = elim (profile_of aid profiles) [
  | none ↦ if a == aid then some p else none
  | some q ↦ some q
]

-- `_has_source`
unfoldable pub has_source : Text → Profiles → Bool
unfolding profile_of enabled_source_keys
has_source aid profiles = elim (profile_of aid profiles) [
  | none ↦ false
  | some p ↦ not (length (enabled_source_keys p) == 0)
]

-- the accounts that can host a group: those of the argument, or all where it is empty
unfoldable pub sourced_ids : List Text → Profiles → List Text
unfolding clean_ids sorted_set has_source
sourced_ids account_ids profiles =
    let ids = if length account_ids == 0 then map (λ e. e.0) profiles else account_ids in
    sorted_set (filter (λ a. has_source a profiles) (clean_ids ids))

pub record Row : Type 0 where
  pub account_id : Text
  pub source : Text
  pub ref : Text

-- `placements.get(nk, [])`
unfoldable pub rows_at : Text → Dict Text (List Row) → List Row
unfolding Dict.lookup
rows_at norm d = elim (Dict.lookup norm d) [ none ↦ [] | some rows ↦ rows ]

-- the inner loop over the groups of a profile
unfoldable pub add_placements : Text → List Placement → Dict Text (List Row) → Dict Text (List Row)
unfolding rows_at Dict.insert
add_placements aid [] d = d
add_placements aid (x ∷ xs) d =
    let row : Row = record { account_id = aid; source = x.source; ref = x.raw } in
    add_placements aid xs (Dict.insert x.norm (rows_at x.norm d ++ row ∷ []) d)

unfoldable pub placements_of : Profiles → Dict Text (List Row) → Dict Text (List Row)
unfolding add_placements iter_route_groups
placements_of [] d = d
placements_of ((aid, p) ∷ profiles) d =
    placements_of profiles (add_placements aid (iter_route_groups p) d)

-- `sorted({r["account_id"] for r in rows})`
unfoldable pub owners_in : List Row → List Text
unfolding sorted_set
owners_in rows = sorted_set (map (λ r. r.account_id) rows)

-- how many groups stand on several accounts
unfoldable pub count_contested : Dict Text (List Row) → ℕ
unfolding owners_in
count_contested [] = 0
count_contested ((_, rows) ∷ d) =
    let rest = count_contested d in if leb (length (owners_in rows)) 1 then rest else suc rest

-- `ensure_group_on_profile(profile_by_id[winner], ...)`, which changes the last profile of the id
unfoldable pub ensure_on_last : Text → Text → Text → Text → Profiles → Bool × Profiles
unfolding ensure_group_on_profile any
ensure_on_last winner norm group_ref preferred [] = (false, [])
ensure_on_last winner norm group_ref preferred ((aid, p) ∷ profiles) =
    let (added, rest) = ensure_on_last winner norm group_ref preferred profiles in
    let (here, p') = ensure_group_on_profile p norm group_ref preferred in
    let later = any (λ e. e.0 == winner) profiles in
    if aid == winner && not later then (here, (aid, p') ∷ profiles) else (added, (aid, p) ∷ rest)

pub record Tally : Type 0 where
  pub changed : Bool
  pub moved : ℕ
  pub removed : ℕ
  pub profiles : Profiles

-- the account that keeps a contested group: the rightful one, if it has a source of posts, or one of
-- its owners
unfoldable pub winner_of : Text → List Text → Profiles → Text
unfolding has_source find?
winner_of rightful owners profiles =
    if has_source rightful profiles
    then rightful
    else elim (find? (λ a. has_source a profiles) owners) [
      | some a ↦ a
      | none ↦ elim owners [ [] ↦ [] | a ∷ _ ↦ a ]
    ]

-- the first group of a norm where the winner does not have it yet
unfoldable pub move_to : Text → Text → List Row → Tally → Tally
unfolding ensure_on_last
move_to winner norm [] t = t
move_to winner norm (row ∷ rows) t =
    let preferred = if is_empty row.source then [] else display_ref row.source in
    let (added, profiles) = ensure_on_last winner norm row.ref preferred t.profiles in
    if added then record t { changed = true; moved = suc t.moved; profiles = profiles } else t

unfoldable pub give_to : Text → Text → List Row → Tally → Tally
unfolding move_to strip_others any
give_to winner norm rows t =
    let moved = if any (λ r. r.account_id == winner) rows then t else move_to winner norm rows t in
    let (n, profiles) = strip_others winner norm moved.profiles in
    record moved {
      changed = moved.changed || not (n == 0);
      removed = moved.removed + n;
      profiles = profiles;
    }

pub record Reconciled : Type 0 where
  pub tally : Tally
  pub overlaps_before : ℕ
  pub overlaps_after : ℕ

-- `find_overlaps`
unfoldable pub overlaps_in : List Text → Profiles → List (Text × List Text)
unfolding owners_of
overlaps_in [] profiles = []
overlaps_in (norm ∷ norms) profiles =
    let rest = overlaps_in norms profiles in
    let owners = owners_of norm profiles in
    if leb (length owners) 1 then rest else (norm, owners) ∷ rest

unfoldable pub find_overlaps : Profiles → List (Text × List Text)
unfolding overlaps_in placements_of
find_overlaps profiles = overlaps_in (Dict.keys (placements_of profiles [])) profiles

module _ (sha1 : Text → ℕ) where
  unfoldable pub stable_bucket_index : Text → ℕ → ℕ
  stable_bucket_index text n = sha1 text % max 1 n

  -- `none` where it raises
  unfoldable pub rightful_owner : Text → List Text → Option Text
  unfolding stable_bucket_index sorted_set clean_ids group_norm_key
  rightful_owner group_ref account_ids =
      let ids = sorted_set (clean_ids account_ids) in
      elim (group_norm_key group_ref) [
        | none ↦ none
        | some key ↦ get_elem? ids (stable_bucket_index key (length ids))
      ]

  -- one pass of the loop over the groups
  unfoldable pub reconcile_group : List Text → Text → List Row → Tally → Option Tally
  unfolding rightful_owner owners_in winner_of give_to
  reconcile_group ids norm rows t =
      let owners = owners_in rows in
      let candidates = filter (λ a. not (is_empty a)) ids in
      if leb (length owners) 1 || length candidates == 0
      then some t
      else elim (rightful_owner norm candidates) [
        | none ↦ none
        | some rightful ↦ some (give_to (winner_of rightful owners t.profiles) norm rows t)
      ]

  unfoldable pub reconcile_groups : List Text → Dict Text (List Row) → Tally → Option Tally
  unfolding reconcile_group
  reconcile_groups ids [] t = some t
  reconcile_groups ids ((norm, rows) ∷ d) t = elim (reconcile_group ids norm rows t) [
    | none ↦ none
    | some t' ↦ reconcile_groups ids d t'
  ]

  -- `reconcile_exclusive_profiles`, `none` where the norm of a contested group has no norm itself.
  -- Where no account has a source the dict has no "overlaps_after", which is 0 here.
  unfoldable pub reconcile_exclusive_profiles : List Text → Profiles → Option Reconciled
  unfolding reconcile_groups sourced_ids placements_of count_contested find_overlaps
  reconcile_exclusive_profiles account_ids profiles =
      let ids = sourced_ids account_ids profiles in
      let placements = placements_of profiles [] in
      let start : Tally = record { changed = false; moved = 0; removed = 0; profiles = profiles } in
      if length ids == 0
      then some (record { tally = start; overlaps_before = 0; overlaps_after = 0 })
      else elim (reconcile_groups ids placements start) [
        | none ↦ none
        | some t ↦ some (record {
          tally = t;
          overlaps_before = count_contested placements;
          overlaps_after = length (find_overlaps t.profiles);
        })
      ]
