-- ===== src/Tests/Exclusion.antt =====
-- Two promo accounts and the groups that they claim.
use telegram_auto.Prelude.{
  ◌≡◌, refl, true, false, some, List, [], ◌∷◌, codes, ◌==◌, nat_eq, text_eq, any, find?, filter,
  contains, Text, All, length, none, ◌||◌, Option, ℕ,
}
use telegram_auto.Prelude.Dict
use telegram_auto.Prelude.Strip.{strip, is_empty, lstrip, is_space}
use telegram_auto.Prelude.Parse.{lower, digit_value}
use telegram_auto.Prelude.Search.{starts_with, occurs_in}
use telegram_auto.Prelude.Ordered.{text_le, sort_in, insert_in}
use telegram_auto.Promo.Routes.{Route, display_ref, is_number, all_digits}
use telegram_auto.Promo.Refs.{
  drop_char, strip_slashes, before_query, without_host, without_at, int_text, group_norm_key,
  after_part, invite_hash, is_link, shown_ref, collect_groups, normalize_group_list,
}
use telegram_auto.Promo.Profile.{
  Profile, mode_or, clean_mode, migrate_route, migrate_listed, legacy_route, migrate_from,
  migrate_routes,
}
use telegram_auto.Promo.Exclusive.{
  is_norm, place_groups, place_routes, iter_route_groups, strip_route, strip_group_from_profile,
  Profiles, strip_others, choose_route, routes_by_source, put_route, add_to_route,
  ensure_group_on_profile, ensure_on_owner, Claimed, claim_group, holds, owners_of,
}
use telegram_auto.Promo.Exclusive.Claims.{owners_of-claim_group}
use telegram_auto.Promo.Exclusive.Reconcile.{
  distinct, sorted_set, clean_ids, is_source, collect_sources, enabled_source_keys, profile_of,
  has_source, sourced_ids, rows_at, add_placements, placements_of, owners_in, count_contested,
  ensure_on_last, winner_of, move_to, give_to, Reconciled, overlaps_in, find_overlaps,
  stable_bucket_index, rightful_owner, reconcile_group, reconcile_groups,
  reconcile_exclusive_profiles,
}
use telegram_auto.Promo.Exclusive.Foreign.{
  host_ids, foreign_groups, foreign_group_norms_for_account,
  foreign_group_norms_for_account_exclusive,
}
use telegram_auto.Promo.Exclusive.Unique.{owners_of-reconcile_exclusive_profiles}

program : Unit {0}
unfolding Dict.lookup Dict.insert any filter text_eq nat_eq find? contains strip is_empty lower
    lstrip is_space starts_with occurs_in text_le sort_in insert_in display_ref is_number all_digits
    digit_value drop_char strip_slashes before_query without_host without_at int_text group_norm_key
    after_part invite_hash is_link shown_ref collect_groups normalize_group_list mode_or clean_mode
    migrate_route migrate_listed legacy_route migrate_from migrate_routes is_norm place_groups
    place_routes iter_route_groups strip_route strip_group_from_profile strip_others choose_route
    routes_by_source put_route add_to_route ensure_group_on_profile ensure_on_owner claim_group
    holds owners_of distinct sorted_set clean_ids is_source collect_sources enabled_source_keys
    profile_of has_source sourced_ids rows_at add_placements placements_of owners_in count_contested
    ensure_on_last winner_of move_to give_to overlaps_in find_overlaps stable_bucket_index
    rightful_owner reconcile_group reconcile_groups reconcile_exclusive_profiles host_ids
    foreign_groups foreign_group_norms_for_account
program = tt

abbrev route : List Text → Route
route groups = record {
  source = codes "@ads";
  groups = groups;
  enabled = true;
  paused = false;
  mode = codes "forward";
}

abbrev profile : List Text → Profile
profile groups = record {
  routes = route groups ∷ [];
  source = [];
  groups = [];
  paused = false;
  mode = [];
}

-- the same group under two spellings
abbrev profiles : Profiles
profiles =
    (codes "promo1", profile (codes "@sales" ∷ codes "@other" ∷ []))
    ∷ (codes "promo2", profile (codes "https://t.me/sales?x=1" ∷ []))
    ∷ []

group_norm_key-sales : group_norm_key (codes "t.me/sales") ≡ some (codes "t.me/sales")
unfolding program
group_norm_key-sales = refl

group_norm_key-link : group_norm_key (codes "https://t.me/sales/") ≡ some (codes "sales")
unfolding program
group_norm_key-link = refl

owners_of-profiles : owners_of (codes "sales") profiles ≡ codes "promo1" ∷ codes "promo2" ∷ []
unfolding program
owners_of-profiles = refl

owners_of-claim_group_example :
    (c : Claimed) × (claim_group (codes "promo2") (codes "@sales") (codes "@ads") profiles ≡ some c)
    × All (λ aid. aid == codes "promo2" ≡ true) (owners_of (codes "sales") c.profiles)
unfolding program
owners_of-claim_group_example =
    owners_of-claim_group (codes "promo2") (codes "@sales") (codes "@ads") (codes "sales") profiles
      refl

abbrev summary : Option Reconciled → List ℕ
summary none = []
summary (some r) = r.tally.moved ∷ r.tally.removed ∷ r.overlaps_before ∷ r.overlaps_after ∷ []

-- The length of a norm stands for its hash: that of "sales" is odd, so the second account keeps it.
reconcile_exclusive_profiles-sales :
    summary (reconcile_exclusive_profiles length [] profiles) ≡ 0 ∷ 1 ∷ 1 ∷ 0 ∷ []
unfolding program
reconcile_exclusive_profiles-sales = refl

owners_of-reconcile_exclusive_profiles_example :
    (r : Reconciled) × (reconcile_exclusive_profiles length [] profiles ≡ some r)
    × ((owner : Text) × All
          (λ aid. aid == owner ≡ true)
          (owners_of (codes "sales") r.tally.profiles))
unfolding program
owners_of-reconcile_exclusive_profiles_example =
    owners_of-reconcile_exclusive_profiles length [] profiles (codes "sales") refl
      (refl, (refl, tt))

foreign_group_norms_for_account_exclusive_example :
    (xs : List Text) × (ys : List Text) × (foreign_group_norms_for_account length
        (codes "promo1")
        profiles
      ≡ some xs)
    × (foreign_group_norms_for_account length (codes "promo2") profiles ≡ some ys)
    × (contains xs (codes "sales") || contains ys (codes "sales") ≡ true)
unfolding program
foreign_group_norms_for_account_exclusive_example =
    foreign_group_norms_for_account_exclusive length (codes "promo1") (codes "promo2")
      (codes "sales") profiles refl refl refl refl (refl, (refl, tt)) refl

-- A group whose norm is empty stands on two accounts, and the reconciliation raises.
reconcile_exclusive_profiles-raises :
    reconcile_exclusive_profiles length []
      ((codes "promo1", profile (codes "@" ∷ [])) ∷ (codes "promo2", profile (codes "@" ∷ [])) ∷ [])
    ≡ none
unfolding program
reconcile_exclusive_profiles-raises = refl
