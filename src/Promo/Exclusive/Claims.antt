-- ===== src/Promo/Exclusive/Claims.antt =====
-- Who holds a group after a claim (app/promo_exclusivity.py).
use telegram_auto.Prelude.{
  ◌≡◌, refl, ◌∙◌, true, false, not, ◌||◌, some, List, [], ◌∷◌, ◌++◌, map, Text, ◌==◌, nat_eq,
  text_eq, if◌then◌else◌, filter, any, any-append, arith, All, inl, inr, Bool-cases, Option-cases,
}
use telegram_auto.Prelude.Strip.{strip, is_empty}
use telegram_auto.Prelude.Filters.{filter-All}
use telegram_auto.Promo.Routes.{Route, display_ref}
use telegram_auto.Promo.Refs.{group_norm_key, normalize_group_list}
use telegram_auto.Promo.Refs.Shown.{IsShown, normalize_group_list-IsShown, normalize_group_list-All}
use telegram_auto.Promo.Profile.{
  Profile, migrate_route, migrate_listed, legacy_route, migrate_from, migrate_routes,
}
use telegram_auto.Promo.Exclusive.{
  is_norm, Placement, place_groups, place_routes, iter_route_groups, strip_route,
  strip_group_from_profile, Profiles, strip_others, ensure_on_owner, Claimed, claim_group, holds,
  owners_of,
}

module _ (norm : Text) where
  -- No group of the list has the norm.
  abbrev pub Without : List Text → Type 0
  Without groups = All (λ g. is_norm norm g ≡ false) groups

  abbrev AllWithout : List Route → Type 0
  AllWithout routes = All (λ r. Without r.groups) routes

  pub is_norm-some : (g k : Text) → group_norm_key g ≡ some k → is_norm norm g ≡ (k == norm)
  unfolding is_norm
  is_norm-some g k h = rw (h, is_norm) refl

  place_groups-Without :
      (src : Text) (groups : List Text)
      → Without groups
      → any (λ x. x.norm == norm) (place_groups src groups) ≡ false
  unfolding place_groups any
  place_groups-Without src [] h = refl
  place_groups-Without src (g ∷ groups) h = elim (Bool-cases (is_empty (strip g))) [
    | inl blank ↦ rw blank (place_groups-Without src groups h.1)
    | inr more ↦ elim (Option-cases (group_norm_key g)) [
      | inl bad ↦ rw (more, bad) (place_groups-Without src groups h.1)
      | inr (k, good) ↦
          rw (more, good)
            (ground (arith, h.0, is_norm-some g k good, place_groups-Without src groups h.1))
    ]
  ]

  any-append_placements :
      (xs ys : List Placement)
      → any (λ x. x.norm == norm) xs ≡ false
      → any (λ x. x.norm == norm) ys ≡ false
      → any (λ x. x.norm == norm) (xs ++ ys) ≡ false
  any-append_placements xs ys h k = any-append (λ x. x.norm == norm) xs ys ∙ ground (arith, h, k)

  place_routes-Without :
      (routes : List Route)
      → AllWithout routes
      → any (λ x. x.norm == norm) (place_routes routes) ≡ false
  unfolding place_routes any
  place_routes-Without [] h = refl
  place_routes-Without (r ∷ routes) h = elim (Bool-cases (is_empty (display_ref r.source))) [
    | inl blank ↦ rw blank (place_routes-Without routes h.1)
    | inr named ↦ rw named (
        any-append_placements (place_groups (display_ref r.source) r.groups) (place_routes routes)
          (place_groups-Without (display_ref r.source) r.groups h.0)
          (place_routes-Without routes h.1))
  ]

  -- The routes whose groups are in the form in which they are kept.
  abbrev pub AllShown : List Route → Type 0
  AllShown routes = All (λ r. All IsShown r.groups) routes

  migrate_listed-AllShown :
      (mode : Text) (routes : List Route) → AllShown (migrate_listed mode routes)
  unfolding migrate_listed migrate_route
  migrate_listed-AllShown mode [] = tt
  migrate_listed-AllShown mode (r ∷ routes) = elim (Bool-cases (is_empty r.source)) [
    | inl blank ↦ rw blank (migrate_listed-AllShown mode routes)
    | inr named ↦
        rw named (normalize_group_list-IsShown r.groups, migrate_listed-AllShown mode routes)
  ]

  pub migrate_from-AllShown : (routes : List Route) (p : Profile) → AllShown (migrate_from routes p)
  unfolding migrate_from legacy_route
  migrate_from-AllShown [] p = elim (Bool-cases (is_empty p.source)) [
    | inl blank ↦ rw blank tt
    | inr named ↦ rw named (normalize_group_list-IsShown (normalize_group_list p.groups), tt)
  ]
  migrate_from-AllShown (r ∷ rs) p = migrate_listed-AllShown p.mode (r ∷ rs)

  migrate_listed-Without :
      (mode : Text) (routes : List Route)
      → AllShown routes
      → AllWithout routes
      → AllWithout (migrate_listed mode routes)
  unfolding migrate_listed migrate_route
  migrate_listed-Without mode [] h w = tt
  migrate_listed-Without mode (r ∷ routes) h w = elim (Bool-cases (is_empty r.source)) [
    | inl blank ↦ rw blank (migrate_listed-Without mode routes h.1 w.1)
    | inr named ↦ rw named (
      normalize_group_list-All (λ g. is_norm norm g ≡ false) r.groups h.0 w.0,
      migrate_listed-Without mode routes h.1 w.1,
    )
  ]

  filtered-Without : (groups : List Text) → Without (filter (λ g. not (is_norm norm g)) groups)
  unfolding filter
  filtered-Without [] = tt
  filtered-Without (g ∷ groups) = elim (Bool-cases (is_norm norm g)) [
    | inl hit ↦ rw hit (filtered-Without groups)
    | inr miss ↦ rw miss (miss, filtered-Without groups)
  ]

  stripped-AllWithout : (routes : List Route) → AllWithout (map (strip_route norm) routes)
  unfolding strip_route
  stripped-AllWithout [] = tt
  stripped-AllWithout (r ∷ routes) = (filtered-Without r.groups, stripped-AllWithout routes)

  pub stripped-AllShown :
      (routes : List Route) → AllShown routes → AllShown (map (strip_route norm) routes)
  unfolding strip_route
  stripped-AllShown [] h = tt
  stripped-AllShown (r ∷ routes) h =
      (filter-All IsShown (λ g. not (is_norm norm g)) r.groups h.0, stripped-AllShown routes h.1)

  pub any-false-Without : (groups : List Text) → any (is_norm norm) groups ≡ false → Without groups
  unfolding any
  any-false-Without [] h = tt
  any-false-Without (g ∷ groups) h = (ground arith, any-false-Without groups (ground arith))

  any-false-AllWithout :
      (routes : List Route)
      → any (λ r. any (is_norm norm) r.groups) routes ≡ false
      → AllWithout routes
  unfolding any
  any-false-AllWithout [] h = tt
  any-false-AllWithout (r ∷ routes) h =
      (any-false-Without r.groups (ground arith), any-false-AllWithout routes (ground arith))

  -- The migrated form of the routes that were stripped, where there are any.
  migrate_from-stripped :
      (routes : List Route) (p : Profile)
      → AllShown routes
      → any (λ r. any (is_norm norm) r.groups) routes ≡ true
      → AllWithout (migrate_from (map (strip_route norm) routes) p)
  unfolding migrate_from any
  migrate_from-stripped [] p h hit = cc
  migrate_from-stripped (r ∷ routes) p h hit =
      migrate_listed-Without p.mode (map (strip_route norm) (r ∷ routes))
        (stripped-AllShown (r ∷ routes) h) (stripped-AllWithout (r ∷ routes))

  -- A profile from which a group was taken does not hold it.
  holds-strip_group_from_profile :
      (p : Profile) → holds norm (strip_group_from_profile p norm).1 ≡ false
  unfolding holds iter_route_groups strip_group_from_profile migrate_routes
  holds-strip_group_from_profile p =
      let routes = migrate_from p.routes p in
      elim (Bool-cases (any (λ r. any (is_norm norm) r.groups) routes)) [
        | inl had ↦ rw had (
            let p' : Profile = record p { routes = map (strip_route norm) routes } in
            place_routes-Without (migrate_from (map (strip_route norm) routes) p')
              (migrate_from-stripped routes p' (migrate_from-AllShown p.routes p) had))
        | inr clean ↦ rw clean (place_routes-Without routes (any-false-AllWithout routes clean))
      ]

-- Only the owner may hold the group.
abbrev pub HeldBy : Text → Text → Profiles → Type 0
HeldBy owner norm profiles = All (λ e. e.0 == owner || not (holds norm e.1) ≡ true) profiles

module _ (owner norm : Text) where
  pub strip_others-HeldBy :
      (profiles : Profiles) → HeldBy owner norm (strip_others owner norm profiles).1
  unfolding strip_others
  strip_others-HeldBy [] = tt
  strip_others-HeldBy ((aid, p) ∷ profiles) = elim (Bool-cases (aid == owner)) [
    | inl own ↦ rw own (ground (arith, own), strip_others-HeldBy profiles)
    | inr other ↦
        rw other
          (ground (arith, holds-strip_group_from_profile norm p), strip_others-HeldBy profiles)
  ]

  ensure_on_owner-HeldBy :
      (group_ref preferred : Text) (profiles : Profiles)
      → HeldBy owner norm profiles
      → HeldBy owner norm (ensure_on_owner owner norm group_ref preferred profiles).1
  unfolding ensure_on_owner
  ensure_on_owner-HeldBy group_ref preferred [] h = tt
  ensure_on_owner-HeldBy group_ref preferred ((aid, p) ∷ profiles) h =
      elim (Bool-cases (aid == owner)) [
        | inl own ↦ rw own (ground (arith, own), h.1)
        | inr other ↦ rw other (h.0, ensure_on_owner-HeldBy group_ref preferred profiles h.1)
      ]

  pub owners_of-HeldBy :
      (profiles : Profiles)
      → HeldBy owner norm profiles
      → All (λ aid. aid == owner ≡ true) (owners_of norm profiles)
  unfolding owners_of
  owners_of-HeldBy [] h = tt
  owners_of-HeldBy ((aid, p) ∷ profiles) h = elim (Bool-cases (holds norm p)) [
    | inl on ↦ rw on (ground (arith, on, h.0), owners_of-HeldBy profiles h.1)
    | inr off ↦ rw off (owners_of-HeldBy profiles h.1)
  ]

-- A claim of a group that has a norm succeeds, and no account but its owner holds a group of
-- that norm afterwards, whatever routes and groups the accounts had, also once their routes are
-- read again.
pub owners_of-claim_group :
    (owner group_ref source norm : Text) (profiles : Profiles)
    → group_norm_key group_ref ≡ some norm
    → (c : Claimed) × (claim_group owner group_ref source profiles ≡ some c)
      × All (λ aid. aid == owner ≡ true) (owners_of norm c.profiles)
unfolding claim_group
owners_of-claim_group owner group_ref source norm profiles e =
    let stripped = strip_others owner norm profiles in
    let preferred = if is_empty source then [] else display_ref source in
    let claimed = ensure_on_owner owner norm group_ref preferred stripped.1 in
    let c : Claimed = record { removed = stripped.0; added = claimed.0; profiles = claimed.1 } in
    (
      c,
      rw (e, claim_group) refl,
      owners_of-HeldBy owner norm claimed.1 (
          ensure_on_owner-HeldBy owner norm group_ref preferred stripped.1
            (strip_others-HeldBy owner norm profiles)),
    )
