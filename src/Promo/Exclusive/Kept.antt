-- ===== src/Promo/Exclusive/Kept.antt =====
-- The other groups of an account from which a group is taken, or to which one is given
-- (app/promo_exclusivity.py).
use telegram_auto.Prelude.{
  ◌≤◌, ◌≡◌, refl, sym, ap, ◌∙◌, Bool, true, false, not, ◌&&◌, none, List, [], ◌∷◌, map, Text, ◌==◌,
  nat_eq, text_eq, filter, any, any-append, arith, All, inl, inr, Bool-cases, Option-cases, length,
}
use telegram_auto.Prelude.Strip.{strip, lstrip, is_empty}
use telegram_auto.Promo.Routes.{Route, display_ref}
use telegram_auto.Promo.Refs.{group_norm_key, normalize_group_list}
use telegram_auto.Promo.Refs.Shown.{IsShown, normalize_group_list-All}
use telegram_auto.Promo.Profile.{
  Profile, migrate_route, migrate_listed, migrate_from, migrate_routes,
}
use telegram_auto.Promo.Exclusive.{
  is_norm, place_groups, place_routes, iter_route_groups, strip_route, strip_group_from_profile,
  holds,
}
use telegram_auto.Promo.Exclusive.Claims.{
  Without, AllShown, is_norm-some, any-false-Without, migrate_from-AllShown, stripped-AllShown,
}

module _ (norm : Text) where
  -- whether a route sends to the group
  unfoldable pub sends : Route → Bool
  unfolding any
  sends r = not (is_empty (display_ref r.source)) && any (is_norm norm) r.groups

  is_norm-none : (g : Text) → group_norm_key g ≡ none → is_norm norm g ≡ false
  unfolding is_norm
  is_norm-none g h = rw (h, is_norm) refl

  any-place_groups :
      (src : Text) (groups : List Text)
      → All IsShown groups
      → any (λ x. x.norm == norm) (place_groups src groups) ≡ any (is_norm norm) groups
  unfolding place_groups any
  any-place_groups src [] h = refl
  any-place_groups src (g ∷ groups) h =
      let inked : is_empty (strip g) ≡ false = ap is_empty h.0.0 ∙ h.0.2 in
      elim (Option-cases (group_norm_key g)) [
        | inl bad ↦
            rw (inked, bad) (ground (arith, is_norm-none g bad, any-place_groups src groups h.1))
        | inr (k, good) ↦
            rw (inked, good)
              (ground (arith, is_norm-some norm g k good, any-place_groups src groups h.1))
      ]

  any-place_routes :
      (routes : List Route)
      → AllShown norm routes
      → any (λ x. x.norm == norm) (place_routes routes) ≡ any sends routes
  unfolding place_routes any sends
  any-place_routes [] h = refl
  any-place_routes (r ∷ routes) h =
      let src = display_ref r.source in
      elim (Bool-cases (is_empty src)) [
        | inl blank ↦ rw blank (any-place_routes routes h.1)
        | inr named ↦ rw named (
            any-append (λ x. x.norm == norm) (place_groups src r.groups) (place_routes routes)
            ∙ ground (arith, any-place_groups src r.groups h.0, any-place_routes routes h.1))
      ]

  -- An account sends to a group if one of its routes does.
  pub holds-sends : (p : Profile) → holds norm p ≡ any sends (migrate_routes p)
  unfolding holds iter_route_groups migrate_routes
  holds-sends p = any-place_routes (migrate_from p.routes p) (migrate_from-AllShown norm p.routes p)

  Without-any-false : (groups : List Text) → Without norm groups → any (is_norm norm) groups ≡ false
  unfolding any
  Without-any-false [] h = refl
  Without-any-false (g ∷ groups) h = ground (arith, h.0, Without-any-false groups h.1)

  display_ref-blank : (s : Text) → is_empty s ≡ true → is_empty (display_ref s) ≡ true
  unfolding display_ref is_empty strip lstrip
  display_ref-blank [] h = refl
  display_ref-blank (c ∷ s) h = cc

  any-normalize_group_list :
      (groups : List Text)
      → All IsShown groups
      → any (is_norm norm) groups ≡ false
      → any (is_norm norm) (normalize_group_list groups) ≡ false
  any-normalize_group_list groups h w = Without-any-false (normalize_group_list groups) (
      normalize_group_list-All (λ g. is_norm norm g ≡ false) groups h
        (any-false-Without norm groups w))

  sends-migrate_route :
      (mode : Text) (r : Route)
      → All IsShown r.groups
      → sends r ≡ false
      → sends (migrate_route mode r) ≡ false
  unfolding sends migrate_route
  sends-migrate_route mode r h w = elim (Bool-cases (is_empty (display_ref r.source))) [
    | inl blank ↦ ground (arith, display_ref-blank (display_ref r.source) blank)
    | inr named ↦ ground (arith, any-normalize_group_list r.groups h (ground (arith, w, named)))
  ]

  -- Routes that send to a group once they are read again did so before.
  sends-migrate_listed :
      (mode : Text) (routes : List Route)
      → AllShown norm routes
      → any sends routes ≡ false
      → any sends (migrate_listed mode routes) ≡ false
  unfolding migrate_listed any
  sends-migrate_listed mode [] h w = refl
  sends-migrate_listed mode (r ∷ routes) h w =
      ground (arith, sends-migrate_route mode r h.0, sends-migrate_listed mode routes h.1)

  -- So do routes that are not empty, whatever the older form of the profile says.
  pub sends-migrate_from :
      (routes : List Route) (p : Profile)
      → 1 ≤ length routes
      → AllShown norm routes
      → any sends routes ≡ false
      → any sends (migrate_from routes p) ≡ false
  unfolding migrate_from
  sends-migrate_from [] p n h w = absurd (omega arith)
  sends-migrate_from (r ∷ routes) p n h w = sends-migrate_listed p.mode (r ∷ routes) h w

  module _ (other : Text) where
    any-filter :
        (groups : List Text) (t : Text → Bool)
        → any (is_norm norm) groups ≡ false
        → any (is_norm norm) (filter t groups) ≡ false
    unfolding any filter
    any-filter [] t h = refl
    any-filter (g ∷ groups) t h = ground (arith, any-filter groups t)

    sends-strip_routes :
        (routes : List Route)
        → any sends routes ≡ false
        → any sends (map (strip_route other) routes) ≡ false
    unfolding any sends strip_route
    sends-strip_routes [] h = refl
    sends-strip_routes (r ∷ routes) h =
        ground (arith, any-filter r.groups (λ g. not (is_norm other g)), sends-strip_routes routes)

    length-strip_routes :
        (t : Route → Bool) (routes : List Route)
        → any t routes ≡ true
        → 1 ≤ length (map (strip_route other) routes)
    unfolding any
    length-strip_routes t [] h = cc
    length-strip_routes t (r ∷ routes) h = omega arith

    pub holds-strip_other :
        (p : Profile)
        → holds norm p ≡ false
        → holds norm (strip_group_from_profile p other).1 ≡ false
    unfolding strip_group_from_profile migrate_routes
    holds-strip_other p h =
        let routes = migrate_from p.routes p in
        let stripped = map (strip_route other) routes in
        let p' : Profile = record p { routes = stripped } in
        let had = λ (r : Route). any (is_norm other) r.groups in
        let before : any sends routes ≡ false = sym (holds-sends p) ∙ h in
        elim (Bool-cases (any had routes)) [
          | inl hit ↦ rw hit (
              holds-sends p'
              ∙ sends-migrate_from stripped p' (length-strip_routes had routes hit)
                  (stripped-AllShown other routes (migrate_from-AllShown norm p.routes p))
                  (sends-strip_routes routes before))
          | inr miss ↦ rw miss h
        ]
