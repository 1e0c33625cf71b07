-- ===== src/Promo/Exclusive/Given.antt =====
-- What else an account holds after it is given a group (app/promo_exclusivity.py,
-- `ensure_group_on_profile`).
use telegram_auto.Prelude.{
  suc, ◌≤◌, ◌≡◌, refl, sym, ap, ◌∙◌, Bool, true, false, not, Option, none, some, List, [], ◌∷◌,
  ◌++◌, Text, ◌==◌, nat_eq, text_eq, find?, any, any-append, arith, All, All-append, inl, inr,
  Bool-cases, Option-cases, length,
}
use mathlib.Core.Path.{subst}
use mathlib.Core.Option.{some-injective}
use telegram_auto.Prelude.Strip.{is_empty}
use telegram_auto.Prelude.Dict
use telegram_auto.Prelude.Dict.{Dict}
use telegram_auto.Prelude.Ordered.{text_le, sort_in, All-sort_in, length-sort_in}
use telegram_auto.Promo.Routes.{Route, display_ref}
use telegram_auto.Promo.Refs.Shown.{IsShown}
use telegram_auto.Promo.Profile.{Profile, migrate_from, migrate_routes}
use telegram_auto.Promo.Exclusive.{
  is_norm, choose_route, routes_by_source, put_route, route_values, add_to_route,
  ensure_group_on_profile, holds,
}
use telegram_auto.Promo.Exclusive.Claims.{AllShown, migrate_from-AllShown}
use telegram_auto.Promo.Exclusive.Reconcile.{is_source, collect_sources, enabled_source_keys}
use telegram_auto.Promo.Exclusive.Kept.{sends, holds-sends, sends-migrate_from}

module _ (norm : Text) where
  -- Lists of routes whose groups are in the form in which they are kept and do not send to the
  -- group.
  abbrev Apart : Route → Type 0
  Apart r = All IsShown r.groups × (sends norm r ≡ false)

  All-Apart :
      (routes : List Route)
      → AllShown norm routes
      → any (sends norm) routes ≡ false
      → All Apart routes
  unfolding any
  All-Apart [] h w = tt
  All-Apart (r ∷ routes) h w = ((h.0, ground arith), All-Apart routes h.1 (ground arith))

  AllShown-All-Apart : (routes : List Route) → All Apart routes → AllShown norm routes
  AllShown-All-Apart [] h = tt
  AllShown-All-Apart (r ∷ routes) h = (h.0.0, AllShown-All-Apart routes h.1)

  any-All-Apart : (routes : List Route) → All Apart routes → any (sends norm) routes ≡ false
  unfolding any
  any-All-Apart [] h = refl
  any-All-Apart (r ∷ routes) h = ground (arith, h.0.1, any-All-Apart routes h.1)

  All-insert :
      (P : Route → Type 0) (k : Text) (r : Route) (d : Dict Text Route)
      → P r
      → All P (route_values d)
      → All P (route_values (Dict.insert k r d))
  unfolding Dict.insert
  All-insert P k r [] p h = (p, tt)
  All-insert P k r ((j, q) ∷ d) p h = elim (Bool-cases (k == j)) [
    | inl same ↦ rw same (p, h.1)
    | inr new ↦ rw new (h.0, All-insert P k r d p h.1)
  ]

  All-put_route :
      (P : Route → Type 0) (r : Route) (d : Dict Text Route)
      → P r
      → All P (route_values d)
      → All P (route_values (put_route r d))
  unfolding put_route
  All-put_route P r d p h = elim (Bool-cases (is_empty (display_ref r.source))) [
    | inl blank ↦ rw blank h
    | inr named ↦ rw named (All-insert P (display_ref r.source) r d p h)
  ]

  All-routes_by_source :
      (P : Route → Type 0) (routes : List Route) (d : Dict Text Route)
      → All P routes
      → All P (route_values d)
      → All P (route_values (routes_by_source routes d))
  unfolding routes_by_source put_route
  All-routes_by_source P [] d p h = h
  All-routes_by_source P (r ∷ routes) d p h =
      All-routes_by_source P routes (put_route r d) p.1 (All-put_route P r d p.0 h)

  All-find? :
      (P : Route → Type 0) (t : Route → Bool) (xs : List Route) (x : Route)
      → All P xs
      → find? t xs ≡ some x
      → P x
  unfolding find?
  All-find? P t [] x h e = cc
  All-find? P t (y ∷ xs) x h e = elim (Bool-cases (t y)) [
    | inl hit ↦ subst P (some-injective y x (ground arith)) h.0
    | inr miss ↦ All-find? P t xs x h.1 (ground arith)
  ]

  All-or_first :
      (P : Route → Type 0) (found : Option Route) (r t : Route)
      → ((x : Route) → found ≡ some x → P x)
      → P r
      → elim found [ some x ↦ some x | none ↦ some r ] ≡ some t
      → P t
  All-or_first P none r t f p e = subst P (some-injective r t e) p
  All-or_first P (some x) r t f p e = f t e

  choose_route-All :
      (P : Route → Type 0) (preferred : Text) (routes : List Route) (t : Route)
      → All P routes
      → choose_route preferred routes ≡ some t
      → P t
  unfolding choose_route
  choose_route-All P preferred [] t h e = cc
  choose_route-All P preferred (r ∷ routes) t h e =
      let enabled = λ (x : Route). x.enabled in
      let named = λ (x : Route). display_ref x.source == preferred in
      let last =
        All-or_first P (find? enabled (r ∷ routes)) r t (λ x. All-find? P enabled (r ∷ routes) x h)
          h.0 in
      elim (Bool-cases (is_empty preferred)) [
        | inl free ↦ last (sym (rw (free, choose_route) refl) ∙ e)
        | inr asked ↦ elim (Option-cases (find? named (r ∷ routes))) [
          | inl lost ↦ last (sym (rw (asked, lost, choose_route) refl) ∙ e)
          | inr (x, found) ↦
              All-find? P named (r ∷ routes) t h
                (found ∙ sym (rw (asked, found, choose_route) refl) ∙ e)
        ]
      ]

  length-insert-pos : (k : Text) (r : Route) (d : Dict Text Route) → 1 ≤ length (Dict.insert k r d)
  unfolding Dict.insert
  length-insert-pos k r [] = omega arith
  length-insert-pos k r ((j, q) ∷ d) = ground (arith, length-insert-pos k r d)

  length-put_route : (r : Route) (d : Dict Text Route) → 1 ≤ length d → 1 ≤ length (put_route r d)
  unfolding put_route
  length-put_route r d h = ground (arith, length-insert-pos (display_ref r.source) r d)

  length-routes_by_source :
      (routes : List Route) (d : Dict Text Route)
      → 1 ≤ length d
      → 1 ≤ length (routes_by_source routes d)
  unfolding routes_by_source put_route
  length-routes_by_source [] d h = h
  length-routes_by_source (r ∷ routes) d h =
      length-routes_by_source routes (put_route r d) (length-put_route r d h)

  length-named :
      (routes : List Route) (d : Dict Text Route)
      → any is_source routes ≡ true
      → 1 ≤ length (routes_by_source routes d)
  unfolding routes_by_source any is_source
  length-named [] d h = cc
  length-named (r ∷ routes) d h = elim (Bool-cases (is_empty (display_ref r.source))) [
    | inl blank ↦ rw blank (length-named routes d (ground arith))
    | inr named ↦ rw named (
        length-routes_by_source routes (Dict.insert (display_ref r.source) r d)
          (length-insert-pos (display_ref r.source) r d))
  ]

  length-route_values : (d : Dict Text Route) → length (route_values d) ≡ length d
  length-route_values [] = refl
  length-route_values ((k, r) ∷ d) = ap suc (length-route_values d)

  collect_sources_none :
      (routes : List Route) (sources : List Text)
      → any is_source routes ≡ false
      → collect_sources routes sources ≡ sources
  unfolding collect_sources any
  collect_sources_none [] sources h = refl
  collect_sources_none (r ∷ routes) sources h = ground (arith, collect_sources_none routes sources)

  any-of_enabled :
      (p : Profile)
      → not (length (enabled_source_keys p) == 0) ≡ true
      → any is_source (migrate_routes p) ≡ true
  unfolding enabled_source_keys
  any-of_enabled p h = elim (Bool-cases (any is_source (migrate_routes p))) [
    | inl has ↦ has
    | inr lacks ↦
        absurd (ground (arith, ap length (collect_sources_none (migrate_routes p) [] lacks)))
  ]

  given-Apart :
      (target : Route) (group_ref : Text)
      → is_norm norm group_ref ≡ false
      → IsShown group_ref
      → Apart target
      → Apart (record target { groups = target.groups ++ group_ref ∷ [] })
  unfolding sends any
  given-Apart target group_ref g s a = (
    All-append IsShown target.groups (group_ref ∷ []) a.0 (s, tt),
    ground (arith, a.1, any-append (is_norm norm) target.groups (group_ref ∷ [])),
  )

  -- What an account sends once it was given another group.
  module _ (p : Profile) (group_ref : Text) where
    holds-add_to_route :
        (target : Route)
        → is_norm norm group_ref ≡ false
        → IsShown group_ref
        → any is_source (migrate_routes p) ≡ true
        → holds norm p ≡ false
        → Apart target
        → holds norm (add_to_route p target group_ref) ≡ false
    unfolding add_to_route migrate_routes
    holds-add_to_route target g s src h a =
        let routes = migrate_from p.routes p in
        let changed : Route = record target { groups = target.groups ++ group_ref ∷ [] } in
        let by_src = put_route changed (routes_by_source routes []) in
        let le = λ (r : Route) (q : Route). text_le r.source q.source in
        let sorted = sort_in le (route_values by_src) in
        let p' : Profile = record p { routes = sorted } in
        let apart : All Apart routes =
          All-Apart routes (migrate_from-AllShown norm p.routes p) (sym (holds-sends norm p) ∙ h) in
        let given : Apart changed = given-Apart target group_ref g s a in
        let all : All Apart sorted = All-sort_in le Apart (route_values by_src) (
          All-put_route Apart changed (routes_by_source routes []) given
            (All-routes_by_source Apart routes [] apart tt)) in
        holds-sends norm p'
        ∙ sends-migrate_from norm sorted p'
            (omega (
              arith,
              length-sort_in le (route_values by_src),
              length-route_values by_src,
              length-put_route changed (routes_by_source routes []) (length-named routes [] src),
            ))
            (AllShown-All-Apart sorted all) (any-All-Apart sorted all)

    pub holds-ensure_other :
        (other preferred : Text)
        → is_norm norm group_ref ≡ false
        → IsShown group_ref
        → not (length (enabled_source_keys p) == 0) ≡ true
        → holds norm p ≡ false
        → holds norm (ensure_group_on_profile p other group_ref preferred).1 ≡ false
    unfolding ensure_group_on_profile migrate_routes
    holds-ensure_other other preferred g s src h =
        let routes = migrate_from p.routes p in
        let apart : All Apart routes =
          All-Apart routes (migrate_from-AllShown norm p.routes p) (sym (holds-sends norm p) ∙ h) in
        elim (Option-cases (choose_route preferred routes)) [
          | inl nowhere ↦ rw (nowhere, ensure_group_on_profile) h
          | inr (t, found) ↦
              let a = choose_route-All Apart preferred routes t apart found in
              elim (Bool-cases (any (is_norm other) t.groups)) [
                | inl there ↦ rw (found, there, ensure_group_on_profile) h
                | inr new ↦
                    rw (found, new, ensure_group_on_profile)
                      (holds-add_to_route t g s (any-of_enabled p src) h a)
              ]
        ]
