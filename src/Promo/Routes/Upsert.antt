-- ===== src/Promo/Routes/Upsert.antt =====
-- What is found after a route was set or removed.
use telegram_auto.Prelude.{
  ◌≡◌, refl, ◌∙◌, Bool, true, false, not, none, some, List, [], ◌∷◌, ◌++◌, Text, arith, text_eq,
  if◌then◌else◌, filter, find?, any, inl, inr, Bool-cases,
}
use telegram_auto.Promo.Routes.{
  display_ref, Route, has_source, find_route, replace_routes, upsert_route, remove_route,
}

module _ (want : Text) (route : Route) where
  find?-replace_routes :
      (rs : List Route)
      → has_source want route ≡ true
      → find? (has_source want) (replace_routes want route rs)
        ≡ (if any (has_source want) rs then some route else none)
  unfolding find? replace_routes any
  find?-replace_routes [] h = refl
  find?-replace_routes (r ∷ rs) h = ground (arith, find?-replace_routes rs h)

find?-append_route :
    (p : Route → Bool) (rs : List Route) (r : Route)
    → find? p (rs ++ r ∷ []) ≡ (if any p rs then find? p rs else if p r then some r else none)
unfolding find? any
find?-append_route p [] r = refl
find?-append_route p (x ∷ rs) r = ground (arith, find?-append_route p rs r)

replaced_none :
    (want : Text) (route : Route) (rs : List Route)
    → any (has_source want) rs ≡ false
    → replace_routes want route rs ≡ rs
unfolding any replace_routes
replaced_none want route [] h = refl
replaced_none want route (r ∷ rs) h = ground (arith, replaced_none want route rs)

has_own_source : (route : Route) → has_source (display_ref route.source) route ≡ true
unfolding has_source
has_own_source route = ground arith

-- A route that was set is the one found for its source, whether the source was new or known.
pub find_route-upsert_route :
    (routes : List Route) (route : Route)
    → find_route (upsert_route routes route) route.source ≡ some route
unfolding find_route upsert_route
find_route-upsert_route routes route =
    let src = display_ref route.source in
    let own : has_source src route ≡ true = has_own_source route in
    elim (Bool-cases (any (has_source src) routes)) [
      | inl old ↦ rw old (find?-replace_routes src route routes own ∙ ground (arith, old))
      | inr new ↦
          rw (new, replaced_none src route routes new)
            (find?-append_route (has_source src) routes route ∙ ground (arith, new, own))
    ]

no_route : (p : Route → Bool) (rs : List Route) → find? p (filter (λ r. not (p r)) rs) ≡ none
unfolding find? filter
no_route p [] = refl
no_route p (r ∷ rs) = ground (arith, no_route p rs)

-- After its removal no route is found for a source.
pub find_route-remove_route :
    (routes : List Route) (source : Text) → find_route (remove_route routes source) source ≡ none
unfolding find_route remove_route
find_route-remove_route routes source = no_route (has_source (display_ref source)) routes
