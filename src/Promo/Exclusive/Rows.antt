-- ===== src/Promo/Exclusive/Rows.antt =====
-- The placements of the groups by their norms, the accounts that hold a group, and the form in which
-- it is kept (app/promo_exclusivity.py).
use telegram_auto.Prelude.{
  ◌≡◌, refl, sym, ap, ◌∙◌, Bool, false, ◌&&◌, ◌||◌, some, List, [], ◌∷◌, ◌++◌, map, Text, ◌==◌,
  nat_eq, text_eq, if◌then◌else◌, any, any-append, arith, All, All-append, inl, inr, Bool-cases,
  Option-cases, contains,
}
use mathlib.Core.Path.{subst}
use telegram_auto.Prelude.Strip.{strip, is_empty}
use telegram_auto.Prelude.Dict
use telegram_auto.Prelude.Dict.{Dict}
use telegram_auto.Prelude.Ordered.{text_le, sort_in, any-sort_in}
use telegram_auto.Promo.Routes.{Route, display_ref}
use telegram_auto.Promo.Refs.{group_norm_key}
use telegram_auto.Promo.Refs.Shown.{IsShown}
use telegram_auto.Promo.Profile.{migrate_from, migrate_routes}
use telegram_auto.Promo.Exclusive.{
  Placement, place_groups, place_routes, iter_route_groups, Profiles, holds,
}
use telegram_auto.Promo.Exclusive.Claims.{migrate_from-AllShown}
use telegram_auto.Promo.Exclusive.Reconcile.{
  distinct, sorted_set, Row, rows_at, add_placements, placements_of, owners_in,
}

-- The sets of accounts.
contains-distinct : (a : Text) (xs : List Text) → contains (distinct xs) a ≡ contains xs a
unfolding distinct contains
contains-distinct a [] = refl
contains-distinct a (x ∷ xs) = ground (arith, contains-distinct a xs, contains-distinct x xs)

contains-any : (a : Text) (xs : List Text) → contains xs a ≡ any (λ x. a == x) xs
unfolding contains any
contains-any a [] = refl
contains-any a (x ∷ xs) = ground (arith, contains-any a xs)

contains-map :
    (a : Text) (rows : List Row)
    → contains (map (λ r. r.account_id) rows) a ≡ any (λ r. r.account_id == a) rows
unfolding contains any
contains-map a [] = refl
contains-map a (r ∷ rows) = ground (arith, contains-map a rows)

pub contains-owners_in :
    (a : Text) (rows : List Row) → contains (owners_in rows) a ≡ any (λ r. r.account_id == a) rows
unfolding owners_in sorted_set
contains-owners_in a rows =
    let ids = map (λ r. r.account_id) rows in
    contains-any a (sort_in text_le (distinct ids))
    ∙ any-sort_in text_le (λ x. a == x) (distinct ids)
    ∙ sym (contains-any a (distinct ids))
    ∙ contains-distinct a ids
    ∙ contains-map a rows

module _ (norm a : Text) where
  -- whether an account has a row under the norm
  abbrev pub has_row : Dict Text (List Row) → Bool
  has_row d = any (λ r. r.account_id == a) (rows_at norm d)

  rows_at-insert :
      (k : Text) (rows : List Row) (d : Dict Text (List Row))
      → rows_at norm (Dict.insert k rows d) ≡ (if norm == k then rows else rows_at norm d)
  unfolding rows_at
  rows_at-insert k rows d = ground (arith, Dict.lookup-insert norm k rows d)

  has_row-add :
      (k : Text) (r : Row) (d : Dict Text (List Row))
      → has_row (Dict.insert k (rows_at k d ++ r ∷ []) d)
        ≡ (has_row d || (r.account_id == a && k == norm))
  unfolding any
  has_row-add k r d = ground (
    arith,
    rows_at-insert k (rows_at k d ++ r ∷ []) d,
    any-append (λ q. q.account_id == a) (rows_at k d) (r ∷ []),
  )

  has_row-add_placements :
      (aid : Text) (xs : List Placement) (d : Dict Text (List Row))
      → has_row (add_placements aid xs d)
        ≡ (has_row d || (aid == a && any (λ x. x.norm == norm) xs))
  unfolding add_placements any
  has_row-add_placements aid [] d = ground arith
  has_row-add_placements aid (x ∷ xs) d =
      let row : Row = record { account_id = aid; source = x.source; ref = x.raw } in
      ground (
        arith,
        has_row-add_placements aid xs (Dict.insert x.norm (rows_at x.norm d ++ row ∷ []) d),
        has_row-add x.norm row d,
      )

  pub has_row-placements_of :
      (profiles : Profiles) (d : Dict Text (List Row))
      → has_row (placements_of profiles d)
        ≡ (has_row d || any (λ e. e.0 == a && holds norm e.1) profiles)
  unfolding placements_of any holds
  has_row-placements_of [] d = ground arith
  has_row-placements_of ((aid, p) ∷ profiles) d = ground (
    arith,
    has_row-placements_of profiles (add_placements aid (iter_route_groups p) d),
    has_row-add_placements aid (iter_route_groups p) d,
  )

-- A row is of its norm, and its group in the form in which it is kept.
abbrev pub IsRow : Text → Row → Type 0
IsRow norm r = (group_norm_key r.ref ≡ some norm) × IsShown r.ref

abbrev pub AreRows : Dict Text (List Row) → Type 0
AreRows d = All (λ e. All (IsRow e.0) e.1) d

abbrev IsPlacement : Placement → Type 0
IsPlacement x = (group_norm_key x.raw ≡ some x.norm) × IsShown x.raw

place_groups-IsPlacement :
    (src : Text) (groups : List Text)
    → All IsShown groups
    → All IsPlacement (place_groups src groups)
unfolding place_groups
place_groups-IsPlacement src [] h = tt
place_groups-IsPlacement src (g ∷ groups) h =
    let inked : is_empty (strip g) ≡ false = ap is_empty h.0.0 ∙ h.0.2 in
    elim (Option-cases (group_norm_key g)) [
      | inl bad ↦ rw (inked, bad) (place_groups-IsPlacement src groups h.1)
      | inr (k, good) ↦ rw (inked, good) ((good, h.0), place_groups-IsPlacement src groups h.1)
    ]

place_routes-IsPlacement :
    (routes : List Route)
    → All (λ r. All IsShown r.groups) routes
    → All IsPlacement (place_routes routes)
unfolding place_routes
place_routes-IsPlacement [] h = tt
place_routes-IsPlacement (r ∷ routes) h = elim (Bool-cases (is_empty (display_ref r.source))) [
  | inl blank ↦ rw blank (place_routes-IsPlacement routes h.1)
  | inr named ↦ rw named (
      All-append IsPlacement (place_groups (display_ref r.source) r.groups) (place_routes routes)
        (place_groups-IsPlacement (display_ref r.source) r.groups h.0)
        (place_routes-IsPlacement routes h.1))
]

lookup-AreRows :
    (norm : Text) (d : Dict Text (List Row)) → AreRows d → All (IsRow norm) (rows_at norm d)
unfolding rows_at Dict.lookup
lookup-AreRows norm [] h = tt
lookup-AreRows norm ((k, rows) ∷ d) h = elim (Bool-cases (norm == k)) [
  | inl same ↦
      let e : k ≡ norm = ground arith in
      let at : rows ≡ rows_at norm ((k, rows) ∷ d) = ground (arith, same) in
      subst (All (IsRow norm)) at (subst (λ x. All (IsRow x) rows) e h.0)
  | inr other ↦
      let at : rows_at norm d ≡ rows_at norm ((k, rows) ∷ d) = ground (arith, other) in
      subst (All (IsRow norm)) at (lookup-AreRows norm d h.1)
]

insert-AreRows :
    (k : Text) (rows : List Row) (d : Dict Text (List Row))
    → All (IsRow k) rows
    → AreRows d
    → AreRows (Dict.insert k rows d)
unfolding Dict.insert
insert-AreRows k rows [] r h = (r, tt)
insert-AreRows k rows ((j, old) ∷ d) r h = elim (Bool-cases (k == j)) [
  | inl same ↦ let e : k ≡ j = ground arith in rw same (subst (λ x. All (IsRow x) rows) e r, h.1)
  | inr other ↦ rw other (h.0, insert-AreRows k rows d r h.1)
]

add_placements-AreRows :
    (aid : Text) (xs : List Placement) (d : Dict Text (List Row))
    → All IsPlacement xs
    → AreRows d
    → AreRows (add_placements aid xs d)
unfolding add_placements
add_placements-AreRows aid [] d p h = h
add_placements-AreRows aid (x ∷ xs) d p h =
    let row : Row = record { account_id = aid; source = x.source; ref = x.raw } in
    add_placements-AreRows aid xs (Dict.insert x.norm (rows_at x.norm d ++ row ∷ []) d) p.1 (
      insert-AreRows x.norm (rows_at x.norm d ++ row ∷ []) d
        (All-append (IsRow x.norm) (rows_at x.norm d) (row ∷ []) (lookup-AreRows x.norm d h)
          (p.0, tt))
        h)

pub placements_of-AreRows :
    (profiles : Profiles) (d : Dict Text (List Row))
    → AreRows d
    → AreRows (placements_of profiles d)
unfolding placements_of iter_route_groups migrate_routes
placements_of-AreRows [] d h = h
placements_of-AreRows ((aid, p) ∷ profiles) d h =
    placements_of-AreRows profiles (add_placements aid (iter_route_groups p) d) (
      add_placements-AreRows aid (iter_route_groups p) d
        (place_routes-IsPlacement (migrate_from p.routes p) (migrate_from-AllShown [] p.routes p))
        h)
