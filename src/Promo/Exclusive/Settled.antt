-- ===== src/Promo/Exclusive/Settled.antt =====
-- The groups after the loop of `reconcile_exclusive_profiles` (app/promo_exclusivity.py).
use telegram_auto.Prelude.{
  ℕ, ◌≡◌, refl, sym, ◌∙◌, Bool, true, false, not, ◌||◌, none, some, List, [], ◌∷◌, Text, leb, ◌==◌,
  nat_eq, text_eq, filter, arith, All, inl, inr, ◌⊎◌, Bool-cases, Option-cases, length,
}
use mathlib.Core.Path.{subst}
use mathlib.Core.Option.{some-injective}
use telegram_auto.Prelude.Strip.{is_empty}
use telegram_auto.Prelude.Dict
use telegram_auto.Prelude.Dict.{Dict}
use telegram_auto.Promo.Exclusive.Claims.{HeldBy}
use telegram_auto.Promo.Exclusive.Reconcile.{
  Row, rows_at, owners_in, Tally, winner_of, give_to, rightful_owner, reconcile_group,
  reconcile_groups,
}
use telegram_auto.Promo.Exclusive.Rows.{IsRow, AreRows}
use telegram_auto.Promo.Exclusive.Passes.{
  Settled, give_to-keeps, rows-apart, winner_of_lem, give_to-HeldBy,
}

module _ (sha1 : Text → ℕ) (ids : List Text) where
  -- whether a group is passed over: it stands on one account, or none can host it
  abbrev pub passed_over : List Row → Bool
  passed_over rows =
      leb (length (owners_in rows)) 1 || length (filter (λ a. not (is_empty a)) ids) == 0

  -- A group is passed over, or goes to the winner.
  reconcile_group-cases :
      (norm : Text) (rows : List Row) (t t' : Tally)
      → reconcile_group sha1 ids norm rows t ≡ some t'
      → ((passed_over rows ≡ true) × (t ≡ t'))
        ⊎ ((x : Text) × (passed_over rows ≡ false)
            × (give_to (winner_of x (owners_in rows) t.profiles) norm rows t ≡ t'))
  unfolding reconcile_group
  reconcile_group-cases norm rows t t' e =
      let candidates = filter (λ a. not (is_empty a)) ids in
      elim (Bool-cases (passed_over rows)) [
        | inl over ↦ inl (over, some-injective t t' (sym (rw (over, reconcile_group) refl) ∙ e))
        | inr done ↦ elim (Option-cases (rightful_owner sha1 norm candidates)) [
          | inl bad ↦
              let lost : reconcile_group sha1 ids norm rows t ≡ none =
                rw (done, bad, reconcile_group) refl in
              cc
          | inr (x, good) ↦
              let given = give_to (winner_of x (owners_in rows) t.profiles) norm rows t in
              inr
                (x, done, some-injective given t' (sym (rw (done, good, reconcile_group) refl) ∙ e))
        ]
      ]

  Settled-here :
      (norm : Text) (rows : List Row) (t t' : Tally)
      → (passed_over rows ≡ false) ⊎ Settled norm t.profiles
      → reconcile_group sha1 ids norm rows t ≡ some t'
      → Settled norm t'.profiles
  Settled-here norm rows t t' h e = elim (reconcile_group-cases norm rows t t' e) [
    | inl (over, same) ↦ elim h [
      | inl open_ ↦ cc
      | inr s ↦ subst (λ (u : Tally). Settled norm u.profiles) same s
    ]
    | inr (x, done, given) ↦
        let w = winner_of x (owners_in rows) t.profiles in
        (w, subst (λ (u : Tally). HeldBy w norm u.profiles) given (give_to-HeldBy w norm rows t))
  ]

  module _ (norm : Text) where
    reconcile_group-keeps :
        (other : Text) (rows : List Row) (t t' : Tally)
        → (other == norm) ≡ false
        → All (IsRow other) rows
        → reconcile_group sha1 ids other rows t ≡ some t'
        → Settled norm t.profiles
        → Settled norm t'.profiles
    reconcile_group-keeps other rows t t' d r e h = elim (reconcile_group-cases other rows t t' e) [
      | inl (over, same) ↦ subst (λ (u : Tally). Settled norm u.profiles) same h
      | inr (x, done, given) ↦
          let w = winner_of x (owners_in rows) t.profiles in
          subst (λ (u : Tally). Settled norm u.profiles) given
            (
              h.0,
              give_to-keeps h.0 norm w other rows t (rows-apart h.0 norm other rows d r)
                  (winner_of_lem x rows t.profiles (ground (arith, done))) h.1,
            )
    ]

    Settled-at :
        (k : Text)
        → k ≡ norm
        → (rows : List Row) (t : Tally) → (passed_over rows ≡ false) ⊎ Settled norm t.profiles
        → (passed_over rows ≡ false) ⊎ Settled k t.profiles
    Settled-at k same rows t h =
        subst (λ x. (passed_over rows ≡ false) ⊎ Settled x t.profiles) (sym same) h

    -- A pass keeps what the loop promises of the group.
    Settled-on :
        (k : Text) (rows : List Row) (d : Dict Text (List Row)) (t u : Tally)
        → All (IsRow k) rows
        → (passed_over (rows_at norm ((k, rows) ∷ d)) ≡ false) ⊎ Settled norm t.profiles
        → reconcile_group sha1 ids k rows t ≡ some u
        → (passed_over (rows_at norm d) ≡ false) ⊎ Settled norm u.profiles
    unfolding rows_at Dict.lookup
    Settled-on k rows d t u r h good = elim (Bool-cases (k == norm)) [
      | inl here ↦
          let same : k ≡ norm = ground arith in
          let at : rows_at norm ((k, rows) ∷ d) ≡ rows = ground (arith, here) in
          inr (
            subst (λ x. Settled x u.profiles) same
              (Settled-here k rows t u
                (Settled-at k same rows t (
                  subst (λ (rs : List Row). (passed_over rs ≡ false) ⊎ Settled norm t.profiles) at
                    h))
                good))
      | inr past ↦ elim h [
        | inl open_ ↦
            let at : rows_at norm ((k, rows) ∷ d) ≡ rows_at norm d = ground (arith, past) in
            inl (subst (λ (rs : List Row). passed_over rs ≡ false) at open_)
        | inr s ↦ inr (reconcile_group-keeps k rows t u past r good s)
      ]
    ]

    -- The loop settles a group that is still to come, and leaves one settled.
    pub reconcile_groups-Settled :
        (d : Dict Text (List Row)) (t t' : Tally)
        → AreRows d
        → (passed_over (rows_at norm d) ≡ false) ⊎ Settled norm t.profiles
        → reconcile_groups sha1 ids d t ≡ some t'
        → Settled norm t'.profiles
    unfolding reconcile_groups rows_at Dict.lookup
    reconcile_groups-Settled [] t t' r h e = elim h [
      | inl late ↦ cc
      | inr s ↦ subst (λ (u : Tally). Settled norm u.profiles) (some-injective t t' e) s
    ]
    reconcile_groups-Settled ((k, rows) ∷ d) t t' r h e =
        elim (Option-cases (reconcile_group sha1 ids k rows t)) [
          | inl bad ↦
              let lost : reconcile_groups sha1 ids ((k, rows) ∷ d) t ≡ none =
                rw (bad, reconcile_groups) refl in
              cc
          | inr (u, good) ↦
              let rest : reconcile_groups sha1 ids d u ≡ some t' =
                sym (rw (good, reconcile_groups) refl) ∙ e in
              reconcile_groups-Settled d u t' r.1 (Settled-on k rows d t u r.0 h good) rest
        ]
