-- ===== src/Promo/Exclusive/Unique.antt =====
-- The accounts after `reconcile_exclusive_profiles`
-- (app/promo_exclusivity.py).
use telegram_auto.Prelude.{
  ℕ, ◌≡◌, refl, Bool, true, false, not, ◌&&◌, ◌||◌, some, List, [], ◌∷◌, Text, leb, ◌==◌, nat_eq,
  text_eq, filter, any, arith, All, inl, inr, ◌⊎◌, Bool-cases, length, contains,
}
use telegram_auto.Prelude.Strip.{is_empty}
use telegram_auto.Prelude.Dict
use telegram_auto.Prelude.Dict.{Dict}
use telegram_auto.Promo.Exclusive.{Profiles, holds, owners_of}
use telegram_auto.Promo.Exclusive.Claims.{HeldBy, owners_of-HeldBy}
use telegram_auto.Promo.Exclusive.Reconcile.{
  sourced_ids, rows_at, placements_of, owners_in, Tally, Reconciled, reconcile_exclusive_profiles,
}
use telegram_auto.Promo.Exclusive.Rows.{
  contains-owners_in, has_row-placements_of, placements_of-AreRows,
}
use telegram_auto.Promo.Exclusive.Reconcile.{count_contested, find_overlaps}
use telegram_auto.Promo.Exclusive.Total.{
  has_norm, sourced_ids-IsClean, filter-inked, reconcile_groups-some,
}
use telegram_auto.Promo.Exclusive.Passes.{Settled}
use telegram_auto.Promo.Exclusive.Settled.{passed_over, reconcile_groups-Settled}

-- The groups that stand on one account at first.
module _ (norm : Text) where
  not_held :
      (a : Text) (profiles : Profiles)
      → any (λ e. e.0 == a && holds norm e.1) profiles ≡ false
      → All (λ e. e.0 == a && holds norm e.1 ≡ false) profiles
  unfolding any
  not_held a [] h = tt
  not_held a (e ∷ profiles) h = (ground arith, not_held a profiles (ground arith))

  holders :
      (q : Text → Bool) (profiles : Profiles)
      → ((a : Text) → (not (any (λ e. e.0 == a && holds norm e.1) profiles) || q a) ≡ true)
      → All (λ e. not (holds norm e.1) || q e.0 ≡ true) profiles
  unfolding any text_eq
  holders q [] c = tt
  holders q ((aid, p) ∷ profiles) c =
      (ground (arith, c aid), holders q profiles (λ a. ground (arith, c a)))

  none_held :
      (profiles : Profiles)
      → All (λ e. not (holds norm e.1) || false ≡ true) profiles
      → HeldBy [] norm profiles
  none_held [] h = tt
  none_held (e ∷ profiles) h = (ground (arith, h.0), none_held profiles h.1)

  one_holds :
      (w : Text) (profiles : Profiles)
      → All (λ e. not (holds norm e.1) || (e.0 == w || false) ≡ true) profiles
      → HeldBy w norm profiles
  one_holds w [] h = tt
  one_holds w (e ∷ profiles) h = (ground (arith, h.0), one_holds w profiles h.1)

  held_once :
      (owners : List Text) (profiles : Profiles)
      → leb (length owners) 1 ≡ true
      → ((a : Text)
          → (not (any (λ e. e.0 == a && holds norm e.1) profiles) || contains owners a) ≡ true)
      → Settled norm profiles
  unfolding contains
  held_once [] profiles h c = ([], none_held profiles (holders (λ a. false) profiles c))
  held_once (w ∷ []) profiles h c =
      (w, one_holds w profiles (holders (λ a. a == w || false) profiles c))
  held_once (w ∷ v ∷ owners) profiles h c = absurd (ground (arith, h))

  placements-hold :
      (profiles : Profiles) (a : Text)
      → (not (any (λ e. e.0 == a && holds norm e.1) profiles)
          || contains (owners_in (rows_at norm (placements_of profiles []))) a)
        ≡ true
  unfolding any rows_at Dict.lookup
  placements-hold profiles a = ground (
    arith,
    has_row-placements_of norm a profiles [],
    contains-owners_in a (rows_at norm (placements_of profiles [])),
  )

module _ (sha1 : Text → ℕ) where
  Settled-at_first :
      (ids : List Text) (norm : Text) (profiles : Profiles)
      → (length (filter (λ a. not (is_empty a)) ids) == 0) ≡ false
      → (passed_over sha1 ids (rows_at norm (placements_of profiles [])) ≡ false)
        ⊎ Settled norm profiles
  Settled-at_first ids norm profiles n =
      let owners = owners_in (rows_at norm (placements_of profiles [])) in
      elim (Bool-cases (leb (length owners) 1)) [
        | inl one ↦ inr (held_once norm owners profiles one (placements-hold norm profiles))
        | inr several ↦ inl (ground (arith, several, n))
      ]

-- Where an account has a source of posts and the norms of the contested groups have norms
-- themselves, `reconcile_exclusive_profiles` returns, and every norm of a group belongs to one account
-- at most afterwards, whatever routes and groups the accounts had and whatever the hash is.
pub owners_of-reconcile_exclusive_profiles :
    (sha1 : Text → ℕ) (account_ids : List Text) (profiles : Profiles) (norm : Text)
    → (length (sourced_ids account_ids profiles) == 0) ≡ false
    → All (λ e. leb (length (owners_in e.1)) 1 || has_norm e.0 ≡ true) (placements_of profiles [])
    → (r : Reconciled) × (reconcile_exclusive_profiles sha1 account_ids profiles ≡ some r)
      × ((owner : Text) × All (λ aid. aid == owner ≡ true) (owners_of norm r.tally.profiles))
unfolding reconcile_exclusive_profiles
owners_of-reconcile_exclusive_profiles sha1 account_ids profiles norm n h =
    let ids = sourced_ids account_ids profiles in
    let clean = sourced_ids-IsClean account_ids profiles in
    let placements = placements_of profiles [] in
    let start : Tally = record { changed = false; moved = 0; removed = 0; profiles = profiles } in
    let done = reconcile_groups-some sha1 ids placements start clean h in
    let r : Reconciled = record {
      tally = done.0;
      overlaps_before = count_contested placements;
      overlaps_after = length (find_overlaps done.0.profiles);
    } in
    let settled =
      reconcile_groups-Settled sha1 ids norm placements start done.0
        (placements_of-AreRows profiles [] tt)
        (Settled-at_first sha1 ids norm profiles (ground (arith, n, filter-inked ids clean)))
        done.1 in
    (
      r,
      rw (n, done.1, reconcile_exclusive_profiles) refl,
      (settled.0, owners_of-HeldBy settled.0 norm done.0.profiles settled.1),
    )
