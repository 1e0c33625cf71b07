-- ===== src/Promo/Exclusive/Passes.antt =====
-- What a pass of the loop of `reconcile_exclusive_profiles` does to its group and to the others
-- (app/promo_exclusivity.py).
use telegram_auto.Prelude.{
  ◌≡◌, refl, ◌∙◌, Bool, true, false, not, ◌&&◌, ◌||◌, none, some, List, [], ◌∷◌, Text, leb, ◌==◌,
  nat_eq, text_eq, if◌then◌else◌, find?, any, arith, All, inl, inr, Bool-cases, Option-cases,
  length, contains,
}
use mathlib.Core.Path.{subst}
use telegram_auto.Prelude.Strip.{is_empty}
use telegram_auto.Prelude.Filters.{find?-some}
use telegram_auto.Promo.Routes.{display_ref}
use telegram_auto.Promo.Refs.Shown.{IsShown}
use telegram_auto.Promo.Profile.{Profile}
use telegram_auto.Promo.Exclusive.{is_norm, Profiles, strip_others}
use telegram_auto.Promo.Exclusive.Claims.{HeldBy, strip_others-HeldBy, is_norm-some}
use telegram_auto.Promo.Exclusive.Reconcile.{
  enabled_source_keys, profile_of, has_source, Row, owners_in, ensure_on_last, Tally, winner_of,
  move_to, give_to,
}
use telegram_auto.Promo.Exclusive.Kept.{holds-strip_other}
use telegram_auto.Promo.Exclusive.Given.{holds-ensure_other}
use telegram_auto.Promo.Exclusive.Rows.{contains-owners_in, IsRow}

-- One account at most holds the group.
abbrev pub Settled : Text → Profiles → Type 0
Settled norm profiles = (owner : Text) × HeldBy owner norm profiles

-- Whether a winner is on the list of profiles with a source, if it is there at all.
abbrev ready : Text → Profiles → Bool
ready w profiles = not (any (λ e. e.0 == w) profiles) || has_source w profiles

profile_of-any :
    (w : Text) (profiles : Profiles)
    → elim (profile_of w profiles) [ none ↦ false | some _ ↦ true ] ≡ any (λ e. e.0 == w) profiles
unfolding profile_of any
profile_of-any w [] = refl
profile_of-any w ((a, p) ∷ profiles) = ground (arith, profile_of-any w profiles)

ready-tail :
    (w a : Text) (p : Profile) (profiles : Profiles)
    → ready w ((a, p) ∷ profiles) ≡ true
    → ready w profiles ≡ true
unfolding has_source profile_of any
ready-tail w a p profiles h = ground (arith, h, profile_of-any w profiles)

ready-here :
    (w a : Text) (p : Profile) (profiles : Profiles)
    → (a == w && not (any (λ e. e.0 == w) profiles)) ≡ true
    → ready w ((a, p) ∷ profiles) ≡ true
    → not (length (enabled_source_keys p) == 0) ≡ true
unfolding has_source profile_of any
ready-here w a p profiles here h = ground (arith, h, here, profile_of-any w profiles)

contains-head : (a : Text) (owners : List Text) → contains (a ∷ owners) a ≡ true
unfolding contains text_eq
contains-head a owners = ground arith

module _ (o norm : Text) where
  strip_others-keeps :
      (w other : Text) (profiles : Profiles)
      → HeldBy o norm profiles
      → HeldBy o norm (strip_others w other profiles).1
  unfolding strip_others
  strip_others-keeps w other [] h = tt
  strip_others-keeps w other ((aid, p) ∷ profiles) h = elim (Bool-cases (aid == w)) [
    | inl own ↦ rw own (h.0, strip_others-keeps w other profiles h.1)
    | inr else_ ↦ rw else_ (
      ground (arith, h.0, holds-strip_other norm other p),
      strip_others-keeps w other profiles h.1,
    )
  ]

  ensure_on_last-keeps :
      (w other group_ref preferred : Text) (profiles : Profiles)
      → is_norm norm group_ref ≡ false
      → IsShown group_ref
      → ready w profiles ≡ true
      → HeldBy o norm profiles
      → HeldBy o norm (ensure_on_last w other group_ref preferred profiles).1
  unfolding ensure_on_last
  ensure_on_last-keeps w other group_ref preferred [] g s r h = tt
  ensure_on_last-keeps w other group_ref preferred ((aid, p) ∷ profiles) g s r h =
      elim (Bool-cases (aid == w && not (any (λ e. e.0 == w) profiles))) [
        | inl here ↦ rw here (
          ground (
            arith,
            h.0,
            holds-ensure_other norm p group_ref other preferred g s
                (ready-here w aid p profiles here r),
          ),
          h.1,
        )
        | inr past ↦ rw past (
          h.0,
          ensure_on_last-keeps w other group_ref preferred profiles g s
              (ready-tail w aid p profiles r) h.1,
        )
      ]

  move_to-keeps :
      (w other : Text) (rows : List Row) (t : Tally)
      → All (λ r. (is_norm norm r.ref ≡ false) × IsShown r.ref) rows
      → ready w t.profiles ≡ true
      → HeldBy o norm t.profiles
      → HeldBy o norm (move_to w other rows t).profiles
  unfolding move_to
  move_to-keeps w other [] t g r h = h
  move_to-keeps w other (row ∷ rows) t g r h =
      let preferred = if is_empty row.source then [] else display_ref row.source in
      let kept = ensure_on_last-keeps w other row.ref preferred t.profiles g.0.0 g.0.1 r h in
      elim (Bool-cases (ensure_on_last w other row.ref preferred t.profiles).0) [
        | inl added ↦ rw added kept
        | inr not_ ↦ rw not_ h
      ]

  -- Giving another group to an account keeps this one where it is.
  pub give_to-keeps :
      (w other : Text) (rows : List Row) (t : Tally)
      → All (λ r. (is_norm norm r.ref ≡ false) × IsShown r.ref) rows
      → (any (λ r. r.account_id == w) rows || has_source w t.profiles) ≡ true
      → HeldBy o norm t.profiles
      → HeldBy o norm (give_to w other rows t).profiles
  unfolding give_to
  give_to-keeps w other rows t g r h = elim (Bool-cases (any (λ r. r.account_id == w) rows)) [
    | inl there ↦ rw there (strip_others-keeps w other t.profiles h)
    | inr new ↦ rw new (
        strip_others-keeps w other (move_to w other rows t).profiles
          (move_to-keeps w other rows t g (ground (arith, r, new)) h))
  ]

  pub rows-apart :
      (other : Text) (rows : List Row)
      → (other == norm) ≡ false
      → All (IsRow other) rows
      → All (λ r. (is_norm norm r.ref ≡ false) × IsShown r.ref) rows
  rows-apart other [] n h = tt
  rows-apart other (r ∷ rows) n h =
      ((is_norm-some norm r.ref other h.0.0 ∙ n, h.0.1), rows-apart other rows n h.1)

-- The winner is an owner of the group, or has a source of posts.
winner_of-contains :
    (rightful : Text) (owners : List Text) (profiles : Profiles)
    → leb (length owners) 1 ≡ false
    → let w = winner_of rightful owners profiles in
      (contains owners w || has_source w profiles) ≡ true
unfolding winner_of
winner_of-contains rightful [] profiles h = ground arith
winner_of-contains rightful (a ∷ owners) profiles h =
    let Good : Text → Type 0 = λ w. (contains (a ∷ owners) w || has_source w profiles) ≡ true in
    let sourced = λ (x : Text). has_source x profiles in
    elim (Bool-cases (has_source rightful profiles)) [
      | inl can ↦
          let e : rightful ≡ winner_of rightful (a ∷ owners) profiles = rw (can, winner_of) refl in
          subst Good e (ground (arith, can))
      | inr cannot ↦ elim (Option-cases (find? sourced (a ∷ owners))) [
        | inl lost ↦
            let e : a ≡ winner_of rightful (a ∷ owners) profiles =
              rw (cannot, lost, winner_of) refl in
            subst Good e (ground (arith, contains-head a owners))
        | inr (x, found) ↦
            let e : x ≡ winner_of rightful (a ∷ owners) profiles =
              rw (cannot, found, winner_of) refl in
            subst Good e (ground (arith, find?-some sourced (a ∷ owners) found))
      ]
    ]

pub winner_of_lem :
    (rightful : Text) (rows : List Row) (profiles : Profiles)
    → leb (length (owners_in rows)) 1 ≡ false
    → let w = winner_of rightful (owners_in rows) profiles in
      (any (λ r. r.account_id == w) rows || has_source w profiles) ≡ true
winner_of_lem rightful rows profiles h =
    let w = winner_of rightful (owners_in rows) profiles in
    ground
      (arith, winner_of-contains rightful (owners_in rows) profiles h, contains-owners_in w rows)

-- The group of a pass belongs to the winner alone after it.
pub give_to-HeldBy :
    (w norm : Text) (rows : List Row) (t : Tally) → HeldBy w norm (give_to w norm rows t).profiles
unfolding give_to
give_to-HeldBy w norm rows t =
    let moved = if any (λ r. r.account_id == w) rows then t else move_to w norm rows t in
    strip_others-HeldBy w norm moved.profiles
