-- ===== src/Promo/Exclusive/Total.antt =====
-- When `reconcile_exclusive_profiles` returns
-- (app/promo_exclusivity.py).
use telegram_auto.Prelude.{
  ℕ, ◌≤◌, ◌≡◌, refl, sym, ap, Bool, true, false, not, ◌||◌, none, some, List, [], ◌∷◌, map, Text,
  leb, ◌==◌, nat_eq, text_eq, if◌then◌else◌, filter, arith, All, inl, inr, Bool-cases, Option-cases,
  length, contains,
}
use mathlib.Core.Path.{subst}
use telegram_auto.Prelude.Strip.{strip, is_empty}
use telegram_auto.Prelude.Dict.{Dict}
use telegram_auto.Prelude.Ordered.{text_le, sort_in}
use telegram_auto.Promo.Refs.{group_norm_key}
use telegram_auto.Promo.Exclusive.{Profiles}
use telegram_auto.Promo.Exclusive.Reconcile.{
  distinct, sorted_set, has_source, sourced_ids, Row, owners_in, Tally, winner_of, give_to,
  rightful_owner, reconcile_group, reconcile_groups,
}
use mathlib.Core.List.{map}
use Prim.Native.Nat.{◌%◌, ◌<◌, max}
use telegram_auto.Prelude.{get_elem?, get_elem?-lt}
use telegram_auto.Prelude.Strip.{strip-strip}
use telegram_auto.Prelude.Filters.{filter-All}
use telegram_auto.Prelude.Ordered.{length-sort_in, All-sort_in}
use telegram_auto.Promo.Exclusive.Reconcile.{clean_ids, stable_bucket_index}
use telegram_auto.Promo.Exclusive.Settled.{passed_over}

-- The ids of the accounts are clean.
abbrev pub IsClean : Text → Type 0
IsClean a = (strip a ≡ a) × (not (is_empty a) ≡ true)

clean_ids-IsClean : (ids : List Text) → All IsClean (clean_ids ids)
unfolding clean_ids filter
clean_ids-IsClean [] = tt
clean_ids-IsClean (a ∷ ids) = elim (Bool-cases (is_empty (strip a))) [
  | inl blank ↦ rw blank (clean_ids-IsClean ids)
  | inr inked ↦ rw inked ((strip-strip a, ap not inked), clean_ids-IsClean ids)
]

clean_ids_idem : (ids : List Text) → All IsClean ids → clean_ids ids ≡ ids
unfolding clean_ids filter
clean_ids_idem [] h = refl
clean_ids_idem (a ∷ ids) h = rw (h.0.0) (rw (h.0.1) (ap (λ xs. a ∷ xs) (clean_ids_idem ids h.1)))

distinct-All : (P : Text → Type 0) (xs : List Text) → All P xs → All P (distinct xs)
unfolding distinct
distinct-All P [] h = tt
distinct-All P (x ∷ xs) h = elim (Bool-cases (contains (distinct xs) x)) [
  | inl old ↦ rw old (distinct-All P xs h.1)
  | inr new ↦ rw new (h.0, distinct-All P xs h.1)
]

length-distinct : (x : Text) (xs : List Text) → 1 ≤ length (distinct (x ∷ xs))
unfolding distinct contains
length-distinct x [] = omega arith
length-distinct x (y ∷ xs) = ground (arith, length-distinct y xs)

pub sourced_ids-IsClean :
    (account_ids : List Text) (profiles : Profiles) → All IsClean (sourced_ids account_ids profiles)
unfolding sourced_ids sorted_set
sourced_ids-IsClean account_ids profiles =
    let ids = if length account_ids == 0 then map (λ e. e.0) profiles else account_ids in
    let sourced = filter (λ a. has_source a profiles) (clean_ids ids) in
    All-sort_in text_le IsClean (distinct sourced) (
      distinct-All IsClean sourced
        (filter-All IsClean (λ a. has_source a profiles) (clean_ids ids) (clean_ids-IsClean ids)))

pub filter-inked : (ids : List Text) → All IsClean ids → filter (λ a. not (is_empty a)) ids ≡ ids
unfolding filter
filter-inked [] h = refl
filter-inked (a ∷ ids) h = ground (arith, h.0.1, filter-inked ids h.1)

-- A norm that has a norm itself.
abbrev pub has_norm : Text → Bool
has_norm norm = elim (group_norm_key norm) [ none ↦ false | some _ ↦ true ]

bucket-lt : (h n : ℕ) → 1 ≤ n → h % max 1 n < n
bucket-lt h n p = ground arith

nth-pos :
    (h : ℕ) (xs : List Text)
    → (length xs == 0) ≡ false
    → (a : Text) × (get_elem?
          (sort_in text_le (distinct xs))
          (h % max 1 (length (sort_in text_le (distinct xs))))
        ≡ some a)
nth-pos h [] n = absurd (ground arith)
nth-pos h (x ∷ xs) n =
    let ids = sort_in text_le (distinct (x ∷ xs)) in
    get_elem?-lt ids (h % max 1 (length ids)) (
      bucket-lt h (length ids)
        (omega (arith, length-sort_in text_le (distinct (x ∷ xs)), length-distinct x xs)))

-- Where some id is not blank there is an owner of every norm that has a norm.
pub rightful_owner-some :
    (sha1 : Text → ℕ) (norm : Text) (ids : List Text)
    → (length (clean_ids ids) == 0) ≡ false
    → has_norm norm ≡ true
    → (a : Text) × (rightful_owner sha1 norm ids ≡ some a)
unfolding rightful_owner sorted_set stable_bucket_index
rightful_owner-some sha1 norm ids n h = elim (Option-cases (group_norm_key norm)) [
  | inl bad ↦ absurd (ground (arith, bad, h))
  | inr (key, good) ↦
      let found = nth-pos (sha1 key) (clean_ids ids) n in
      (found.0, rw (good, rightful_owner) found.1)
]

right_false : (a b : Bool) → (a || b) ≡ false → b ≡ false
right_false a b h = ground (arith, h)

right_true : (a b c : Bool) → (a || b) ≡ false → (a || c) ≡ true → c ≡ true
right_true a b c h k = ground (arith, h, k)

reconcile_group-some :
    (sha1 : Text → ℕ) (ids : List Text) (norm : Text) (rows : List Row) (t : Tally)
    → All IsClean ids
    → (leb (length (owners_in rows)) 1 || has_norm norm) ≡ true
    → (t' : Tally) × (reconcile_group sha1 ids norm rows t ≡ some t')
unfolding reconcile_group
reconcile_group-some sha1 ids norm rows t c h = elim (Bool-cases (passed_over sha1 ids rows)) [
  | inl over ↦ (t, rw (over, reconcile_group) refl)
  | inr open_ ↦
      let candidates = filter (λ a. not (is_empty a)) ids in
      let here = leb (length (owners_in rows)) 1 in
      let inked : All IsClean candidates = subst (All IsClean) (sym (filter-inked ids c)) c in
      let found : (a : Text) × (rightful_owner sha1 norm candidates ≡ some a) =
        rightful_owner-some sha1 norm candidates
          (subst (λ (xs : List Text). (length xs == 0) ≡ false)
            (sym (clean_ids_idem candidates inked))
            (right_false here (length candidates == 0) open_))
          (right_true here (length candidates == 0) (has_norm norm) open_ h) in
      let (a, e) = found in
      (
        give_to (winner_of a (owners_in rows) t.profiles) norm rows t,
        rw (open_, e, reconcile_group) refl,
      )
]

-- The loop returns where the contested groups have norms.
pub reconcile_groups-some :
    (sha1 : Text → ℕ) (ids : List Text) (d : Dict Text (List Row)) (t : Tally)
    → All IsClean ids
    → All (λ e. leb (length (owners_in e.1)) 1 || has_norm e.0 ≡ true) d
    → (t' : Tally) × (reconcile_groups sha1 ids d t ≡ some t')
unfolding reconcile_groups
reconcile_groups-some sha1 ids [] t c h = (t, refl)
reconcile_groups-some sha1 ids ((norm, rows) ∷ d) t c h =
    let step = reconcile_group-some sha1 ids norm rows t c h.0 in
    let rest = reconcile_groups-some sha1 ids d step.0 c h.1 in
    (rest.0, rw (step.1, reconcile_groups) rest.1)
