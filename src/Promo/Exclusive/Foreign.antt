-- ===== src/Promo/Exclusive/Foreign.antt =====
-- app/promo_exclusivity.py, `foreign_group_norms_for_account`: the groups to which an account must not
-- send. The set is a list of norms.
use telegram_auto.Prelude.{
  ℕ, ◌≡◌, refl, sym, ap, ◌∙◌, Bool, true, false, not, ◌&&◌, ◌||◌, Option, none, some, List, [], ◌∷◌,
  map, Text, leb, ◌==◌, nat_eq, text_eq, if◌then◌else◌, filter, arith, All, inl, inr, Bool-cases,
  length, contains,
}
use mathlib.Core.Option.{some-injective}
use mathlib.Core.Path.{subst}
use telegram_auto.Prelude.Dict
use telegram_auto.Prelude.Dict.{Dict}
use telegram_auto.Promo.Exclusive.{Profiles}
use telegram_auto.Prelude.Ordered.{sort_in}
use telegram_auto.Promo.Exclusive.Reconcile.{
  distinct, sorted_set, clean_ids, enabled_source_keys, Row, rows_at, placements_of, owners_in,
  rightful_owner,
}
use telegram_auto.Promo.Exclusive.Total.{has_norm, rightful_owner-some}

-- the accounts that can host a group
unfoldable pub host_ids : Profiles → List Text
unfolding sorted_set enabled_source_keys filter
host_ids profiles =
    sorted_set (map (λ e. e.0) (filter (λ e. not (length (enabled_source_keys e.1) == 0)) profiles))

module _ (sha1 : Text → ℕ) where
  -- The loop over the groups. One that the account holds alone is kept, one that has no owner is not
  -- foreign.
  unfoldable pub foreign_groups : Text → List Text → Dict Text (List Row) → Option (List Text)
  unfolding rightful_owner owners_in contains
  foreign_groups account ids [] = some []
  foreign_groups account ids ((norm, rows) ∷ d) =
      let rest = foreign_groups account ids d in
      let owners = owners_in rows in
      if contains owners account && length owners == 1
      then rest
      else elim (rightful_owner sha1 norm ids) [
        | none ↦ none
        | some owner ↦
            (if owner == account || length owners == 0
              then rest
              else elim rest [ none ↦ none | some norms ↦ some (norm ∷ norms) ])
      ]

  -- `none` where `rightful_owner` raises
  unfoldable pub foreign_group_norms_for_account : Text → Profiles → Option (List Text)
  unfolding foreign_groups host_ids placements_of
  foreign_group_norms_for_account account profiles =
      let ids = host_ids profiles in
      if length ids == 0 || not (contains ids account)
      then some []
      else foreign_groups account ids (placements_of profiles [])

  module _ (account norm owner : Text) (ids : List Text) where
    -- whether a group is not contested, or is among the norms
    abbrev counted : Dict Text (List Row) → List Text → Bool
    counted d norms = leb (length (owners_in (rows_at norm d))) 1 || contains norms norm

    counted-none : counted [] [] ≡ true
    unfolding rows_at Dict.lookup owners_in sorted_set distinct sort_in
    counted-none = refl

    counted-past :
        (k : Text) (rows : List Row) (d : Dict Text (List Row)) (norms : List Text)
        → (norm == k) ≡ false
        → counted d norms ≡ true
        → counted ((k, rows) ∷ d) norms ≡ true
    unfolding rows_at Dict.lookup
    counted-past k rows d norms p h =
        let at : rows_at norm d ≡ rows_at norm ((k, rows) ∷ d) = ground (arith, p) in
        subst (λ (rs : List Row). (leb (length (owners_in rs)) 1 || contains norms norm) ≡ true) at
          h

    counted-here :
        (k : Text) (rows : List Row) (d : Dict Text (List Row)) (norms : List Text)
        → (norm == k) ≡ true
        → (leb (length (owners_in rows)) 1 || contains norms norm) ≡ true
        → counted ((k, rows) ∷ d) norms ≡ true
    unfolding rows_at Dict.lookup
    counted-here k rows d norms p h =
        let at : rows ≡ rows_at norm ((k, rows) ∷ d) = ground (arith, p) in
        subst (λ (rs : List Row). (leb (length (owners_in rs)) 1 || contains norms norm) ≡ true) at
          h

    counted-skip :
        (k : Text) (rows : List Row) (d : Dict Text (List Row)) (norms : List Text)
        → (not (norm == k) || leb (length (owners_in rows)) 1) ≡ true
        → counted d norms ≡ true
        → counted ((k, rows) ∷ d) norms ≡ true
    counted-skip k rows d norms p h = elim (Bool-cases (norm == k)) [
      | inl here ↦ counted-here k rows d norms here (ground (arith, p, here))
      | inr past ↦ counted-past k rows d norms past h
    ]

    counted-add :
        (k : Text) (rows : List Row) (d : Dict Text (List Row)) (norms : List Text)
        → counted d norms ≡ true
        → counted ((k, rows) ∷ d) (k ∷ norms) ≡ true
    unfolding contains
    counted-add k rows d norms h = elim (Bool-cases (norm == k)) [
      | inl here ↦ counted-here k rows d (k ∷ norms) here (ground (arith, here))
      | inr past ↦ counted-past k rows d (k ∷ norms) past (ground (arith, h, past))
    ]

    rightful-apart :
        (k o : Text)
        → (norm == k) ≡ true
        → rightful_owner sha1 norm ids ≡ some owner
        → rightful_owner sha1 k ids ≡ some o
        → owner ≡ o
    rightful-apart k o s r f =
        let same : norm ≡ k = ground (arith, s) in
        some-injective owner o (sym r ∙ ap (λ x. rightful_owner sha1 x ids) same ∙ f)

    -- The loop returns, and a contested group is foreign to an account that is not its rightful
    -- owner.
    foreign_groups-some :
        (d : Dict Text (List Row))
        → (length (clean_ids ids) == 0) ≡ false
        → rightful_owner sha1 norm ids ≡ some owner
        → (owner == account) ≡ false
        → All (λ e. has_norm e.0 ≡ true) d
        → (norms : List Text) × (foreign_groups account ids d ≡ some norms)
          × (counted d norms ≡ true)
    unfolding foreign_groups
    foreign_groups-some [] n r a h = ([], refl, counted-none)
    foreign_groups-some ((k, rows) ∷ d) n r a h =
        let (rest, e, c) = foreign_groups-some d n r a h.1 in
        let (o, f) = rightful_owner-some sha1 k ids n h.0 in
        let owners = owners_in rows in
        elim (Bool-cases (contains owners account && length owners == 1)) [
          | inl kept ↦ (
            rest,
            rw (kept, e, foreign_groups) refl,
            counted-skip k rows d rest (ground (arith, kept)) c,
          )
          | inr asked ↦ elim (Bool-cases (o == account || length owners == 0)) [
            | inl own ↦ (
              rest,
              rw (asked, f, own, e, foreign_groups) refl,
              counted-skip k rows d rest
                  (elim (Bool-cases (norm == k)) [
                    | inl here ↦ ground (arith, own, a, rightful-apart k o here r f)
                    | inr past ↦ ground (arith, past)
                  ])
                  c,
            )
            | inr other ↦ (
              k ∷ rest,
              rw (asked, f, other, e, foreign_groups) refl,
              counted-add k rows d rest c,
            )
          ]
        ]

    -- So it does for the rightful owner.
    foreign_groups-returns :
        (d : Dict Text (List Row))
        → (length (clean_ids ids) == 0) ≡ false
        → All (λ e. has_norm e.0 ≡ true) d
        → (norms : List Text) × (foreign_groups account ids d ≡ some norms)
    unfolding foreign_groups
    foreign_groups-returns [] n h = ([], refl)
    foreign_groups-returns ((k, rows) ∷ d) n h =
        let (rest, e) = foreign_groups-returns d n h.1 in
        let (o, f) = rightful_owner-some sha1 k ids n h.0 in
        let owners = owners_in rows in
        elim (Bool-cases (contains owners account && length owners == 1)) [
          | inl kept ↦ (rest, rw (kept, e, foreign_groups) refl)
          | inr asked ↦ elim (Bool-cases (o == account || length owners == 0)) [
            | inl own ↦ (rest, rw (asked, f, own, e, foreign_groups) refl)
            | inr other ↦ (k ∷ rest, rw (asked, f, other, e, foreign_groups) refl)
          ]
        ]

  has_norm-contested :
      (norm : Text) (d : Dict Text (List Row))
      → All (λ e. has_norm e.0 ≡ true) d
      → leb (length (owners_in (rows_at norm d))) 1 ≡ false
      → has_norm norm ≡ true
  unfolding rows_at Dict.lookup owners_in sorted_set distinct sort_in
  has_norm-contested norm [] h c = cc
  has_norm-contested norm ((k, rows) ∷ d) h c = elim (Bool-cases (norm == k)) [
    | inl here ↦
        let same : k ≡ norm = ground (arith, here) in subst (λ x. has_norm x ≡ true) same h.0
    | inr past ↦
        let at : rows_at norm ((k, rows) ∷ d) ≡ rows_at norm d = ground (arith, past) in
        has_norm-contested norm d h.1
          (subst (λ (rs : List Row). leb (length (owners_in rs)) 1 ≡ false) at c)
  ]

  guard_open :
      (a : Text) (xs : List Text)
      → contains xs a ≡ true
      → (length xs == 0 || not (contains xs a)) ≡ false
  unfolding contains
  guard_open a [] h = cc
  guard_open a (x ∷ xs) h = ground (arith, h)

  foreign-unfold :
      (account : Text) (profiles : Profiles)
      → contains (host_ids profiles) account ≡ true
      → foreign_group_norms_for_account account profiles
        ≡ foreign_groups account (host_ids profiles) (placements_of profiles [])
  unfolding foreign_group_norms_for_account
  foreign-unfold account profiles h =
      rw (guard_open account (host_ids profiles) h, foreign_group_norms_for_account) refl

  -- Where the norms of the groups have norms themselves and some id of the hosts is not blank, the
  -- sets of foreign groups of two different accounts that can host groups are computed, and a group
  -- that stands on several accounts is in one of the two.
  pub foreign_group_norms_for_account_exclusive :
      (account other norm : Text) (profiles : Profiles)
      → contains (host_ids profiles) account ≡ true
      → contains (host_ids profiles) other ≡ true
      → (account == other) ≡ false
      → (length (clean_ids (host_ids profiles)) == 0) ≡ false
      → All (λ e. has_norm e.0 ≡ true) (placements_of profiles [])
      → leb (length (owners_in (rows_at norm (placements_of profiles [])))) 1 ≡ false
      → (xs : List Text) × (ys : List Text) × (foreign_group_norms_for_account account profiles
          ≡ some xs)
        × (foreign_group_norms_for_account other profiles ≡ some ys)
        × (contains xs norm || contains ys norm ≡ true)
  foreign_group_norms_for_account_exclusive account other norm profiles a b d n h c =
      let ids = host_ids profiles in
      let placements = placements_of profiles [] in
      let (owner, r) =
        rightful_owner-some sha1 norm ids n (has_norm-contested norm placements h c) in
      elim (Bool-cases (owner == account)) [
        | inl own ↦
            let (xs, e) = foreign_groups-returns account norm owner ids placements n h in
            let (ys, f, k) =
              foreign_groups-some other norm owner ids placements n r (ground (arith, own, d)) h in
            (
              xs,
              ys,
              foreign-unfold account profiles a ∙ e,
              foreign-unfold other profiles b ∙ f,
              ground (arith, k, c),
            )
        | inr not_ ↦
            let (ys, f) = foreign_groups-returns other norm owner ids placements n h in
            let (xs, e, k) = foreign_groups-some account norm owner ids placements n r not_ h in
            (
              xs,
              ys,
              foreign-unfold account profiles a ∙ e,
              foreign-unfold other profiles b ∙ f,
              ground (arith, k, c),
            )
      ]
