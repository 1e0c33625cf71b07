-- ===== src/Prelude/Filters.antt =====
-- How filters meet appending, cutting and the loop that changes one element.
use Prim.Native.Nat.{ℕ, zero, suc, ◌+◌, ◌-◌, ◌≤◌}
use mathlib.Core.Path.{◌≡◌, refl, ap₂, ◌∙◌}
use mathlib.Core.Logic.{inl, inr}
use mathlib.Core.Bool.{Bool, true, false, not, ◌&&◌}
use mathlib.Core.Option.{none, some}
use mathlib.Core.List.{List, [], ◌∷◌, ◌++◌, append-nil}
use native.Mathlib.Omega.{arith}
use telegram_auto.Prelude.Tests.{if◌then◌else◌, Bool-cases}
use telegram_auto.Prelude.Lists.{
  length, drop, last_n, filter, any, find?, update_first, All, filter-append,
}

module _ {ℓ} {A : Type ℓ} where
  pub All-filter : (p : A → Bool) (xs : List A) → All (λ x. p x ≡ true) (filter p xs)
  unfolding filter
  All-filter p [] = tt
  All-filter p (x ∷ xs) = ground (arith, All-filter p xs)

  -- A property of all elements holds of those that a filter keeps.
  pub filter-All {κ} :
      (P : A → Type κ) (p : A → Bool) (xs : List A) → All P xs → All P (filter p xs)
  unfolding filter
  filter-All P p [] h = h
  filter-All P p (x ∷ xs) h =
      elim (p x) as (λ b. All P (if b then x ∷ filter p xs else filter p xs)) [
        | true ↦ (h.0, filter-All P p xs h.1)
        | false ↦ filter-All P p xs h.1
      ]

  pub filter-true : (p : A → Bool) (xs : List A) → All (λ x. p x ≡ true) xs → filter p xs ≡ xs
  unfolding filter
  filter-true p [] h = refl
  filter-true p (x ∷ xs) h = ground (arith, filter-true p xs h.1)

  pub filter_none : (p : A → Bool) (xs : List A) → All (λ x. p x ≡ false) xs → filter p xs ≡ []
  unfolding filter
  filter_none p [] h = refl
  filter_none p (x ∷ xs) h = ground (arith, filter_none p xs h.1)

  pub filter_idem : (p : A → Bool) (xs : List A) → filter p (filter p xs) ≡ filter p xs
  filter_idem p xs = filter-true p (filter p xs) (All-filter p xs)

  -- Two filters of which the first lets nothing through that passes the second.
  pub filter_disjoint :
      (p q : A → Bool) (xs : List A)
      → ((x : A) → q x ≡ true → p x ≡ false)
      → All (λ x. p x ≡ false) (filter q xs)
  unfolding filter
  filter_disjoint p q [] h = tt
  filter_disjoint p q (x ∷ xs) h = ground (arith, h x, filter_disjoint p q xs h)

  -- The kept elements first, then others: the kept ones are what the filter sees again.
  pub filter_kept_first :
      (p : A → Bool) (xs ys : List A)
      → All (λ y. p y ≡ false) ys
      → filter p (filter p xs ++ ys) ≡ filter p xs
  filter_kept_first p xs ys h =
      filter-append p (filter p xs) ys
      ∙ ap₂ ◌++◌ (filter_idem p xs) (filter_none p ys h)
      ∙ append-nil (filter p xs)

  -- At most one element passes the test.
  abbrev pub AtMostOne : (A → Bool) → List A → Type 0
  AtMostOne t [] = Unit
  AtMostOne t (x ∷ xs) = (t x ≡ true → All (λ y. t y ≡ false) xs) × AtMostOne t xs

  filter_apart :
      (p t : A → Bool) (xs : List A)
      → All (λ y. t y ≡ false) xs
      → filter (λ x. p x && not (t x)) xs ≡ filter p xs
  unfolding filter
  filter_apart p t [] h = refl
  filter_apart p t (x ∷ xs) h = ground (arith, filter_apart p t xs h.1)

  -- The loop that takes the one element which passes a test out of a class removes just it from
  -- the elements of the class.
  pub filter-update_first :
      (p t : A → Bool) (f : A → A) (xs : List A)
      → ((x : A) → p (f x) ≡ false)
      → AtMostOne t xs
      → filter p (update_first t f xs) ≡ filter (λ x. p x && not (t x)) xs
  unfolding filter update_first
  filter-update_first p t f [] h u = refl
  filter-update_first p t f (x ∷ xs) h u = elim (Bool-cases (t x)) [
    | inl hit ↦ ground (arith, h x, filter_apart p t xs (u.0 hit))
    | inr miss ↦ ground (arith, filter-update_first p t f xs h u.1)
  ]

  -- The loop leaves a class alone where the change does not move an element in or out of it.
  pub any-update_first :
      (p t : A → Bool) (f : A → A) (xs : List A)
      → ((x : A) → t x ≡ true → p (f x) ≡ p x)
      → any p (update_first t f xs) ≡ any p xs
  unfolding any update_first
  any-update_first p t f [] h = refl
  any-update_first p t f (x ∷ xs) h = ground (arith, h x, any-update_first p t f xs h)

  pub All-update_first {κ} :
      (P : A → Type κ) (t : A → Bool) (f : A → A) (xs : List A)
      → ((x : A) → P x → P (f x))
      → All P xs
      → All P (update_first t f xs)
  unfolding update_first
  All-update_first P t f [] h a = tt
  All-update_first P t f (x ∷ xs) h a =
      elim (t x) as (λ b. All P (if b then f x ∷ xs else x ∷ update_first t f xs)) [
        | true ↦ (h x a.0, a.1)
        | false ↦ (a.0, All-update_first P t f xs h a.1)
      ]

  -- A filter and its complement share out the elements.
  pub length-filter-not :
      (p : A → Bool) (xs : List A)
      → length (filter p xs) + length (filter (λ x. not (p x)) xs) ≡ length xs
  unfolding filter
  length-filter-not p [] = omega arith
  length-filter-not p (x ∷ xs) = ground (arith, length-filter-not p xs)

  -- how many elements pass the test
  unfoldable pub count : (A → Bool) → List A → ℕ
  count t [] = 0
  count t (x ∷ xs) = if t x then suc (count t xs) else count t xs

  pub count-append : (t : A → Bool) (xs ys : List A) → count t (xs ++ ys) ≡ count t xs + count t ys
  unfolding count
  count-append t [] ys = omega arith
  count-append t (x ∷ xs) ys = ground (arith, count-append t xs ys)

  pub count-filter-le : (t p : A → Bool) (xs : List A) → count t (filter p xs) ≤ count t xs
  unfolding count filter
  count-filter-le t p [] = omega arith
  count-filter-le t p (x ∷ xs) = ground (arith, count-filter-le t p xs)

  -- Of two filters that share no element.
  pub count-filter_disjoint :
      (t p q : A → Bool) (xs : List A)
      → ((x : A) → q x ≡ true → p x ≡ false)
      → count t (filter p xs) + count t (filter q xs) ≤ count t xs
  unfolding count filter
  count-filter_disjoint t p q [] h = omega arith
  count-filter_disjoint t p q (x ∷ xs) h = ground (arith, h x, count-filter_disjoint t p q xs h)

  count-drop-le : (t : A → Bool) (n : ℕ) (xs : List A) → count t (drop n xs) ≤ count t xs
  unfolding count
  count-drop-le t zero xs = omega arith
  count-drop-le t (suc n) [] = omega arith
  count-drop-le t (suc n) (x ∷ xs) = ground (arith, count-drop-le t n xs)

  pub count-last_n-le : (t : A → Bool) (n : ℕ) (xs : List A) → count t (last_n n xs) ≤ count t xs
  unfolding last_n
  count-last_n-le t n xs = count-drop-le t (length xs - n) xs

  -- The loop adds no element that passes where the change makes none.
  pub count-update_first-le :
      (t s : A → Bool) (f : A → A) (xs : List A)
      → ((x : A) → t (f x) ≡ true → t x ≡ true)
      → count t (update_first s f xs) ≤ count t xs
  unfolding count update_first
  count-update_first-le t s f [] h = omega arith
  count-update_first-le t s f (x ∷ xs) h = ground (arith, h x, count-update_first-le t s f xs h)

  pub All-of_count-zero : (t : A → Bool) (xs : List A) → count t xs ≡ 0 → All (λ y. t y ≡ false) xs
  unfolding count
  All-of_count-zero t [] h = tt
  All-of_count-zero t (x ∷ xs) h = ground (arith, All-of_count-zero t xs)

  pub AtMostOne-of_count : (t : A → Bool) (xs : List A) → count t xs ≤ 1 → AtMostOne t xs
  unfolding count
  AtMostOne-of_count t [] h = tt
  AtMostOne-of_count t (x ∷ xs) h =
      (λ hit. All-of_count-zero t xs (ground arith), AtMostOne-of_count t xs (ground arith))

  pub count-zero_of_All : (t : A → Bool) (xs : List A) → All (λ y. t y ≡ false) xs → count t xs ≡ 0
  unfolding count
  count-zero_of_All t [] h = refl
  count-zero_of_All t (x ∷ xs) h = ground (arith, count-zero_of_All t xs h.1)

  pub find?-none : (t : A → Bool) (xs : List A) → find? t xs ≡ none → count t xs ≡ 0
  unfolding find? count
  find?-none t [] h = refl
  find?-none t (x ∷ xs) h = ground (arith, find?-none t xs)

  pub find?-some : (t : A → Bool) (xs : List A) {x : A} → find? t xs ≡ some x → t x ≡ true
  unfolding find?
  find?-some t [] h = cc
  find?-some t (y ∷ xs) {x} h = ground (arith, find?-some t xs {x = x})

  pub find?-append_none :
      (t : A → Bool) (xs : List A) (x : A)
      → find? t xs ≡ none
      → t x ≡ true
      → find? t (xs ++ x ∷ []) ≡ some x
  unfolding find?
  find?-append_none t [] x h k = ground arith
  find?-append_none t (y ∷ xs) x h k = ground (arith, find?-append_none t xs x)

  pub count-filter :
      (t p : A → Bool) (xs : List A) → count t (filter p xs) ≡ count (λ x. p x && t x) xs
  unfolding count filter
  count-filter t p [] = refl
  count-filter t p (x ∷ xs) = ground (arith, count-filter t p xs)

  count-agree :
      (s t u : A → Bool) (xs : List A)
      → ((x : A) → s x ≡ false → t x ≡ u x)
      → All (λ x. s x ≡ false) xs
      → count t xs ≡ count u xs
  unfolding count
  count-agree s t u [] h a = refl
  count-agree s t u (x ∷ xs) h a = ground (arith, h x a.0, count-agree s t u xs h a.1)

  -- The loop that changes the one element which passes a test: a test of the result is a test of the
  -- elements before.
  pub count-update_first :
      (s t u : A → Bool) (f : A → A) (xs : List A)
      → AtMostOne s xs
      → ((x : A) → s x ≡ true → t (f x) ≡ u x)
      → ((x : A) → s x ≡ false → t x ≡ u x)
      → count t (update_first s f xs) ≡ count u xs
  unfolding count update_first
  count-update_first s t u f [] one hit miss = refl
  count-update_first s t u f (x ∷ xs) one hit miss = elim (Bool-cases (s x)) [
    | inl yes_ ↦ ground (arith, hit x yes_, count-agree s t u xs miss (one.0 yes_))
    | inr no_ ↦ ground (arith, miss x no_, count-update_first s t u f xs one.1 hit miss)
  ]

  pub count_never : (xs : List A) → count (λ x. false) xs ≡ 0
  unfolding count
  count_never [] = refl
  count_never (x ∷ xs) = count_never xs
