-- ===== src/Prelude/Ordered.antt =====
-- `sorted` by a key that is no number: a stable sort by the test that one element may stand in front
-- of another.
use Prim.Native.Nat.{suc}
use mathlib.Core.Path.{◌≡◌, refl}
use mathlib.Core.Bool.{Bool, true, false, ◌||◌, ◌&&◌}
use mathlib.Core.List.{List, [], ◌∷◌}
use native.Mathlib.Omega.{arith}
use telegram_auto.Prelude.Tests.{Text, ltb, ◌==◌, nat_eq, if◌then◌else◌}
use telegram_auto.Prelude.Lists.{All, any, length}
use telegram_auto.Prelude.Filters.{count}

-- the order of texts
unfoldable pub text_le : Text → Text → Bool
unfolding nat_eq
text_le [] t = true
text_le (c ∷ s) [] = false
text_le (c ∷ s) (d ∷ t) = ltb c d || (c == d && text_le s t)

module _ {ℓ} {A : Type ℓ} (le : A → A → Bool) where
  unfoldable pub insert_in : A → List A → List A
  insert_in x [] = x ∷ []
  insert_in x (y ∷ ys) = if le x y then x ∷ y ∷ ys else y ∷ insert_in x ys

  unfoldable pub sort_in : List A → List A
  unfolding insert_in
  sort_in [] = []
  sort_in (x ∷ xs) = insert_in x (sort_in xs)

  All-insert_in {κ} :
      (P : A → Type κ) (x : A) (xs : List A) → P x → All P xs → All P (insert_in x xs)
  unfolding insert_in
  All-insert_in P x [] p h = (p, h)
  All-insert_in P x (y ∷ ys) p h =
      elim (le x y) as (λ b. All P (if b then x ∷ y ∷ ys else y ∷ insert_in x ys)) [
        | true ↦ (p, h)
        | false ↦ (h.0, All-insert_in P x ys p h.1)
      ]

  pub All-sort_in {κ} : (P : A → Type κ) (xs : List A) → All P xs → All P (sort_in xs)
  unfolding sort_in
  All-sort_in P [] h = h
  All-sort_in P (x ∷ xs) h = All-insert_in P x (sort_in xs) h.0 (All-sort_in P xs h.1)

  count-insert_in :
      (t : A → Bool) (x : A) (xs : List A)
      → count t (insert_in x xs) ≡ (if t x then suc (count t xs) else count t xs)
  unfolding insert_in count
  count-insert_in t x [] = refl
  count-insert_in t x (y ∷ ys) = ground (arith, count-insert_in t x ys)

  -- Sorting keeps every element.
  pub count-sort_in : (t : A → Bool) (xs : List A) → count t (sort_in xs) ≡ count t xs
  unfolding sort_in count
  count-sort_in t [] = refl
  count-sort_in t (x ∷ xs) = ground (arith, count-insert_in t x (sort_in xs), count-sort_in t xs)

  any-insert_in : (t : A → Bool) (x : A) (xs : List A) → any t (insert_in x xs) ≡ (t x || any t xs)
  unfolding insert_in any
  any-insert_in t x [] = refl
  any-insert_in t x (y ∷ ys) = ground (arith, any-insert_in t x ys)

  pub any-sort_in : (t : A → Bool) (xs : List A) → any t (sort_in xs) ≡ any t xs
  unfolding sort_in any
  any-sort_in t [] = refl
  any-sort_in t (x ∷ xs) = ground (arith, any-insert_in t x (sort_in xs), any-sort_in t xs)

  length-insert_in : (x : A) (xs : List A) → length (insert_in x xs) ≡ suc (length xs)
  unfolding insert_in
  length-insert_in x [] = refl
  length-insert_in x (y ∷ ys) = ground (arith, length-insert_in x ys)

  pub length-sort_in : (xs : List A) → length (sort_in xs) ≡ length xs
  unfolding sort_in
  length-sort_in [] = refl
  length-sort_in (x ∷ xs) = ground (arith, length-insert_in x (sort_in xs), length-sort_in xs)
