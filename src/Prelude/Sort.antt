-- ===== src/Prelude/Sort.antt =====
-- `list.sort(key=...)` and `sorted`: a stable sort by a number.
use Prim.Native.Nat.{ℕ, suc, ◌≤◌}
use mathlib.Core.Path.{◌≡◌, refl, ap, ◌∙◌}
use mathlib.Core.Logic.{inl, inr}
use mathlib.Core.Bool.{true, false}
use mathlib.Core.List.{List, [], ◌∷◌, ◌++◌}
use native.Mathlib.Omega.{arith}
use telegram_auto.Prelude.Tests.{leb, if◌then◌else◌, nat_eq, Bool-cases}
use telegram_auto.Prelude.Lists.{length, All}

module _ {ℓ} {A : Type ℓ} (key : A → ℕ) where
  -- before the elements of an equal key: what is inserted stood further to the front
  unfoldable pub insert_by : A → List A → List A
  insert_by x [] = x ∷ []
  insert_by x (y ∷ ys) = if leb (key x) (key y) then x ∷ y ∷ ys else y ∷ insert_by x ys

  unfoldable pub sort_by : List A → List A
  sort_by [] = []
  sort_by (x ∷ xs) = insert_by x (sort_by xs)

  abbrev pub IsSorted : List A → Type 0
  IsSorted [] = Unit
  IsSorted (x ∷ xs) = All (λ y. key x ≤ key y) xs × IsSorted xs

  pub length-insert_by : (x : A) (xs : List A) → length (insert_by x xs) ≡ suc (length xs)
  unfolding insert_by
  length-insert_by x [] = refl
  length-insert_by x (y ∷ ys) = ground (arith, length-insert_by x ys)

  pub length-sort_by : (xs : List A) → length (sort_by xs) ≡ length xs
  unfolding sort_by
  length-sort_by [] = refl
  length-sort_by (x ∷ xs) = omega (arith, length-insert_by x (sort_by xs), length-sort_by xs)

  pub All-insert_by {κ} :
      (P : A → Type κ) (x : A) (xs : List A) → P x → All P xs → All P (insert_by x xs)
  unfolding insert_by
  All-insert_by P x [] p h = (p, h)
  All-insert_by P x (y ∷ ys) p h =
      elim (leb (key x) (key y)) as (λ b. All P (if b then x ∷ y ∷ ys else y ∷ insert_by x ys)) [
        | true ↦ (p, h)
        | false ↦ (h.0, All-insert_by P x ys p h.1)
      ]

  pub All-sort_by {κ} : (P : A → Type κ) (xs : List A) → All P xs → All P (sort_by xs)
  unfolding sort_by
  All-sort_by P [] h = h
  All-sort_by P (x ∷ xs) h = All-insert_by P x (sort_by xs) h.0 (All-sort_by P xs h.1)

module _ {ℓ} {A : Type ℓ} (key : A → ℕ) where
  All-le_trans : (a b : ℕ) (xs : List A) → a ≤ b → All (λ y. b ≤ key y) xs → All (λ y. a ≤ key y) xs
  All-le_trans a b [] h k = tt
  All-le_trans a b (x ∷ xs) h k = (omega arith, All-le_trans a b xs h k.1)

  insert_by-IsSorted : (x : A) (xs : List A) → IsSorted key xs → IsSorted key (insert_by key x xs)
  unfolding insert_by
  insert_by-IsSorted x [] s = (tt, tt)
  insert_by-IsSorted x (y ∷ ys) s = elim (Bool-cases (leb (key x) (key y))) [
    | inl le ↦
        let low : key x ≤ key y = ground arith in
        rw (le, insert_by) ((low, All-le_trans (key x) (key y) ys low s.0), s)
    | inr gt ↦
        let low : key y ≤ key x = ground arith in
        rw (gt, insert_by)
          (All-insert_by key (λ z. key y ≤ key z) x ys low s.0, insert_by-IsSorted x ys s.1)
  ]

  pub sort_by-IsSorted : (xs : List A) → IsSorted key (sort_by key xs)
  unfolding sort_by
  sort_by-IsSorted [] = tt
  sort_by-IsSorted (x ∷ xs) = insert_by-IsSorted x (sort_by key xs) (sort_by-IsSorted xs)

  All-of-insert_by {κ} :
      (P : A → Type κ) (x : A) (xs : List A) → All P (insert_by key x xs) → P x × All P xs
  unfolding insert_by
  All-of-insert_by P x [] h = h
  All-of-insert_by P x (y ∷ ys) h =
      (elim (leb (key x) (key y))
          as (λ b.
            All P (if b then x ∷ y ∷ ys else y ∷ insert_by key x ys) → P x × All P (y ∷ ys)) [
              | true ↦ λ k. (k.0, k.1)
              | false ↦ λ k. let r = All-of-insert_by P x ys k.1 in (r.0, (k.0, r.1))
            ])
        h

  -- What holds of all elements of the sorted list holds of all elements.
  pub All-of-sort_by {κ} : (P : A → Type κ) (xs : List A) → All P (sort_by key xs) → All P xs
  unfolding sort_by
  All-of-sort_by P [] h = h
  All-of-sort_by P (x ∷ xs) h =
      let r = All-of-insert_by P x (sort_by key xs) h in (r.0, All-of-sort_by P xs r.1)

  insert_by-append_max :
      (x m : A) (xs : List A)
      → key x ≤ key m
      → insert_by key x (xs ++ m ∷ []) ≡ insert_by key x xs ++ m ∷ []
  unfolding insert_by
  insert_by-append_max x m [] h = ground arith
  insert_by-append_max x m (y ∷ ys) h = ground (arith, insert_by-append_max x m ys h)

  -- An element that is added last and is no smaller than the others stays last.
  pub sort_by-append_max :
      (m : A) (xs : List A)
      → All (λ x. key x ≤ key m) xs
      → sort_by key (xs ++ m ∷ []) ≡ sort_by key xs ++ m ∷ []
  unfolding sort_by insert_by
  sort_by-append_max m [] h = refl
  sort_by-append_max m (x ∷ xs) h =
      ap (insert_by key x) (sort_by-append_max m xs h.1)
      ∙ insert_by-append_max x m (sort_by key xs) h.0
