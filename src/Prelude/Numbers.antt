-- ===== src/Prelude/Numbers.antt =====
-- `sorted(xs)` for numbers without repetition: what is cut off the sorted list.
use Prim.Native.Nat.{ℕ, zero, suc, ◌+◌, ◌≤◌, ◌<◌}
use mathlib.Core.Path.{◌≡◌, refl, ap, ◌∙◌}
use mathlib.Core.Logic.{inl, inr}
use mathlib.Core.Bool.{true, false}
use mathlib.Core.List.{List, [], ◌∷◌, ◌++◌}
use native.Mathlib.Omega.{arith}
use telegram_auto.Prelude.Tests.{if◌then◌else◌, ◌==◌, nat_eq, Bool-cases}
use telegram_auto.Prelude.Lists.{length, All, take, contains, length-append}
use telegram_auto.Prelude.Sort.{insert_by, sort_by, length-sort_by, All-insert_by, All-sort_by}

-- `sorted(xs)` for numbers
unfoldable pub sort : List ℕ → List ℕ
unfolding sort_by insert_by
sort = sort_by (λ x. x)

-- No number is listed twice.
abbrev pub Nodup : List ℕ → Type 0
Nodup [] = Unit
Nodup (x ∷ xs) = (contains xs x ≡ false) × Nodup xs

abbrev insert : ℕ → List ℕ → List ℕ
insert = insert_by (λ x. x)

insert_max : (k : ℕ) (s : List ℕ) → All (λ y. y < k) s → insert k s ≡ s ++ k ∷ []
unfolding insert_by
insert_max k [] h = refl
insert_max k (x ∷ s) h = ground (arith, insert_max k s h.1)

insert_below : (x k : ℕ) (s : List ℕ) → x ≤ k → insert x (s ++ k ∷ []) ≡ insert x s ++ k ∷ []
unfolding insert_by
insert_below x k [] h = ground arith
insert_below x k (y ∷ s) h = ground (arith, insert_below x k s h)

All-lt_of_le :
    (k : ℕ) (xs : List ℕ) → All (λ y. y ≤ k) xs → contains xs k ≡ false → All (λ y. y < k) xs
unfolding contains
All-lt_of_le k [] h c = tt
All-lt_of_le k (x ∷ xs) h c = (ground arith, All-lt_of_le k xs h.1 (ground arith))

not-contains_of_lt : (k : ℕ) (xs : List ℕ) → All (λ y. y < k) xs → contains xs k ≡ false
unfolding contains
not-contains_of_lt k [] h = refl
not-contains_of_lt k (x ∷ xs) h = ground (arith, not-contains_of_lt k xs h.1)

All-take {ℓ κ} : {A : Type ℓ} (P : A → Type κ) (n : ℕ) (xs : List A) → All P xs → All P (take n xs)
All-take P zero xs h = tt
All-take P (suc n) [] h = tt
All-take P (suc n) (x ∷ xs) h = (h.0, All-take P n xs h.1)

take-append-le {ℓ} :
    {A : Type ℓ} (n : ℕ) (xs ys : List A) → n ≤ length xs → take n (xs ++ ys) ≡ take n xs
take-append-le zero xs ys h = refl
take-append-le (suc n) [] ys h = absurd (omega arith)
take-append-le (suc n) (x ∷ xs) ys h = ap (◌∷◌ x) (take-append-le n xs ys (omega arith))

-- The greatest number of a list stands last in its sorted form.
sort-max :
    (k : ℕ) (xs : List ℕ)
    → contains xs k ≡ true
    → All (λ y. y ≤ k) xs
    → Nodup xs
    → (s : List ℕ) × (sort xs ≡ s ++ k ∷ []) × All (λ y. y < k) s
unfolding sort contains
sort-max k [] c h u = cc
sort-max k (x ∷ xs) c h u = elim (Bool-cases (contains xs k)) [
  | inl later ↦
      let (s, e, b) = sort-max k xs later h.1 u.1 in
      let below : x < k = ground arith in
      (insert x s, rw e (insert_below x k s h.0), All-insert_by (λ y. y) (λ y. y < k) x s below b)
  | inr gone ↦
      let same : k ≡ x = ground arith in
      let b = All-sort_by (λ y. y) (λ y. y < k) xs (All-lt_of_le k xs h.1 gone) in
      (sort xs, rw (← same) (insert_max k (sort xs) b), b)
]

-- Dropping the greatest elements of a sorted list leaves its maximum out of what is left.
pub take-sort_max :
    (m k : ℕ) (xs : List ℕ)
    → m < length xs
    → contains xs k ≡ true
    → All (λ y. y ≤ k) xs
    → Nodup xs
    → contains (take m (sort xs)) k ≡ false
unfolding sort
take-sort_max m k xs small c h u =
    let (s, e, b) = sort-max k xs c h u in
    let len : length s + 1 ≡ length xs =
      omega (arith, length-sort_by (λ x. x) xs, ap length e, length-append s (k ∷ [])) in
    rw (e, take-append-le m s (k ∷ []) (omega arith))
      (not-contains_of_lt k (take m s) (All-take (λ y. y < k) m s b))

contains-insert_by :
    (k x : ℕ) (xs : List ℕ) → contains (insert x xs) k ≡ (if k == x then true else contains xs k)
unfolding insert_by contains
contains-insert_by k x [] = ground arith
contains-insert_by k x (y ∷ ys) = ground (arith, contains-insert_by k x ys)

pub contains-sort : (k : ℕ) (xs : List ℕ) → contains (sort xs) k ≡ contains xs k
unfolding sort contains
contains-sort k [] = refl
contains-sort k (x ∷ xs) = ground (arith, contains-insert_by k x (sort xs), contains-sort k xs)

insert_by-Nodup : (x : ℕ) (xs : List ℕ) → contains xs x ≡ false → Nodup xs → Nodup (insert x xs)
unfolding insert_by contains
insert_by-Nodup x [] h u = (refl, tt)
insert_by-Nodup x (y ∷ ys) h u = ground (arith, insert_by-Nodup x ys, contains-insert_by y x ys, u)

pub sort-Nodup : (xs : List ℕ) → Nodup xs → Nodup (sort xs)
unfolding sort
sort-Nodup [] u = tt
sort-Nodup (x ∷ xs) u = insert_by-Nodup x (sort xs) (contains-sort x xs ∙ u.0) (sort-Nodup xs u.1)

pub contains-take : (k n : ℕ) (xs : List ℕ) → contains (take n xs) k ≡ true → contains xs k ≡ true
unfolding contains
contains-take k zero xs h = cc
contains-take k (suc n) [] h = h
contains-take k (suc n) (x ∷ xs) h = ground (arith, contains-take k n xs)

pub take-Nodup : (n : ℕ) (xs : List ℕ) → Nodup xs → Nodup (take n xs)
take-Nodup zero xs u = tt
take-Nodup (suc n) [] u = tt
take-Nodup (suc n) (x ∷ xs) u = (ground (arith, contains-take x n xs, u.0), take-Nodup n xs u.1)

pub length-take-le : (n : ℕ) (xs : List ℕ) → n ≤ length xs → length (take n xs) ≡ n
length-take-le zero xs h = refl
length-take-le (suc n) [] h = absurd (omega arith)
length-take-le (suc n) (x ∷ xs) h = ap suc (length-take-le n xs (omega arith))

pub length-sort : (xs : List ℕ) → length (sort xs) ≡ length xs
unfolding sort
length-sort xs = length-sort_by (λ x. x) xs
