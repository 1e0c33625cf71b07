-- ===== src/Promo/Queue/Order.antt =====
-- `pop_next` and `defer`: the order of the jobs (modules/promo_spread/queue.py).
use telegram_auto.Prelude.{
  ℕ, ◌≤◌, ◌<◌, ◌≡◌, refl, ◌≢◌, ◌∙◌, Bool, true, false, not, ◌&&◌, none, some, List, [], ◌∷◌, Text,
  arith, ltb, ltb→lt, ◌==◌, nat_eq, text_eq, inl, inr, Bool-cases, length, filter, any,
  update_first, All,
}
use mathlib.Core.Option.{some-injective}
use mathlib.Core.Path.{subst}
use telegram_auto.Prelude.Filters.{
  count, All-of_count-zero, any-update_first, All-filter, filter-All,
}
use telegram_auto.Prelude.Sort.{
  sort_by, IsSorted, sort_by-IsSorted, All-sort_by, All-of-sort_by, length-sort_by,
}
use telegram_auto.Promo.Queue.{
  Item, QueueFile, is_pending, list_pending, first, pop_next, set_deferred, defer,
}

-- The head of a sorted list of items carries what all items carry, and is the oldest.
first-sorted {κ} :
    (P : Item → Type κ) (items : List Item) (i : Item)
    → first (sort_by (λ j. j.created_at) items) ≡ some i
    → All P items
    → P i × All (λ j. i.created_at ≤ j.created_at) items
unfolding first
first-sorted P items i e h =
    oldest (sort_by (λ j. j.created_at) items) e (All-sort_by (λ j. j.created_at) P items h)
      (sort_by-IsSorted (λ j. j.created_at) items)
      (λ k. All-of-sort_by (λ j. j.created_at) (λ j. i.created_at ≤ j.created_at) items k)
  where
    oldest :
        (sorted : List Item)
        → first sorted ≡ some i
        → All P sorted
        → IsSorted (λ j. j.created_at) sorted
        → (All (λ j. i.created_at ≤ j.created_at) sorted
            → All (λ j. i.created_at ≤ j.created_at) items)
        → P i × All (λ j. i.created_at ≤ j.created_at) items
    oldest [] e h s back = cc
    oldest (j ∷ js) e h s back =
        let same : j ≡ i = some-injective j i e in
        (
          subst P same h.0,
          back (
              subst (λ k. All (λ l. k.created_at ≤ l.created_at) (j ∷ js)) same (omega arith, s.0)),
        )

first-none : (items : List Item) → first (sort_by (λ j. j.created_at) items) ≡ none → items ≡ []
unfolding first
first-none [] e = refl
first-none (x ∷ xs) e = absurd (
    omega (
      arith,
      length_of_first (sort_by (λ j. j.created_at) (x ∷ xs)) e,
      length-sort_by (λ (j : Item). j.created_at) (x ∷ xs),
    ))
  where
    length_of_first : (s : List Item) → first s ≡ none → length s ≡ 0
    length_of_first [] e = refl
    length_of_first (j ∷ js) e = cc

-- `pop_next` gives a pending job that is no younger than any pending job, and gives none only where
-- nothing waits.
pub pop_next_lem :
    (q : QueueFile)
    → ((i : Item)
        → pop_next q ≡ some i
        → (is_pending i ≡ true) × All (λ j. i.created_at ≤ j.created_at) (list_pending q))
      × (pop_next q ≡ none → list_pending q ≡ [])
unfolding pop_next list_pending
pop_next_lem q = (
  λ i e.
      first-sorted (λ j. is_pending j ≡ true) (filter is_pending q.items) i e
        (All-filter is_pending q.items),
  first-none (filter is_pending q.items),
)

-- another job waits, and is older than a time
abbrev pub older_waits : Text → ℕ → QueueFile → Bool
older_waits id now q = any (λ j. is_pending j && (not (j.id == id) && ltb j.created_at now)) q.items

-- every job of an id has a time of creation no earlier than `now`
abbrev IsLate : Text → ℕ → Item → Type 0
IsLate id now i = i.id ≡ id → now ≤ i.created_at

IsLate-of_apart :
    (id : Text) (now : ℕ) (items : List Item)
    → All (λ j. (j.id == id) ≡ false) items
    → All (IsLate id now) items
IsLate-of_apart id now [] h = tt
IsLate-of_apart id now (j ∷ items) h =
    (λ e. absurd (ground arith), IsLate-of_apart id now items h.1)

defer-IsLate :
    (id reason : Text) (now : ℕ) (items : List Item)
    → count (λ i. i.id == id) items ≤ 1
    → All (IsLate id now) (update_first (λ i. i.id == id) (set_deferred reason now) items)
unfolding update_first set_deferred count
defer-IsLate id reason now [] u = tt
defer-IsLate id reason now (i ∷ items) u = elim (Bool-cases (i.id == id)) [
  | inl hit ↦ rw hit (
    λ _. omega arith,
    IsLate-of_apart id now items (All-of_count-zero (λ j. j.id == id) items (ground arith)),
  )
  | inr miss ↦ rw miss (λ e. absurd (ground arith), defer-IsLate id reason now items (ground arith))
]

older_is_later :
    (id : Text) (now c : ℕ) (items : List Item)
    → any (λ j. is_pending j && (not (j.id == id) && ltb j.created_at now)) items ≡ true
    → All (λ j. c ≤ j.created_at) (filter is_pending items)
    → c < now
unfolding any filter
older_is_later id now c [] h k = cc
older_is_later id now c (j ∷ items) h k = elim (Bool-cases (is_pending j)) [
  | inl waits ↦
      let k' : All (λ l. c ≤ l.created_at) (j ∷ filter is_pending items) = rw waits at k in
      elim (Bool-cases (ltb j.created_at now)) [
        | inl old ↦ omega (arith, ltb→lt j.created_at now old)
        | inr new ↦ older_is_later id now c items (ground arith) k'.1
      ]
  | inr settled ↦ older_is_later id now c items (ground arith) (rw settled at k)
]

-- While another job waits that is older than the deferral, a deferred job is not the next one.
pub pop_next-defer :
    (id reason : Text) (now : ℕ) (q : QueueFile) (i : Item)
    → count (λ j. j.id == id) q.items ≤ 1
    → older_waits id now q ≡ true
    → pop_next (defer id reason now q) ≡ some i
    → i.id ≢ id
unfolding pop_next list_pending defer set_deferred
pop_next-defer id reason now q i u older e =
    let items = update_first (λ j. j.id == id) (set_deferred reason now) q.items in
    let (late, oldest) =
      first-sorted (IsLate id now) (filter is_pending items) i e
        (filter-All (IsLate id now) is_pending items (defer-IsLate id reason now q.items u)) in
    let still =
      any-update_first (λ j. is_pending j && (not (j.id == id) && ltb j.created_at now))
        (λ j. j.id == id) (set_deferred reason now) q.items (λ j hit. ground arith) in
    let before = older_is_later id now i.created_at items (still ∙ older) oldest in
    λ same. absurd (omega (arith, late same, before))
