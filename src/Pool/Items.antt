-- ===== src/Pool/Items.antt =====
-- What is added to an item of the pool, what keeps its status, and what is counted.
use telegram_auto.Prelude.{
  ℕ, suc, ◌+◌, ◌≤◌, ◌≡◌, refl, false, Option, none, some, List, [], ◌∷◌, ◌++◌, Text, arith, ◌==◌,
  text_eq, if◌then◌else◌, Option-cases, length, length-last_n-le, last_n-append,
}
use telegram_auto.Prelude.Dict
use telegram_auto.Prelude.Dict.{lookup-insert}
use telegram_auto.Pool.{
  Status, raw, inspected_ok, rejected, approved, same_status, Source, Item, Items, fresh_item,
  add_source, item_or, upsert_raw, values, has_status, count_status, counts,
}

-- the status of a group that the pool may not know
pub status_of : (Text → Text) → Text → Items → Option Status
status_of link_key norm items = elim (Dict.lookup (link_key norm) items) [
  | none ↦ none
  | some i ↦ some i.status
]

-- A group that is collected keeps the status it has, and is raw where it is new; the status is the
-- one returned, and no group with another key changes.
pub status_of-upsert_raw :
    (link_key : Text → Text) (norm other : Text) (s : Source) (now : ℕ) (items : Items)
    → (status_of link_key norm (upsert_raw link_key norm s now items).1
        ≡ some (upsert_raw link_key norm s now items).0.0)
      × ((status : Status)
          → status_of link_key norm items ≡ some status
          → (upsert_raw link_key norm s now items).0.0 ≡ status)
      × (status_of link_key norm items ≡ none → (upsert_raw link_key norm s now items).0.0 ≡ raw)
      × ((link_key other == link_key norm) ≡ false
          → status_of link_key other (upsert_raw link_key norm s now items).1
            ≡ status_of link_key other items)
unfolding upsert_raw status_of add_source item_or fresh_item
status_of-upsert_raw link_key norm other s now items =
    let key = link_key norm in
    let item = add_source s now (item_or (Dict.lookup key items) (fresh_item key norm raw now)) in
    let here = lookup-insert key key item items in
    let there = lookup-insert (link_key other) key item items in
    (
      ground (arith, here),
      λ status h. ground (arith, Option-cases (Dict.lookup key items)),
      λ h. ground (arith, Option-cases (Dict.lookup key items)),
      λ n. ground (arith, there),
    )

-- Among the sources of a collected group, of which twenty are kept, the newest stands last.
pub sources-upsert_raw :
    (link_key : Text → Text) (norm : Text) (s : Source) (now : ℕ) (items : Items)
    → (i : Item) × (Dict.lookup (link_key norm) (upsert_raw link_key norm s now items).1 ≡ some i)
      × (length i.sources ≤ 20)
      × ((older : List Source) × (i.sources ≡ older ++ s ∷ []))
unfolding upsert_raw add_source
sources-upsert_raw link_key norm s now items =
    let key = link_key norm in
    let old = item_or (Dict.lookup key items) (fresh_item key norm raw now) in
    let item = add_source s now old in
    (
      item,
      ground (arith, lookup-insert key key item items),
      length-last_n-le 20 (old.sources ++ s ∷ []),
      last_n-append 19 old.sources s,
    )

one_of_four :
    (s : Status) (a b c d : ℕ)
    → (if same_status s raw then suc a else a)
        + (if same_status s inspected_ok then suc b else b)
        + (if same_status s rejected then suc c else c)
        + (if same_status s approved then suc d else d)
      ≡ suc (a + b + c + d)
unfolding same_status
one_of_four raw a b c d = omega arith
one_of_four inspected_ok a b c d = omega arith
one_of_four rejected a b c d = omega arith
one_of_four approved a b c d = omega arith

total_lem :
    (is : List Item)
    → count_status raw is
        + count_status inspected_ok is
        + count_status rejected is
        + count_status approved is
      ≡ length is
unfolding count_status has_status
total_lem [] = refl
total_lem (i ∷ is) = omega (
  arith,
  total_lem is,
  one_of_four i.status (count_status raw is) (count_status inspected_ok is)
      (count_status rejected is) (count_status approved is),
)

-- The four counts add up to the total.
pub total-counts :
    (items : Items)
    → (counts items).n_raw
        + (counts items).n_inspected_ok
        + (counts items).n_rejected
        + (counts items).n_approved
      ≡ (counts items).total
unfolding counts
total-counts items = total_lem (values items)
