-- ===== src/Pool.antt =====
-- modules/group_pool/pool.py: the pool of groups that collectors find, inspectors judge and the
-- promo sender takes over. `link_key`, which ends in SHA-1, is an argument, and a reference is given
-- in the form of `normalize_group_ref`. `utc_now` gives whole seconds, read here as numbers. Of an
-- item's sources, the channel, the message and the account are kept.
pub mod Items
pub mod Order
use telegram_auto.Prelude.{
  ℕ, zero, suc, ◌+◌, max, Bool, true, false, not, ◌&&◌, Option, none, some, List, [], ◌∷◌, ◌++◌,
  Text, Eq, ltb, leb, ◌==◌, bool_eq, text_eq, if◌then◌else◌, length, filter, take, find?, last_n,
  contains, nat_eq,
}
use telegram_auto.Prelude.Dict
use telegram_auto.Prelude.Dict.{Dict}

-- `STATUSES`
pub data Status : Type 0 where
  raw : Status
  inspected_ok : Status
  rejected : Status
  approved : Status

unfoldable pub same_status : Status → Status → Bool
same_status raw raw = true
same_status inspected_ok inspected_ok = true
same_status rejected rejected = true
same_status approved approved = true
same_status _ _ = false

pub record Source : Type 0 where
  pub channel : Text
  pub message_id : Option ℕ
  pub collected_at : ℕ
  pub account : Text

pub record Item : Type 0 where
  pub key : Text
  pub ref : Text
  pub status : Status
  pub sources : List Source
  pub created_at : ℕ
  pub updated_at : ℕ
  pub title : Option Text
  pub note : Option Text

abbrev pub Items : Type 0
Items = Dict Text Item

unfoldable pub fresh_item : Text → Text → Status → ℕ → Item
fresh_item key norm status now = record {
  key = key;
  ref = norm;
  status = status;
  sources = [];
  created_at = now;
  updated_at = now;
  title = none;
  note = none;
}

-- what `upsert_raw` does to the item, new or found
unfoldable pub add_source : Source → ℕ → Item → Item
add_source s now i = record i { sources = last_n 20 (i.sources ++ s ∷ []); updated_at = now }

unfoldable pub item_or : Option Item → Item → Item
item_or none i = i
item_or (some j) i = j

-- `upsert_raw` without `extra`: the status of the item, whether it is new, and the new items. A
-- status is one of the four, so the reset of a status that is none of the judged ones is none.
unfoldable pub upsert_raw : (Text → Text) → Text → Source → ℕ → Items → (Status × Bool) × Items
unfolding fresh_item add_source item_or
upsert_raw link_key norm s now items =
    let key = link_key norm in
    let found = Dict.lookup key items in
    let item = add_source s now (item_or found (fresh_item key norm raw now)) in
    ((item.status, not (Dict.has_key key items)), Dict.insert key item items)

-- `if title:`, `if note:`
unfoldable pub replaced_by : Option Text → Option Text → Option Text
replaced_by old none = old
replaced_by old (some []) = old
replaced_by old (some (c ∷ t)) = some (c ∷ t)

-- `set_status` without `inspect`
unfoldable pub set_status :
    (Text → Text) → Text → Status → Option Text → Option Text → ℕ → Items → Items
unfolding fresh_item item_or replaced_by
set_status link_key norm status title note now items =
    let key = link_key norm in
    let item = item_or (Dict.lookup key items) (fresh_item key norm status now) in
    Dict.insert key
      (record item {
        ref = norm;
        status = status;
        updated_at = now;
        title = replaced_by item.title title;
        note = replaced_by item.note note;
      })
      items

unfoldable pub values : Items → List Item
values [] = []
values ((_, i) ∷ items) = i ∷ values items

-- Items of the same age keep their order, as in `sort` with `reverse=True`.
unfoldable pub insert_newest : Item → List Item → List Item
insert_newest i [] = i ∷ []
insert_newest i (j ∷ js) =
    let rest = insert_newest i js in if leb j.updated_at i.updated_at then i ∷ j ∷ js else j ∷ rest

unfoldable pub newest_first : List Item → List Item
unfolding insert_newest
newest_first [] = []
newest_first (i ∷ is) = insert_newest i (newest_first is)

unfoldable pub has_status : Status → Item → Bool
unfolding same_status
has_status status i = same_status i.status status

-- `list_by_status`
unfoldable pub list_by_status : Option Status → ℕ → Items → List Item
unfolding has_status newest_first values
list_by_status none limit items = take (max 1 limit) (newest_first (values items))
list_by_status (some status) limit items =
    take (max 1 limit) (newest_first (filter (has_status status) (values items)))

unfoldable pub count_status : Status → List Item → ℕ
unfolding has_status
count_status status [] = 0
count_status status (i ∷ is) =
    let n = count_status status is in if has_status status i then suc n else n

pub record Counts : Type 0 where
  pub n_raw : ℕ
  pub n_inspected_ok : ℕ
  pub n_rejected : ℕ
  pub n_approved : ℕ
  pub total : ℕ

unfoldable pub counts : Items → Counts
unfolding count_status values
counts items = record {
  n_raw = count_status raw (values items);
  n_inspected_ok = count_status inspected_ok (values items);
  n_rejected = count_status rejected (values items);
  n_approved = count_status approved (values items);
  total = length (values items);
}

-- `next_raw`, where `skip` are the keys to leave out
unfoldable pub next_raw : List Text → Items → Option Item
unfolding list_by_status
next_raw skip items = find? (λ i. not (contains skip i.key)) (list_by_status (some raw) 500 items)
