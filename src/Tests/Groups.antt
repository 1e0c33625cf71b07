-- ===== src/Tests/Groups.antt =====
-- The pool's model on a small file, and the routes.
use telegram_auto.Prelude.{
  ◌≡◌, refl, true, false, not, ◌||◌, none, some, [], ◌∷◌, Text, codes, text_eq, All, contains, leb,
  filter, find?,
}
use telegram_auto.Promo.Routes.{Route}
use telegram_auto.Prelude.Dict
use telegram_auto.Pool.{
  raw, Source, Item, Items, upsert_raw, has_status, list_by_status, next_raw, newest_first,
  insert_newest, values, same_status, fresh_item, add_source, item_or,
}
use telegram_auto.Pool.Order.{count_newer, next_raw_lem, next_raw-none}

-- in place of the shortened SHA-1
abbrev key_of : Text → Text
key_of t = t

abbrev source : Source
source = record {
  channel = codes "@news";
  message_id = some 5;
  collected_at = 100;
  account = codes "collector";
}

abbrev pool : Items
pool = (upsert_raw key_of (codes "@g1") source 100 []).1

program : Unit {0}
unfolding next_raw list_by_status newest_first insert_newest values filter find? contains text_eq
    has_status same_status upsert_raw fresh_item add_source item_or Dict.insert Dict.lookup
program = tt

next_found : (i : Item) × (next_raw (codes "@g2" ∷ []) pool ≡ some i)
unfolding program
next_found = (_, refl)

next_raw_lem_example :
    (has_status raw next_found.0 ≡ true)
    × (contains (codes "@g2" ∷ []) next_found.0.key ≡ false)
    × All
        (λ j.
          (not (has_status raw j)
            || (contains (codes "@g2" ∷ []) j.key || leb j.updated_at next_found.0.updated_at)
            || leb 500 (count_newer raw j (values pool)))
          ≡ true)
        (values pool)
next_raw_lem_example = next_raw_lem (codes "@g2" ∷ []) pool next_found.0 next_found.1

nothing_next : next_raw (codes "@g1" ∷ []) pool ≡ none
unfolding program
nothing_next = refl

next_raw-none_example :
    All
      (λ j.
        (not (has_status raw j)
          || contains (codes "@g1" ∷ []) j.key
          || leb 500 (count_newer raw j (values pool)))
        ≡ true)
      (values pool)
next_raw-none_example = next_raw-none (codes "@g1" ∷ []) pool nothing_next

abbrev route : Route
route = record {
  source = codes "@ads";
  groups = codes "@g1" ∷ [];
  enabled = true;
  paused = false;
  mode = codes "copy";
}
