-- ===== src/Tests/Missed.antt =====
-- An album and two single posts in the history of a source, one of them too old.
use telegram_auto.Prelude.{
  ℕ, ◌≤◌, ◌≡◌, refl, false, ◌&&◌, Option, none, some, List, [], ◌∷◌, ◌==◌, nat_eq, length, last_n,
  arith,
}
use telegram_auto.Prelude.Dict
use telegram_auto.Prelude.Filters.{count}
use telegram_auto.Prelude.Sort.{insert_by, sort_by}
use telegram_auto.Promo.Catchup.{
  Message, key_eq, key_of, is_recent, add_post, collect_posts, values_of, first_id,
  select_catchup_posts,
}
use telegram_auto.Promo.Catchup.Picked.{total, total-select_catchup_posts}

program : Unit {0}
unfolding Dict.lookup Dict.insert nat_eq key_eq key_of is_recent add_post collect_posts first_id
    select_catchup_posts sort_by insert_by last_n
program = tt

abbrev message : ℕ → ℕ → Option ℕ → Message
message id at album = record { id = id; date = some at; grouped_id = album; is_action = false }

abbrev history : List Message
history = message 9 50 none ∷ message 8 41 (some 5) ∷ message 7 40 (some 5) ∷ message 3 10 none ∷ []

picked :
    select_catchup_posts history 20 2
    ≡ (message 7 40 (some 5) ∷ message 8 41 (some 5) ∷ []) ∷ (message 9 50 none ∷ []) ∷ []
unfolding program
picked = refl

room : length (values_of (collect_posts 20 history [])) ≤ 2
unfolding program
room = omega arith

total-select_catchup_posts_example :
    total (λ m. m.id == 7) (select_catchup_posts history 20 2)
    ≡ count (λ m. is_recent 20 m && m.id == 7) history
total-select_catchup_posts_example =
    total-select_catchup_posts (λ m. m.id == 7) history 20 2 (omega arith) room
