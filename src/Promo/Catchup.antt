-- ===== src/Promo/Catchup.antt =====
-- modules/promo_spread/catchup.py: the posts of a source that were missed. Instants are numbers, in
-- one time zone; ages are given in the unit of the instants.
pub mod Picked
use telegram_auto.Prelude.{
  ℕ, zero, suc, ◌+◌, min, Bool, true, false, not, ◌&&◌, ◌||◌, Option, none, some, List, [], ◌∷◌,
  ◌++◌, map, ltb, leb, ◌==◌, Eq, nat_eq, if◌then◌else◌, length, last_n,
}
use telegram_auto.Prelude.Dict
use telegram_auto.Prelude.Dict.{Dict}
use telegram_auto.Prelude.Sort.{sort_by}
use native.Mathlib.Decide.{ℕ_discrete}

-- A message; an id of 0 is none.
pub record Message : Type 0 where
  pub id : ℕ
  pub date : Option ℕ
  pub grouped_id : Option ℕ
  pub is_action : Bool

-- whether the key is that of an album, with its number
abbrev pub Key : Type 0
Key = Bool × ℕ

Bool-discrete : Discrete Bool
Bool-discrete = hlevel

Key-discrete : Discrete (Bool × ℕ)
Key-discrete = hlevel (Bool-discrete, ℕ_discrete)

instance unfoldable pub key_eq : Eq (Bool × ℕ)
unfolding Key-discrete Bool-discrete ℕ_discrete
key_eq = record { dec = Key-discrete }

abbrev key_of_group : ℕ → Option ℕ → Key
key_of_group id none = (false, id)
key_of_group id (some zero) = (false, id)
key_of_group id (some (suc n)) = (true, suc n)

unfoldable pub key_of : Message → Key
key_of m = key_of_group m.id m.grouped_id

-- what the loop keeps
unfoldable pub is_recent : ℕ → Message → Bool
is_recent cutoff m =
    not m.is_action && not (m.id == 0) && elim m.date [ none ↦ false | some at ↦ leb cutoff at ]

-- `posts.get(key, [])`
abbrev group_or_empty : Option (List Message) → List Message
group_or_empty none = []
group_or_empty (some ms) = ms

-- `posts.setdefault(key, []).append(msg)`
unfoldable pub add_post : Message → Dict Key (List Message) → Dict Key (List Message)
unfolding key_of
add_post m posts =
    Dict.insert (key_of m) (group_or_empty (Dict.lookup (key_of m) posts) ++ m ∷ []) posts

unfoldable pub collect_posts : ℕ → List Message → Dict Key (List Message) → Dict Key (List Message)
unfolding is_recent add_post
collect_posts cutoff [] posts = posts
collect_posts cutoff (m ∷ messages) posts =
    collect_posts cutoff messages (if is_recent cutoff m then add_post m posts else posts)

abbrev pub values_of : Dict Key (List Message) → List (List Message)
values_of [] = []
values_of ((k, ms) ∷ posts) = ms ∷ values_of posts

-- `min(int(m.id) for m in ms)`
unfoldable pub first_id : List Message → ℕ
first_id [] = 0
first_id (m ∷ []) = m.id
first_id (m ∷ n ∷ ms) = min m.id (first_id (n ∷ ms))

unfoldable pub select_catchup_posts : List Message → ℕ → ℕ → List (List Message)
unfolding collect_posts first_id
select_catchup_posts messages cutoff limit =
    if limit == 0
    then []
    else map (sort_by (λ m. m.id))
        (last_n limit (sort_by first_id (values_of (collect_posts cutoff messages []))))

-- the loop of `is_fresh_enough_to_enqueue`
unfoldable pub newest_date : List Message → Option ℕ → Option ℕ
newest_date [] newest = newest
newest_date (m ∷ messages) newest = newest_date messages (elim m.date [
  | none ↦ newest
  | some at ↦ elim newest [ none ↦ some at | some n ↦ some (if ltb n at then at else n) ]
])

unfoldable pub is_fresh_enough_to_enqueue : List Message → ℕ → ℕ → Bool
unfolding newest_date
is_fresh_enough_to_enqueue messages now max_age =
    if max_age == 0
    then false
    else elim (newest_date messages none) [ none ↦ false | some at ↦ leb now (at + max_age) ]
