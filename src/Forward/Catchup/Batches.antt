-- ===== src/Forward/Catchup/Batches.antt =====
-- How the history's messages become the batches of the catch-up, and the batches come to the engine
-- (modules/channel_forward/catchup.py).
use telegram_auto.Prelude.{
  ℕ, suc, ◌≡◌, refl, map, Bool, false, not, ◌&&◌, ◌||◌, List, [], ◌∷◌, ◌==◌, nat_eq, filter, any,
  All, arith,
}
use telegram_auto.Prelude.Dict
use telegram_auto.Prelude.Dict.{Dict}
use telegram_auto.Prelude.Sort.{insert_by, sort_by}
use telegram_auto.Forward.Catchup.{Post, post_id, index_by_id, values_of}
use telegram_auto.Forward.Filters.{TextTools}
use telegram_auto.Forward.Delivery.{Engine, Route, Call, process_messages}

any-insert_by :
    (t : Post → Bool) (x : Post) (xs : List Post)
    → any t (insert_by post_id x xs) ≡ (t x || any t xs)
unfolding insert_by any
any-insert_by t x [] = refl
any-insert_by t x (y ∷ ys) = ground (arith, any-insert_by t x ys)

pub any-sort_by : (t : Post → Bool) (xs : List Post) → any t (sort_by post_id xs) ≡ any t xs
unfolding sort_by any
any-sort_by t [] = refl
any-sort_by t (x ∷ xs) = ground (arith, any-insert_by t x (sort_by post_id xs), any-sort_by t xs)

-- whether a message of the id is among them
abbrev pub has_id : ℕ → List Post → Bool
has_id k ms = any (λ m. post_id m == k) ms

module _ (k : ℕ) where
  abbrev is_post : Post → Bool
  is_post m = not m.is_action && post_id m == k

  abbrev Keyed : Dict ℕ Post → Type 0
  Keyed d = All (λ e. post_id e.1 ≡ e.0) d

  insert-Keyed : (m : Post) (d : Dict ℕ Post) → Keyed d → Keyed (Dict.insert (post_id m) m d)
  unfolding Dict.insert
  insert-Keyed m [] h = (refl, tt)
  insert-Keyed m ((j, x) ∷ d) h = ground (arith, h.0, h.1, insert-Keyed m d h.1)

  pub index_by_id-Keyed : (ms : List Post) (d : Dict ℕ Post) → Keyed d → Keyed (index_by_id ms d)
  unfolding index_by_id
  index_by_id-Keyed [] d h = h
  index_by_id-Keyed (m ∷ ms) d h =
      index_by_id-Keyed ms (Dict.insert (post_id m) m d) (insert-Keyed m d h)

  pub has_key-index_by_id :
      (ms : List Post) (d : Dict ℕ Post)
      → Dict.has_key k (index_by_id ms d) ≡ (Dict.has_key k d || has_id k ms)
  unfolding index_by_id any
  has_key-index_by_id [] d = ground arith
  has_key-index_by_id (m ∷ ms) d = ground (
    arith,
    has_key-index_by_id ms (Dict.insert (post_id m) m d),
    Dict.has_key-insert k (post_id m) m d,
  )

  pub has_id-values_of : (d : Dict ℕ Post) → Keyed d → has_id k (values_of d) ≡ Dict.has_key k d
  unfolding any Dict.has_key
  has_id-values_of [] h = refl
  has_id-values_of ((j, m) ∷ d) h = ground (arith, h.0, has_id-values_of d h.1)

  pub has_id-filter :
      (t : Post → Bool) (ms : List Post)
      → has_id k (filter t ms) ≡ any (λ m. t m && post_id m == k) ms
  unfolding any filter
  has_id-filter t [] = refl
  has_id-filter t (m ∷ ms) = ground (arith, has_id-filter t ms)

-- the engine after batches that it was given one after the other, whatever it answered
abbrev pub hand_all : TextTools → Route → (ℕ → Call) → ℕ → List (List Post) → Engine → Engine
hand_all t r call n [] e = e
hand_all t r call n (b ∷ batches) e =
    let c = record (call n) { route = r; from_queue = false } in
    hand_all t r call (suc n) batches (process_messages t c (map (λ m. m.message) b) e).1
