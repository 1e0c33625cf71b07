-- ===== src/Forward/State.antt =====
-- modules/channel_forward/state.py: the last message seen on each route, and which message of the
-- destination stands for which of the source. The state is forward_state.json, which every method
-- loads anew; a mapping's key is the decimal text of the source's id, read here as the number.
use telegram_auto.Prelude.{
  ℕ, ◌≤◌, max, ◌≡◌, refl, ◌≢◌, ap, ◌∙◌, Bool, true, Option, none, some, [], ◌∷◌, Text, arith, ltb,
  ◌==◌, nat_eq, text_eq, if◌then◌else◌, inl, inr, Bool-cases, length, All,
}
use telegram_auto.Prelude.Dict
use telegram_auto.Prelude.Dict.{Dict, keys, lookup-insert, lookup-erase}
use telegram_auto.Prelude.Numbers.{Nodup}
use telegram_auto.Prelude.Recent.{
  keep_last, lookup-keep_last, length-keep_last, insert-Nodup, insert-newest,
}

pub record StateFile : Type 0 where
  pub last_seen : Dict Text ℕ
  pub mappings : Dict Text (Dict ℕ ℕ)

unfoldable pub get_last_seen : StateFile → Text → Option ℕ
get_last_seen f route = Dict.lookup route f.last_seen

-- `prev is None or int(message_id) > int(prev)`
unfoldable pub is_newer : ℕ → Option ℕ → Bool
is_newer id none = true
is_newer id (some prev) = ltb prev id

unfoldable pub set_last_seen : StateFile → Text → ℕ → StateFile
unfolding is_newer
set_last_seen f route id =
    if is_newer id (Dict.lookup route f.last_seen)
    then record f { last_seen = Dict.insert route id f.last_seen }
    else f

-- `(self._data.get("mappings") or {}).get(route_key) or {}`
unfoldable pub bucket : StateFile → Text → Dict ℕ ℕ
bucket f route = elim (Dict.lookup route f.mappings) [ none ↦ [] | some d ↦ d ]

-- `if len(bucket) > 500`: the keys in front of the last 500 are dropped.
unfoldable pub cap_bucket : Dict ℕ ℕ → Dict ℕ ℕ
cap_bucket d = if ltb 500 (length d) then keep_last 500 d else d

unfoldable pub record_mapping : StateFile → Text → ℕ → ℕ → StateFile
unfolding cap_bucket bucket
record_mapping f route source dest = record f {
  mappings = Dict.insert route (cap_bucket (Dict.insert source dest (bucket f route))) f.mappings;
}

unfoldable pub dest_for_source : StateFile → Text → ℕ → Option ℕ
unfolding bucket
dest_for_source f route source = Dict.lookup source (bucket f route)

unfoldable pub remove_from : StateFile → Text → ℕ → Dict ℕ ℕ → StateFile
remove_from f route source [] = f
remove_from f route source (e ∷ d) = record f {
  mappings = Dict.insert route (Dict.erase source (e ∷ d)) f.mappings;
}

unfoldable pub remove_mapping : StateFile → Text → ℕ → StateFile
unfolding remove_from bucket
remove_mapping f route source = remove_from f route source (bucket f route)

-- the greater of an id and what was seen before
abbrev pub latest : ℕ → Option ℕ → ℕ
latest id none = id
latest id (some prev) = max id prev

latest-set_last_seen :
    (prev : Option ℕ) (f : StateFile) (route : Text) (id : ℕ)
    → Dict.lookup route f.last_seen ≡ prev
    → get_last_seen (set_last_seen f route id) route ≡ some (latest id prev)
unfolding get_last_seen set_last_seen
latest-set_last_seen none f route id e = ground (arith, lookup-insert route route id f.last_seen)
latest-set_last_seen (some p) f route id e =
    ground (arith, lookup-insert route route id f.last_seen)

-- The last id seen on a route is the greatest that was reported, in whatever order reports come, and
-- a report on one route leaves the others alone.
pub get_last_seen-set_last_seen :
    (f : StateFile) (route other : Text) (id : ℕ)
    → (get_last_seen (set_last_seen f route id) route ≡ some (latest id (get_last_seen f route)))
      × (other ≢ route → get_last_seen (set_last_seen f route id) other ≡ get_last_seen f other)
unfolding get_last_seen set_last_seen
get_last_seen-set_last_seen f route other id = (
  latest-set_last_seen (Dict.lookup route f.last_seen) f route id refl,
  λ ne. ground (arith, lookup-insert other route id f.last_seen),
)

cap_bucket_keeps :
    (d : Dict ℕ ℕ) (source dest : ℕ)
    → Nodup (keys d)
    → All (λ k. k ≤ source) (keys d)
    → Dict.lookup source (cap_bucket (Dict.insert source dest d)) ≡ some dest
unfolding cap_bucket
cap_bucket_keeps d source dest u newest =
    let d' = Dict.insert source dest d in
    let found : Dict.lookup source d' ≡ some dest =
      ground (arith, lookup-insert source source dest d) in
    elim (Bool-cases (ltb 500 (length d'))) [
      | inl long ↦ rw long (
          lookup-keep_last 500 source d' dest (omega arith) (insert-Nodup source dest d u)
            (insert-newest source dest d newest) found)
      | inr short ↦ rw short found
    ]

bucket-record_mapping :
    (f : StateFile) (route : Text) (source dest : ℕ)
    → bucket (record_mapping f route source dest) route
      ≡ cap_bucket (Dict.insert source dest (bucket f route))
unfolding record_mapping
bucket-record_mapping f route source dest =
    let d = cap_bucket (Dict.insert source dest (bucket f route)) in
    rw (lookup-insert route route d f.mappings, bucket) (ground arith)

length-cap_bucket : (d : Dict ℕ ℕ) → Nodup (keys d) → length (cap_bucket d) ≤ 500
unfolding cap_bucket
length-cap_bucket d u = elim (Bool-cases (ltb 500 (length d))) [
  | inl long ↦ rw long (length-keep_last 500 d u)
  | inr short ↦ rw short (ground arith)
]

-- The mapping of a message is found again when it was recorded, if its id is no smaller than those
-- recorded before; a route keeps at most 500 mappings.
pub dest_for_source-record_mapping :
    (f : StateFile) (route : Text) (source dest : ℕ)
    → Nodup (keys (bucket f route))
    → All (λ k. k ≤ source) (keys (bucket f route))
    → (dest_for_source (record_mapping f route source dest) route source ≡ some dest)
      × (length (bucket (record_mapping f route source dest) route) ≤ 500)
unfolding dest_for_source
dest_for_source-record_mapping f route source dest u newest = (
  ap (Dict.lookup source) (bucket-record_mapping f route source dest)
      ∙ cap_bucket_keeps (bucket f route) source dest u newest,
  rw (bucket-record_mapping f route source dest) (
      length-cap_bucket (Dict.insert source dest (bucket f route))
        (insert-Nodup source dest (bucket f route) u)),
)

lookup-remove_from :
    (f : StateFile) (route : Text) (source other : ℕ) (d : Dict ℕ ℕ)
    → bucket f route ≡ d
    → Dict.lookup other (bucket (remove_from f route source d) route)
      ≡ (if other == source then none else Dict.lookup other d)
unfolding remove_from Dict.lookup bucket
lookup-remove_from f route source other [] e = rw e (ground arith)
lookup-remove_from f route source other (x ∷ d) e =
    let d' = Dict.erase source (x ∷ d) in
    rw (lookup-insert route route d' f.mappings, bucket)
      (ground (arith, lookup-erase other source (x ∷ d)))

-- After `remove_mapping` the message has no counterpart, and every other one of the route keeps its
-- own.
pub dest_for_source-remove_mapping :
    (f : StateFile) (route : Text) (source other : ℕ)
    → dest_for_source (remove_mapping f route source) route other
      ≡ (if other == source then none else dest_for_source f route other)
unfolding dest_for_source remove_mapping
dest_for_source-remove_mapping f route source other =
    lookup-remove_from f route source other (bucket f route) refl
