-- ===== src/Forward/Quota/Isolation.antt =====
-- The effect of `_prune` and of an attempt on the other destinations
-- (modules/channel_forward/quota.py).
use telegram_auto.Prelude.{
  ◌⊎◌, ℕ, ◌+◌, ◌-◌, ◌<◌, ◌≡◌, refl, ◌≢◌, ap, ◌∙◌, sym, Bool, true, false, Option, none, some, [],
  ◌∷◌, arith, Text, leb, ◌==◌, nat_eq, text_eq, if◌then◌else◌, inl, inr, Bool-cases, Option-cases,
  length, take,
}
use mathlib.Core.Logic.{ite}
use telegram_auto.Prelude.Recent.{keep_last, lookup-keep_last, pop_keys-none}
use telegram_auto.Prelude.Dict
use telegram_auto.Prelude.Dict.{
  Dict, keys, NodupKeys, lookup-insert, lookup-erase, insert-NodupKeys,
}
use telegram_auto.Prelude.Numbers.{sort}
use telegram_auto.Forward.Quota.{
  Cell, num, Bucket, days, falsy, truthy, QuotaFile, ok, reload, cell_value, put_days, prune_dests,
  count_in, count, write_count, consume_in, try_consume,
}
use telegram_auto.Forward.Quota.Pruning.{IsCurrent, lookup-put_days_ne}

-- Pruning keeps the value of the newest day, also where the day has no entry.
value-keep_last :
    (keep day : ℕ) (d : Dict ℕ Cell)
    → 0 < keep
    → IsCurrent day (some (days d))
    → cell_value (Dict.lookup day (keep_last keep d)) ≡ cell_value (Dict.lookup day d)
unfolding keep_last
value-keep_last keep day d pos h = elim (Option-cases (Dict.lookup day d)) [
  | inl absent ↦
      ap cell_value
        (pop_keys-none day (take (length (keys d) - keep) (sort (keys d))) d absent ∙ sym absent)
  | inr (c, found) ↦ ap cell_value (lookup-keep_last keep day d c pos h.0 h.1 found ∙ sym found)
]

prune_dests-none :
    (keep : ℕ) (key : Text) (dests : Dict Text Bucket)
    → Dict.lookup key dests ≡ none
    → Dict.lookup key (prune_dests keep dests) ≡ none
unfolding prune_dests Dict.lookup
prune_dests-none keep key [] h = refl
prune_dests-none keep key ((k, days e) ∷ rest) h = ground (
  arith,
  lookup-put_days_ne key k (keep_last keep e) (prune_dests keep rest),
  prune_dests-none keep key rest,
)
prune_dests-none keep key ((k, falsy) ∷ rest) h = ground (arith, prune_dests-none keep key rest)
prune_dests-none keep key ((k, truthy) ∷ rest) h = ground (arith, prune_dests-none keep key rest)

count_in-put_days :
    (key : Text) (d : Dict ℕ Cell) (rest : Dict Text Bucket) (day : ℕ)
    → Dict.lookup key rest ≡ none
    → count_in (Dict.lookup key (put_days key d rest)) day ≡ ok (cell_value (Dict.lookup day d))
unfolding put_days count_in Dict.lookup
count_in-put_days key [] rest day h = rw h
count_in-put_days key (e ∷ d) rest day h = ground arith

count_in-prune_dests :
    (keep day : ℕ) (key : Text) (dests : Dict Text Bucket)
    → 0 < keep
    → NodupKeys dests
    → IsCurrent day (Dict.lookup key dests)
    → count_in (Dict.lookup key (prune_dests keep dests)) day ≡ count_in (Dict.lookup key dests) day
unfolding prune_dests Dict.lookup count_in
count_in-prune_dests keep day key [] pos u h = refl
count_in-prune_dests keep day key ((k, days e) ∷ rest) pos u h =
    (elim (text_eq.dec key k)
        as (λ q.
          IsCurrent day (if ite q true false then some (days e) else Dict.lookup key rest)
          → count_in (Dict.lookup key (put_days k (keep_last keep e) (prune_dests keep rest))) day
            ≡ count_in (if ite q true false then some (days e) else Dict.lookup key rest) day) [
              | yes p ↦ λ h'. rw p (
                  count_in-put_days k (keep_last keep e) (prune_dests keep rest) day
                    (prune_dests-none keep k rest u.0)
                  ∙ ap ok (value-keep_last keep day e pos h'))
              | no p ↦ λ h'.
                  ap (λ b. count_in b day)
                    (lookup-put_days_ne key k (keep_last keep e) (prune_dests keep rest) p)
                  ∙ count_in-prune_dests keep day key rest pos u.1 h'
            ])
      h
count_in-prune_dests keep day key ((k, falsy) ∷ rest) pos u h =
    (elim (text_eq.dec key k)
        as (λ q.
          IsCurrent day (if ite q true false then some falsy else Dict.lookup key rest)
          → count_in (Dict.lookup key (prune_dests keep rest)) day
            ≡ count_in (if ite q true false then some falsy else Dict.lookup key rest) day) [
              | yes p ↦ λ h'. absurd h'
              | no p ↦ λ h'. count_in-prune_dests keep day key rest pos u.1 h'
            ])
      h
count_in-prune_dests keep day key ((k, truthy) ∷ rest) pos u h =
    (elim (text_eq.dec key k)
        as (λ q.
          IsCurrent day (if ite q true false then some truthy else Dict.lookup key rest)
          → count_in (Dict.lookup key (prune_dests keep rest)) day
            ≡ count_in (if ite q true false then some truthy else Dict.lookup key rest) day) [
              | yes p ↦ λ h'. absurd h'
              | no p ↦ λ h'. count_in-prune_dests keep day key rest pos u.1 h'
            ])
      h

-- An attempt leaves the file alone or writes one count.
consume_in-writes :
    (f g : QuotaFile) (key : Text) (b : Option Bucket) (limit day : ℕ) (allowed : Bool)
    → consume_in (reload f) key b limit day f ≡ ok (allowed, g)
    → (g ≡ f) ⊎ ((d : Dict ℕ Cell) × (n : ℕ) × (g ≡ write_count (reload f) key d day n))
unfolding consume_in
consume_in-writes f g key none limit day allowed r = elim (Bool-cases (leb limit 0)) [
  | inl full ↦ inl (ground arith)
  | inr low ↦ inr ([], 1, ground arith)
]
consume_in-writes f g key (some falsy) limit day allowed r = cc
consume_in-writes f g key (some truthy) limit day allowed r = cc
consume_in-writes f g key (some (days d)) limit day allowed r =
    let current : ℕ = cell_value (Dict.lookup day d) in
    elim (Bool-cases (leb limit current)) [
      | inl full ↦ inl (ground arith)
      | inr low ↦ inr (d, current + 1, ground arith)
    ]

module _ (other : Text) (day' : ℕ) where
  count-write_count_ne :
      (f : QuotaFile) (key : Text) (d : Dict ℕ Cell) (day n : ℕ)
      → other ≢ key
      → NodupKeys (reload f)
      → IsCurrent day' (Dict.lookup other (reload f))
      → count (write_count (reload f) key d day n) other day' ≡ count f other day'
  unfolding count write_count
  count-write_count_ne f key d day n ne u h =
      let b = days (Dict.insert day (num n) d) in
      let same : Dict.lookup other (Dict.insert key b (reload f)) ≡ Dict.lookup other (reload f) =
        ground (arith, lookup-insert other key b (reload f)) in
      count_in-prune_dests 14 day' other (Dict.insert key b (reload f)) (omega arith)
        (insert-NodupKeys key b (reload f) u) (rw same h)
      ∙ ap (λ x. count_in x day') same

  -- In a file that lists no destination twice, an attempt at one destination, allowed or not, leaves
  -- the count of another destination on that one's newest day as it was.
  pub try_consume_others :
      (f g : QuotaFile) (key : Text) (limit day : ℕ) (allowed : Bool)
      → other ≢ key
      → NodupKeys (reload f)
      → IsCurrent day' (Dict.lookup other (reload f))
      → try_consume f key limit day ≡ ok (allowed, g)
      → count g other day' ≡ count f other day'
  unfolding try_consume
  try_consume_others f g key limit day allowed ne u h r = elim (Bool-cases (limit == 0)) [
    | inl off ↦ ap (λ x. count x other day') (ground arith)
    | inr on ↦
        elim (consume_in-writes f g key (Dict.lookup key (reload f)) limit day allowed
          (ground arith)) [
            | inl same ↦ ap (λ x. count x other day') same
            | inr (d, n, e) ↦
                ap (λ x. count x other day') e ∙ count-write_count_ne f key d day n ne u h
          ]
  ]
