-- ===== src/Forward/Quota/Pruning.antt =====
-- The bucket that is saved, after `_prune` (modules/channel_forward/quota.py).
use telegram_auto.Prelude.{
  ℕ, ◌-◌, ◌≤◌, ◌≡◌, refl, ◌≢◌, Option, none, some, List, [], ◌∷◌, arith, Text, nat_eq, text_eq,
  length, take, All,
}
use telegram_auto.Prelude.Recent.{
  pop_keys, keep_last, lookup-keep_last, insert-Nodup, insert-newest, erase-Nodup, erase-newest,
}
use telegram_auto.Prelude.Dict
use telegram_auto.Prelude.Dict.{Dict, keys, NodupKeys, lookup-insert, lookup-erase}
use telegram_auto.Prelude.Numbers.{sort, Nodup}
use telegram_auto.Forward.Quota.{
  Cell, num, Bucket, days, falsy, truthy, ok, reload, put_days, prune_dests, count, write_count,
}

-- A destination whose bucket is a dict without repeated days, none of them after `day`.
abbrev pub IsCurrent : ℕ → Option Bucket → Type 0
IsCurrent day none = Unit
IsCurrent day (some (days d)) = Nodup (keys d) × All (λ k. k ≤ day) (keys d)
IsCurrent day (some _) = ⊥

lookup-put_days :
    (key : Text) (d : Dict ℕ Cell) (rest : Dict Text Bucket) (day : ℕ) {c : Cell}
    → Dict.lookup day d ≡ some c
    → Dict.lookup key (put_days key d rest) ≡ some (days d)
unfolding put_days Dict.lookup
lookup-put_days key [] rest day h = cc
lookup-put_days key (e ∷ d) rest day h = ground arith

pub lookup-put_days_ne :
    (key k : Text) (d : Dict ℕ Cell) (rest : Dict Text Bucket)
    → key ≢ k
    → Dict.lookup key (put_days k d rest) ≡ Dict.lookup key rest
unfolding put_days Dict.lookup
lookup-put_days_ne key k [] rest h = refl
lookup-put_days_ne key k (e ∷ d) rest h = ground arith

-- Pruning turns a destination's bucket into its newest days, where one of them has an entry.
lookup-prune_dests :
    (keep day : ℕ) (key : Text) (dests : Dict Text Bucket) (d : Dict ℕ Cell) (c : Cell)
    → Dict.lookup key dests ≡ some (days d)
    → Dict.lookup day (keep_last keep d) ≡ some c
    → Dict.lookup key (prune_dests keep dests) ≡ some (days (keep_last keep d))
unfolding prune_dests Dict.lookup
lookup-prune_dests keep day key [] d c h kept = cc
lookup-prune_dests keep day key ((k, days e) ∷ rest) d c h kept = ground (
  arith,
  lookup-put_days key (keep_last keep d) (prune_dests keep rest) day kept,
  lookup-put_days_ne key k (keep_last keep e) (prune_dests keep rest),
  lookup-prune_dests keep day key rest d c,
)
lookup-prune_dests keep day key ((k, falsy) ∷ rest) d c h kept =
    ground (arith, lookup-prune_dests keep day key rest d c)
lookup-prune_dests keep day key ((k, truthy) ∷ rest) d c h kept =
    ground (arith, lookup-prune_dests keep day key rest d c)

-- What `write_count` stores for the day is what is read back.
pub count-write_count :
    (dests : Dict Text Bucket) (key : Text) (d : Dict ℕ Cell) (day n : ℕ)
    → Nodup (keys d)
    → All (λ k. k ≤ day) (keys d)
    → count (write_count dests key d day n) key day ≡ ok n
unfolding count write_count
count-write_count dests key d day n u newest =
    let d' = Dict.insert day (num n) d in
    let found = lookup-insert day day (num n) d in
    let kept =
      lookup-keep_last 14 day d' (num n) (omega arith) (insert-Nodup day (num n) d u)
        (insert-newest day (num n) d newest) (ground (arith, found)) in
    ground (
      arith,
      kept,
      lookup-prune_dests 14 day key (Dict.insert key (days d') dests) d' (num n),
      lookup-insert key key (days d') dests,
    )

pop_keys-IsCurrent :
    (olds : List ℕ) (day : ℕ) (d : Dict ℕ Cell)
    → IsCurrent day (some (days d))
    → IsCurrent day (some (days (pop_keys olds d)))
unfolding pop_keys
pop_keys-IsCurrent [] day d h = h
pop_keys-IsCurrent (k ∷ olds) day d h =
    pop_keys-IsCurrent olds day (Dict.erase k d) (erase-Nodup k d h.0, erase-newest k day d h.1)

-- The bucket that `write_count` leaves is current again.
pub write_count-IsCurrent :
    (dests : Dict Text Bucket) (key : Text) (d : Dict ℕ Cell) (day n : ℕ)
    → Nodup (keys d)
    → All (λ k. k ≤ day) (keys d)
    → IsCurrent day (Dict.lookup key (reload (write_count dests key d day n)))
unfolding reload write_count keep_last
write_count-IsCurrent dests key d day n u newest =
    let d' = Dict.insert day (num n) d in
    let u' = insert-Nodup day (num n) d u in
    let newest' = insert-newest day (num n) d newest in
    let found = lookup-insert day day (num n) d in
    let kept =
      lookup-keep_last 14 day d' (num n) (omega arith) u' newest' (ground (arith, found)) in
    let stored = lookup-insert key key (days d') dests in
    let e =
      lookup-prune_dests 14 day key (Dict.insert key (days d') dests) d' (num n)
        (ground (arith, stored)) kept in
    rw e (pop_keys-IsCurrent (take (length (keys d') - 14) (sort (keys d'))) day d' (u', newest'))
