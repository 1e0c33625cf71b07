-- ===== src/Forward/Quota/Bounds.antt =====
-- The size of the file after `_prune` (modules/channel_forward/quota.py).
use telegram_auto.Prelude.{
  ℕ, ◌+◌, ◌≤◌, ◌<◌, ◌≡◌, refl, true, false, Option, none, some, [], ◌∷◌, arith, Text, nat_eq,
  text_eq, if◌then◌else◌, length, All,
}
use mathlib.Core.Logic.{ite}
use mathlib.Core.Path.{subst}
use mathlib.Core.Option.{some-injective}
use telegram_auto.Prelude.Recent.{keep_last, insert-Nodup, length-keep_last}
use telegram_auto.Prelude.Dict
use telegram_auto.Prelude.Dict.{Dict, keys, NodupKeys, lookup-insert, lookup-erase}
use telegram_auto.Prelude.Numbers.{Nodup}
use telegram_auto.Forward.Quota.{
  Cell, num, Bucket, days, falsy, truthy, QuotaFile, ok, reload, cell_value, put_days, prune_dests,
  write_count, consume_in, try_consume,
}

-- A bucket within a bound: some day, and no more days than the bound.
abbrev pub Within : ℕ → Bucket → Type 0
Within keep (days d) = (0 < length d) × (length d ≤ keep)
Within keep falsy = ⊥
Within keep truthy = ⊥

-- Every bucket that is a dict has each day once.
abbrev pub DaysNodup : Bucket → Type 0
DaysNodup (days d) = Nodup (keys d)
DaysNodup falsy = Unit
DaysNodup truthy = Unit

put_days-Within :
    (keep : ℕ) (key : Text) (d : Dict ℕ Cell) (rest : Dict Text Bucket)
    → length d ≤ keep
    → All (λ e. Within keep e.1) rest
    → All (λ e. Within keep e.1) (put_days key d rest)
unfolding put_days
put_days-Within keep key [] rest h k = k
put_days-Within keep key (e ∷ d) rest h k = ((omega arith, h), k)

prune_dests-Within :
    (keep : ℕ) (dests : Dict Text Bucket)
    → All (λ e. DaysNodup e.1) dests
    → All (λ e. Within keep e.1) (prune_dests keep dests)
unfolding prune_dests
prune_dests-Within keep [] h = tt
prune_dests-Within keep ((key, days d) ∷ rest) h =
    put_days-Within keep key (keep_last keep d) (prune_dests keep rest)
      (length-keep_last keep d h.0) (prune_dests-Within keep rest h.1)
prune_dests-Within keep ((key, falsy) ∷ rest) h = prune_dests-Within keep rest h.1
prune_dests-Within keep ((key, truthy) ∷ rest) h = prune_dests-Within keep rest h.1

insert-DaysNodup :
    (key : Text) (b : Bucket) (dests : Dict Text Bucket)
    → DaysNodup b
    → All (λ e. DaysNodup e.1) dests
    → All (λ e. DaysNodup e.1) (Dict.insert key b dests)
unfolding Dict.insert
insert-DaysNodup key b [] h k = (h, tt)
insert-DaysNodup key b ((j, c) ∷ dests) h k =
    elim (text_eq.dec key j)
      as (λ q.
        All (λ e. DaysNodup e.1)
          (if ite q true false then (j, b) ∷ dests else (j, c) ∷ Dict.insert key b dests)) [
            | yes _ ↦ (h, k.1)
            | no _ ↦ (k.0, insert-DaysNodup key b dests h k.1)
          ]

All-lookup {κ} :
    (P : Bucket → Type κ) (key : Text) (dests : Dict Text Bucket) (b : Bucket)
    → All (λ e. P e.1) dests
    → Dict.lookup key dests ≡ some b
    → P b
unfolding Dict.lookup
All-lookup P key [] b h e = cc
All-lookup P key ((j, c) ∷ dests) b h e =
    elim (text_eq.dec key j)
        as (λ q. (if ite q true false then some c else Dict.lookup key dests) ≡ some b → P b) [
          | yes _ ↦ λ e'. subst P (some-injective c b e') h.0
          | no _ ↦ λ e'. All-lookup P key dests b h.1 e'
        ]
      e

write_count-Within :
    (dests : Dict Text Bucket) (key : Text) (d : Dict ℕ Cell) (day n : ℕ)
    → Nodup (keys d)
    → All (λ e. DaysNodup e.1) dests
    → All (λ e. Within 14 e.1) (reload (write_count dests key d day n))
unfolding reload write_count
write_count-Within dests key d day n u h =
    prune_dests-Within 14 (Dict.insert key (days (Dict.insert day (num n) d)) dests) (
      insert-DaysNodup key (days (Dict.insert day (num n) d)) dests (insert-Nodup day (num n) d u)
        h)

consume_in-Within :
    (f g : QuotaFile) (key : Text) (b : Option Bucket) (limit day : ℕ)
    → Dict.lookup key (reload f) ≡ b
    → All (λ e. DaysNodup e.1) (reload f)
    → consume_in (reload f) key b limit day f ≡ ok (true, g)
    → All (λ e. Within 14 e.1) (reload g)
unfolding consume_in
consume_in-Within f g key none limit day e h r =
    let same : write_count (reload f) key [] day 1 ≡ g = ground arith in
    subst (λ x. All (λ e. Within 14 e.1) (reload x)) same
      (write_count-Within (reload f) key [] day 1 tt h)
consume_in-Within f g key (some falsy) limit day e h r = cc
consume_in-Within f g key (some truthy) limit day e h r = cc
consume_in-Within f g key (some (days d)) limit day e h r =
    let n : ℕ = cell_value (Dict.lookup day d) + 1 in
    let same : write_count (reload f) key d day n ≡ g = ground arith in
    subst (λ x. All (λ e. Within 14 e.1) (reload x)) same
      (write_count-Within (reload f) key d day n (All-lookup DaysNodup key (reload f) (days d) h e)
        h)

-- After an allowed attempt at a positive cap every destination of the file has a dict of one to
-- fourteen days, whatever the file held before.
pub try_consume-Within :
    (f g : QuotaFile) (key : Text) (limit day : ℕ)
    → 0 < limit
    → All (λ e. DaysNodup e.1) (reload f)
    → try_consume f key limit day ≡ ok (true, g)
    → All (λ e. Within 14 e.1) (reload g)
unfolding try_consume
try_consume-Within f g key limit day pos h r =
    consume_in-Within f g key (Dict.lookup key (reload f)) limit day refl h (ground arith)
