-- ===== src/Forward/Quota/Refund.antt =====
-- `refund`, alone and after an attempt that was allowed.
use telegram_auto.Prelude.{
  ℕ, ◌+◌, ◌-◌, ◌<◌, ◌≡◌, refl, sym, ap, leb, inl, inr, Bool-cases, ◌∙◌, true, Option, none, some,
  [], ◌∷◌, arith, Text, nat_eq, text_eq,
}
use mathlib.Core.Path.{subst}
use telegram_auto.Prelude.Recent.{insert-Nodup, insert-newest, erase-Nodup, erase-newest}
use telegram_auto.Prelude.Dict
use telegram_auto.Prelude.Dict.{Dict, keys, NodupKeys, lookup-insert, lookup-erase}
use telegram_auto.Forward.Quota.{
  Cell, num, Bucket, days, falsy, truthy, QuotaFile, ok, reload, cell_value, count_in, count,
  try_consume, store_or_pop, lower_day, refund_in, refund,
}
use telegram_auto.Forward.Quota.Pruning.{IsCurrent}
use telegram_auto.Forward.Quota.Counts.{try_consume_lem}

count_in-store_or_pop :
    (dests : Dict Text Bucket) (key : Text) (d : Dict ℕ Cell) (day : ℕ)
    → count_in (Dict.lookup key (store_or_pop dests key d)) day
      ≡ ok (cell_value (Dict.lookup day d))
unfolding store_or_pop count_in Dict.lookup
count_in-store_or_pop dests key [] day = rw (lookup-erase key key dests) (ground arith)
count_in-store_or_pop dests key (e ∷ d) day =
    rw (lookup-insert key key (days (e ∷ d)) dests) (ground arith)

cell_value-lower_day :
    (d : Dict ℕ Cell) (day : ℕ)
    → cell_value (Dict.lookup day (lower_day d day)) ≡ cell_value (Dict.lookup day d) - 1
unfolding lower_day
cell_value-lower_day d day =
    let v : ℕ = cell_value (Dict.lookup day d) in
    ground (arith, lookup-erase day day d, lookup-insert day day (num (v - 1)) d)

module _ (f : QuotaFile) (key : Text) (day c : ℕ) where
  refund_in-lowers :
      (b : Option Bucket)
      → Dict.lookup key (reload f) ≡ b
      → IsCurrent day b
      → count f key day ≡ ok c
      → count (refund_in (reload f) key b day f) key day ≡ ok (c - 1)
  unfolding count refund_in
  refund_in-lowers none e h hc = hc ∙ ap ok (ground (arith, rw (e, count_in) at hc))
  refund_in-lowers (some falsy) e h hc = absurd h
  refund_in-lowers (some truthy) e h hc = absurd h
  refund_in-lowers (some (days d)) e h hc =
      let hv : cell_value (Dict.lookup day d) ≡ c = cc (rw (e, count_in) at hc) in
      count_in-store_or_pop (reload f) key (lower_day d day) day
      ∙ ap ok (cell_value-lower_day d day ∙ ap (λ n. n - 1) hv)

  -- `refund` lowers the day's count by one, and no lower than zero.
  pub count-refund :
      IsCurrent day (Dict.lookup key (reload f))
      → count f key day ≡ ok c
      → count (refund f key day) key day ≡ ok (c - 1)
  unfolding refund
  count-refund h hc = refund_in-lowers (Dict.lookup key (reload f)) refl h hc

lower_day-IsCurrent :
    (d : Dict ℕ Cell) (day : ℕ)
    → IsCurrent day (some (days d))
    → IsCurrent day (some (days (lower_day d day)))
unfolding lower_day
lower_day-IsCurrent d day h = elim (Bool-cases (leb (cell_value (Dict.lookup day d)) 1)) [
  | inl last ↦ rw last (erase-Nodup day d h.0, erase-newest day day d h.1)
  | inr more ↦ rw more (
    insert-Nodup day (num (cell_value (Dict.lookup day d) - 1)) d h.0,
    insert-newest day (num (cell_value (Dict.lookup day d) - 1)) d h.1,
  )
]

store_or_pop-IsCurrent :
    (dests : Dict Text Bucket) (key : Text) (d : Dict ℕ Cell) (day : ℕ)
    → IsCurrent day (some (days d))
    → IsCurrent day (Dict.lookup key (store_or_pop dests key d))
unfolding store_or_pop
store_or_pop-IsCurrent dests key [] day h =
    let gone : Dict.lookup key (Dict.erase key dests) ≡ none =
      ground (arith, lookup-erase key key dests) in
    subst (IsCurrent day) (sym gone) tt
store_or_pop-IsCurrent dests key (e ∷ d) day h =
    let stored : Dict.lookup key (Dict.insert key (days (e ∷ d)) dests) ≡ some (days (e ∷ d)) =
      ground (arith, lookup-insert key key (days (e ∷ d)) dests) in
    subst (IsCurrent day) (sym stored) h

refund_in-IsCurrent :
    (f : QuotaFile) (key : Text) (day : ℕ) (b : Option Bucket)
    → Dict.lookup key (reload f) ≡ b
    → IsCurrent day b
    → IsCurrent day (Dict.lookup key (reload (refund_in (reload f) key b day f)))
unfolding refund_in reload
refund_in-IsCurrent f key day none e h = subst (IsCurrent day) (sym e) tt
refund_in-IsCurrent f key day (some falsy) e h = absurd h
refund_in-IsCurrent f key day (some truthy) e h = absurd h
refund_in-IsCurrent f key day (some (days d)) e h =
    store_or_pop-IsCurrent (reload f) key (lower_day d day) day (lower_day-IsCurrent d day h)

pub refund-IsCurrent :
    (f : QuotaFile) (key : Text) (day : ℕ)
    → IsCurrent day (Dict.lookup key (reload f))
    → IsCurrent day (Dict.lookup key (reload (refund f key day)))
unfolding refund
refund-IsCurrent f key day h = refund_in-IsCurrent f key day (Dict.lookup key (reload f)) refl h

-- Where no day of the destination lies after this one and the count of the day is below the cap, an
-- attempt on the day is allowed and raises the count by one, and a refund directly after it and on
-- the same day makes the count what it was.
pub count-refund-try_consume :
    (f : QuotaFile) (key : Text) (limit day c : ℕ)
    → IsCurrent day (Dict.lookup key (reload f))
    → count f key day ≡ ok c
    → c < limit
    → (g : QuotaFile) × (try_consume f key limit day ≡ ok (true, g))
      × (count g key day ≡ ok (c + 1))
      × (count (refund g key day) key day ≡ ok c)
count-refund-try_consume f key limit day c h e lt =
    let (g, r, k, o, w) = try_consume_lem f key limit day c h (omega arith) e in
    let k' : count g key day ≡ ok (c + 1) = ground (arith, k) in
    (g, ground (arith, r), k', count-refund g key day (c + 1) w k' ∙ ap ok (omega arith))
