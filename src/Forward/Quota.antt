-- ===== src/Forward/Quota.antt =====
-- modules/channel_forward/quota.py: the daily publish cap of a destination. The state is what
-- `load_json` reads from daily_quota.json. A day is the ordinal of a calendar day: days are written
-- as ISO dates, whose text order is their order in time. `calendar_day` reads the time zone
-- database, so each operation takes the day as an argument.
pub mod Pruning
pub mod Counts
pub mod Refund
pub mod Bounds
pub mod Isolation
use telegram_auto.Prelude.{
  ℕ, ◌+◌, ◌-◌, max, Bool, true, false, Option, none, some, List, [], ◌∷◌, Text, leb, ◌==◌, nat_eq,
  text_eq, if◌then◌else◌, length, take,
}
use telegram_auto.Prelude.Recent.{keep_last}
use telegram_auto.Prelude.Dict
use telegram_auto.Prelude.Dict.{Dict, keys}
use telegram_auto.Prelude.Numbers.{sort}

-- A value under a day: a number, or one that `int` refuses.
pub data Cell : Type 0 where
  num : ℕ → Cell
  junk : Cell

-- A value under a destination: a dict, or another value, which is true or false under `or`.
pub data Bucket : Type 0 where
  days : Dict ℕ Cell → Bucket
  falsy truthy : Bucket

-- The value under "dests": `none` if it is missing or no dict.
pub record QuotaFile : Type 0 where
  pub dests : Option (Dict Text Bucket)

-- An `AttributeError` leaves the method where a bucket is no dict.
pub data Result {ℓ} (A : Type ℓ) : Type ℓ where
  ok : A → Result A
  attribute_error : Result A

-- `_reload`
unfoldable pub reload : QuotaFile → Dict Text Bucket
reload f = elim f.dests [ none ↦ [] | some d ↦ d ]

-- `int(bucket.get(day) or 0)`, with the `except` branch
unfoldable pub cell_value : Option Cell → ℕ
cell_value none = 0
cell_value (some (num n)) = n
cell_value (some junk) = 0

-- `if not days: dests.pop(key, None)`
unfoldable pub put_days : Text → Dict ℕ Cell → Dict Text Bucket → Dict Text Bucket
put_days key [] dests = dests
put_days key (e ∷ d) dests = (key, days (e ∷ d)) ∷ dests

-- the loop of `_prune`
unfoldable pub prune_dests : ℕ → Dict Text Bucket → Dict Text Bucket
unfolding keep_last put_days
prune_dests keep [] = []
prune_dests keep ((key, days d) ∷ rest) = put_days key (keep_last keep d) (prune_dests keep rest)
prune_dests keep ((key, _) ∷ rest) = prune_dests keep rest

-- `_prune`
unfoldable pub prune : ℕ → Dict Text Bucket → Dict Text Bucket
unfolding prune_dests
prune keep_days dests = prune_dests (max 1 keep_days) dests

-- the lookup of `count` in `dests.get(dest_key) or {}`
unfoldable pub count_in : Option Bucket → ℕ → Result ℕ
unfolding cell_value Dict.lookup
count_in none day = ok 0
count_in (some falsy) day = ok 0
count_in (some truthy) day = attribute_error
count_in (some (days d)) day = ok (cell_value (Dict.lookup day d))

unfoldable pub count : QuotaFile → Text → ℕ → Result ℕ
unfolding count_in reload
count f key day = count_in (Dict.lookup key (reload f)) day

abbrev map_result {ℓ κ} : {A : Type ℓ} {B : Type κ} → (A → B) → Result A → Result B
map_result g (ok a) = ok (g a)
map_result g attribute_error = attribute_error

unfoldable pub at_limit : QuotaFile → Text → ℕ → ℕ → Result Bool
unfolding count
at_limit f key limit day = if limit == 0 then ok false else map_result (leb limit) (count f key day)

abbrev saved : Dict Text Bucket → QuotaFile
saved d = record { dests = some d }

-- `bucket[day] = current + 1`, `_prune` and `_save`
unfoldable pub write_count : Dict Text Bucket → Text → Dict ℕ Cell → ℕ → ℕ → QuotaFile
unfolding prune
write_count dests key d day n =
    saved (prune 14 (Dict.insert key (days (Dict.insert day (num n) d)) dests))

-- the test of the cap over the bucket that `setdefault` gives
unfoldable pub consume_in :
    Dict Text Bucket → Text → Option Bucket → ℕ → ℕ → QuotaFile → Result (Bool × QuotaFile)
unfolding write_count cell_value
consume_in dests key none limit day f =
    if leb limit 0 then ok (false, f) else ok (true, write_count dests key [] day 1)
consume_in dests key (some (days d)) limit day f =
    let current = cell_value (Dict.lookup day d) in
    if leb limit current
    then ok (false, f)
    else ok (true, write_count dests key d day (current + 1))
consume_in dests key (some _) limit day f = attribute_error

-- A refusal returns before `_save`, so the file stays as it was.
unfoldable pub try_consume : QuotaFile → Text → ℕ → ℕ → Result (Bool × QuotaFile)
unfolding consume_in reload
try_consume f key limit day =
    if limit == 0
    then ok (true, f)
    else consume_in (reload f) key (Dict.lookup key (reload f)) limit day f

-- `if not bucket: dests.pop(dest_key, None)`
unfoldable pub store_or_pop : Dict Text Bucket → Text → Dict ℕ Cell → Dict Text Bucket
store_or_pop dests key [] = Dict.erase key dests
store_or_pop dests key (e ∷ d) = Dict.insert key (days (e ∷ d)) dests

-- the new bucket of `refund`
unfoldable pub lower_day : Dict ℕ Cell → ℕ → Dict ℕ Cell
unfolding cell_value
lower_day d day =
    let current = cell_value (Dict.lookup day d) in
    if leb current 1 then Dict.erase day d else Dict.insert day (num (current - 1)) d

unfoldable pub refund_in : Dict Text Bucket → Text → Option Bucket → ℕ → QuotaFile → QuotaFile
unfolding store_or_pop lower_day
refund_in dests key (some (days d)) day f = saved (store_or_pop dests key (lower_day d day))
refund_in dests key _ day f = f

unfoldable pub refund : QuotaFile → Text → ℕ → QuotaFile
unfolding refund_in reload
refund f key day = refund_in (reload f) key (Dict.lookup key (reload f)) day f
