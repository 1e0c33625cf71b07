-- ===== src/Prelude/Parse.antt =====
-- Python's operations on text that the modules use: `lower`, `split`, `replace` of one character, and
-- `int`. Capital letters are those of ASCII only, unlike those of `str.lower`; digits are those of
-- ASCII and the two Arabic series.
use Prim.Native.Nat.{ℕ, ◌+◌, ◌-◌, ◌*◌}
use mathlib.Core.Bool.{Bool, true, false, ◌&&◌}
use mathlib.Core.Option.{Option, none, some}
use mathlib.Core.List.{List, [], ◌∷◌}
use telegram_auto.Prelude.Tests.{Text, leb, ◌==◌, nat_eq, if◌then◌else◌}
use telegram_auto.Prelude.Strip.{strip}

unfoldable pub lower_char : ℕ → ℕ
lower_char c = if leb b'A' c && leb c b'Z' then c + 32 else c

unfoldable pub lower : Text → Text
unfolding lower_char
lower [] = []
lower (c ∷ s) = lower_char c ∷ lower s

unfoldable pub replace_char : ℕ → ℕ → Text → Text
unfolding nat_eq
replace_char a b [] = []
replace_char a b (c ∷ s) = (if c == a then b else c) ∷ replace_char a b s

-- `a, b = s.split(c, 1)`: `none` where `c` does not occur
unfoldable pub split_once : ℕ → Text → Option (Text × Text)
unfolding nat_eq
split_once sep [] = none
split_once sep (c ∷ s) =
    let rest = split_once sep s in
    if c == sep then some ([], s) else elim rest [ none ↦ none | some (a, b) ↦ some (c ∷ a, b) ]

abbrev pub prepend : ℕ → List Text → List Text
prepend c [] = (c ∷ []) ∷ []
prepend c (w ∷ ws) = (c ∷ w) ∷ ws

-- `s.split(c)`
unfoldable pub split_all : ℕ → Text → List Text
unfolding nat_eq
split_all sep [] = [] ∷ []
split_all sep (c ∷ s) = let rest = split_all sep s in if c == sep then [] ∷ rest else prepend c rest

-- the digits that `int` reads
unfoldable pub digit_value : ℕ → Option ℕ
digit_value c =
    if leb b'0' c && leb c b'9'
    then some (c - b'0')
    else if leb 0x660 c && leb c 0x669
    then some (c - 0x660)
    else if leb 0x6f0 c && leb c 0x6f9
    then some (c - 0x6f0)
    else none

-- The digits after the first, each of them behind one underscore at most; the flag is set behind a
-- digit.
unfoldable pub read_digits : ℕ → Bool → Text → Option ℕ
unfolding digit_value nat_eq
read_digits n true [] = some n
read_digits n false [] = none
read_digits n after_digit (c ∷ s) = elim (digit_value c) [
  | some d ↦ read_digits (n * 10 + d) true s
  | none ↦ if c == b'_' && after_digit then read_digits n false s else none
]

-- A sign, and the digits after it. The flag says that the number is negative.
unfoldable pub read_signed : Text → Option (Bool × ℕ)
unfolding read_digits
read_signed [] = none
read_signed (c ∷ s) =
    if c == b'-'
    then elim (read_digits 0 false s) [ none ↦ none | some n ↦ some (true, n) ]
    else if c == b'+'
    then elim (read_digits 0 false s) [ none ↦ none | some n ↦ some (false, n) ]
    else elim (read_digits 0 false (c ∷ s)) [ none ↦ none | some n ↦ some (false, n) ]

-- `int(s)`: `none` is the `ValueError`
unfoldable pub int_of : Text → Option (Bool × ℕ)
unfolding read_signed
int_of s = read_signed (strip s)

-- a number that is not negative, and at most a bound
unfoldable pub in_range : ℕ → Bool × ℕ → Bool
in_range bound (true, n) = n == 0
in_range bound (false, n) = leb n bound
