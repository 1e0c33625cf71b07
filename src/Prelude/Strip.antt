-- ===== src/Prelude/Strip.antt =====
-- `str.strip()`: a text without the white space at its ends.
use Prim.Native.Nat.{ℕ}
use mathlib.Core.Bool.{Bool, ◌||◌, ◌&&◌}
use mathlib.Core.List.{[], ◌∷◌, ◌++◌, reverse, reverse-append, reverse-cons, reverse-reverse}
use mathlib.Core.Path.{◌≡◌, refl, sym, ap, ◌∙◌}
use mathlib.Core.Bool.{false, true}
use mathlib.Core.Logic.{◌⊎◌, inl, inr}
use telegram_auto.Prelude.Tests.{Text, leb, ◌==◌, nat_eq, if◌then◌else◌, Bool-cases}

-- `str.isspace` of one character
unfoldable pub is_space : ℕ → Bool
unfolding nat_eq
is_space c =
    (leb 9 c && leb c 13)
    || (leb 28 c && leb c 32)
    || c == 0x85
    || c == 0xa0
    || c == 0x1680
    || (leb 0x2000 c && leb c 0x200a)
    || c == 0x2028
    || c == 0x2029
    || c == 0x202f
    || c == 0x205f
    || c == 0x3000

unfoldable pub lstrip : Text → Text
unfolding is_space
lstrip [] = []
lstrip (c ∷ s) = if is_space c then lstrip s else c ∷ s

unfoldable pub strip : Text → Text
unfolding lstrip
strip s = reverse (lstrip (reverse (lstrip s)))

unfoldable pub is_empty : Text → Bool
is_empty [] = true
is_empty (c ∷ s) = false

lstrip-append : (s : Text) (c : ℕ) → is_space c ≡ false → lstrip (s ++ c ∷ []) ≡ lstrip s ++ c ∷ []
unfolding lstrip
lstrip-append [] c h = rw h refl
lstrip-append (d ∷ s) c h = elim (Bool-cases (is_space d)) [
  | inl white ↦ rw white (lstrip-append s c h)
  | inr ink ↦ rw ink refl
]

-- what is left of a text whose first character is no space, from the right
strip_from :
    (c : ℕ) (s : Text)
    → is_space c ≡ false
    → lstrip (reverse (c ∷ s)) ≡ lstrip (reverse s) ++ c ∷ []
strip_from c s h = ap lstrip (reverse-cons c s) ∙ lstrip-append (reverse s) c h

rstrip_keeps :
    (c : ℕ) (s : Text)
    → is_space c ≡ false
    → reverse (lstrip (reverse (c ∷ s))) ≡ c ∷ reverse (lstrip (reverse s))
rstrip_keeps c s h = ap reverse (strip_from c s h) ∙ reverse-append (lstrip (reverse s)) (c ∷ [])

lstrip-lstrip : (s : Text) → lstrip (lstrip s) ≡ lstrip s
unfolding lstrip
lstrip-lstrip [] = refl
lstrip-lstrip (c ∷ s) = elim (Bool-cases (is_space c)) [
  | inl white ↦ rw white (lstrip-lstrip s)
  | inr ink ↦ rw (ink, lstrip, ink) refl
]

-- A text without space in front is empty or begins with another character.
lstrip-cases :
    (s : Text)
    → (lstrip s ≡ []) ⊎ ((c : ℕ) × ((t : Text) × (is_space c ≡ false) × (lstrip s ≡ c ∷ t)))
unfolding lstrip
lstrip-cases [] = inl refl
lstrip-cases (c ∷ s) = elim (Bool-cases (is_space c)) [
  | inl white ↦ rw white (lstrip-cases s)
  | inr ink ↦ rw ink (inr (c, (s, ink, refl)))
]

abbrev right : Text → Text
right s = reverse (lstrip (reverse s))

right-right : (s : Text) → right (right s) ≡ right s
right-right s =
    ap (λ x. reverse (lstrip x)) (reverse-reverse (lstrip (reverse s)))
    ∙ ap reverse (lstrip-lstrip (reverse s))

-- `strip` of what is stripped changes nothing.
pub strip-strip : (s : Text) → strip (strip s) ≡ strip s
unfolding strip lstrip
strip-strip s = elim (lstrip-cases s) [
  | inl nothing ↦ rw nothing refl
  | inr (c, (t, ink, e)) ↦
      let kept : right (lstrip s) ≡ c ∷ right t = ap right e ∙ rstrip_keeps c t ink in
      let inner : lstrip (right (lstrip s)) ≡ right (lstrip s) =
        ap lstrip kept ∙ rw ink refl ∙ sym kept in
      ap right inner ∙ right-right (lstrip s)
]

-- A text stays stripped when a character that is no space is put in front.
pub strip_behind : (c : ℕ) (s : Text) → is_space c ≡ false → strip s ≡ s → strip (c ∷ s) ≡ c ∷ s
unfolding strip lstrip
strip_behind c s ink h =
    let kept : right s ≡ s = ap right (sym h) ∙ right-right (lstrip s) ∙ h in
    let head : lstrip (c ∷ s) ≡ c ∷ s = rw ink refl in
    ap right head ∙ rstrip_keeps c s ink ∙ ap (λ t. c ∷ t) kept
