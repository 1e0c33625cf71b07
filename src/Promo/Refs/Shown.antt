-- ===== src/Promo/Refs/Shown.antt =====
-- The form in which references to groups are kept, put into that form again
-- (modules/promo_spread/targets.py).
use telegram_auto.Prelude.{
  ◌≡◌, refl, sym, ap, ◌∙◌, true, false, ◌&&◌, ◌||◌, List, [], ◌∷◌, ◌++◌, Text, codes, nat_eq,
  text_eq, contains, arith, All, All-append, inl, inr, ◌⊎◌, Bool-cases, Option-cases,
}
use mathlib.Core.Path.{subst}
use telegram_auto.Prelude.Strip.{strip, strip-strip, strip_behind, is_space, is_empty}
use telegram_auto.Prelude.Search.{starts_with, occurs_in}
use telegram_auto.Promo.Routes.{display_ref, is_number}
use telegram_auto.Promo.Refs.{
  after_part, invite_hash, is_link, shown_ref, collect_groups, normalize_group_list,
}

-- A text that `normalize_group_list` keeps as it is.
abbrev pub IsShown : Text → Type 0
IsShown g = (strip g ≡ g) × (shown_ref g ≡ g) × (is_empty g ≡ false)

invite_hash-at :
    (text : Text)
    → strip text ≡ text
    → strip (b'@' ∷ text) ≡ b'@' ∷ text
    → is_empty (invite_hash text) ≡ true
    → is_empty (invite_hash (b'@' ∷ text)) ≡ true
unfolding invite_hash after_part starts_with nat_eq is_empty
invite_hash-at text s s' = elim (Option-cases (after_part (codes "joinchat/") text)) [
  | inl e ↦ elim (Option-cases (after_part (codes "/+") text)) [
    | inl f ↦ rw (s', s, e, f) (λ h. refl)
    | inr (y, f) ↦ rw (s', s, e, f) (λ h. h)
  ]
  | inr (x, e) ↦ rw (s', s, e) (λ h. h)
]

-- No link begins with an at sign.
is_link-at :
    (text : Text)
    → strip text ≡ text
    → strip (b'@' ∷ text) ≡ b'@' ∷ text
    → is_link text ≡ false
    → is_link (b'@' ∷ text) ≡ false
unfolding is_link starts_with occurs_in nat_eq
is_link-at text s s' h = ground (arith, h, invite_hash-at text s s')

display_ref-at :
    (text : Text) → strip (b'@' ∷ text) ≡ b'@' ∷ text → display_ref (b'@' ∷ text) ≡ b'@' ∷ text
unfolding display_ref starts_with nat_eq is_empty
display_ref-at text s = rw s refl

-- `display_ref` leaves a stripped text as it is, or puts an at sign in front.
display_ref-cases :
    (text : Text) → strip text ≡ text → (display_ref text ≡ text) ⊎ (display_ref text ≡ b'@' ∷ text)
unfolding display_ref
display_ref-cases text s =
    let linked = starts_with (codes "@") text || occurs_in (codes "t.me/") text in
    elim (Bool-cases (is_empty text)) [
      | inl none_left ↦ rw (s, none_left) (inl refl)
      | inr more ↦ elim (Bool-cases (linked || (is_number text && starts_with (codes "-") text))) [
        | inl kept ↦ rw (s, more, kept) (inl refl)
        | inr bare ↦ rw (s, more, bare) (inr refl)
      ]
    ]

at_is_ink : is_space b'@' ≡ false
unfolding is_space nat_eq
at_is_ink = refl

shown_ref-link : (text : Text) → is_link text ≡ true → shown_ref text ≡ text
unfolding shown_ref
shown_ref-link text h = rw h refl

shown_ref-plain : (text : Text) → is_link text ≡ false → shown_ref text ≡ display_ref text
unfolding shown_ref
shown_ref-plain text h = rw h refl

kept-IsShown :
    (text shown : Text)
    → strip text ≡ text
    → is_empty text ≡ false
    → shown ≡ text
    → shown_ref text ≡ shown
    → IsShown shown
kept-IsShown text shown s more same e = subst IsShown (sym same) (s, e ∙ same, more)

at-IsShown : (text : Text) → strip text ≡ text → is_link text ≡ false → IsShown (b'@' ∷ text)
unfolding is_empty
at-IsShown text s plain =
    let s' = strip_behind b'@' text at_is_ink s in
    (s', shown_ref-plain (b'@' ∷ text) (is_link-at text s s' plain) ∙ display_ref-at text s', refl)

shown_ref-IsShown :
    (text : Text) → strip text ≡ text → is_empty text ≡ false → IsShown (shown_ref text)
shown_ref-IsShown text s more = elim (Bool-cases (is_link text)) [
  | inl link ↦ kept-IsShown text (shown_ref text) s more (shown_ref-link text link) refl
  | inr plain ↦ elim (display_ref-cases text s) [
    | inl same ↦ kept-IsShown text (shown_ref text) s more (shown_ref-plain text plain ∙ same) refl
    | inr at ↦ subst IsShown (sym (shown_ref-plain text plain ∙ at)) (at-IsShown text s plain)
  ]
]

-- The groups that `normalize_group_list` returns are in that form.
collect_groups-IsShown :
    (raw out : List Text) → All IsShown out → All IsShown (collect_groups raw out)
unfolding collect_groups
collect_groups-IsShown [] out h = h
collect_groups-IsShown (item ∷ raw) out h =
    let text = strip item in
    let skip = is_empty text || is_empty (shown_ref text) || contains out (shown_ref text) in
    elim (Bool-cases skip) [
      | inl skipped ↦ rw skipped (collect_groups-IsShown raw out h)
      | inr new ↦ rw new (
          collect_groups-IsShown raw (out ++ shown_ref text ∷ []) (
            All-append IsShown out (shown_ref text ∷ []) h
              (shown_ref-IsShown text (strip-strip item) (ground (arith, new)), tt)))
    ]

pub normalize_group_list-IsShown : (raw : List Text) → All IsShown (normalize_group_list raw)
unfolding normalize_group_list
normalize_group_list-IsShown raw = collect_groups-IsShown raw [] tt

-- Groups in that form keep their properties when the list is normalised again.
collect_groups-All :
    (P : Text → Type 0) (raw out : List Text)
    → All IsShown raw
    → All P raw
    → All P out
    → All P (collect_groups raw out)
unfolding collect_groups
collect_groups-All P [] out h p q = q
collect_groups-All P (item ∷ raw) out h p q =
    let text = strip item in
    let same : shown_ref text ≡ item = ap shown_ref h.0.0 ∙ h.0.1 in
    let skip = is_empty text || is_empty (shown_ref text) || contains out (shown_ref text) in
    elim (Bool-cases skip) [
      | inl skipped ↦ rw skipped (collect_groups-All P raw out h.1 p.1 q)
      | inr new ↦ rw new (
          collect_groups-All P raw (out ++ shown_ref text ∷ []) h.1 p.1
            (All-append P out (shown_ref text ∷ []) q (subst P (sym same) p.0, tt)))
    ]

pub normalize_group_list-All :
    (P : Text → Type 0) (raw : List Text)
    → All IsShown raw
    → All P raw
    → All P (normalize_group_list raw)
unfolding normalize_group_list
normalize_group_list-All P raw h p = collect_groups-All P raw [] h p tt
