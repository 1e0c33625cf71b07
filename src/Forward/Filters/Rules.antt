-- ===== src/Forward/Filters/Rules.antt =====
-- Which texts are refused (modules/channel_forward/filters.py).
use telegram_auto.Prelude.{
  ◌≡◌, refl, Bool, false, not, ◌&&◌, ◌↔◌, none, List, [], ◌∷◌, Text, arith, nat_eq, text_eq, any,
}
use telegram_auto.Prelude.Strip.{strip, is_empty}
use telegram_auto.Prelude.Search.{occurs_in}
use telegram_auto.Forward.Filters.{TextFilterConfig, TextTools, first_word_in, find_blocked_word}

-- a blocked word that is not blank and stands in the text
abbrev pub hits : (Text → Text) → Text → Text → Bool
hits casefold hay w = not (is_empty (strip w)) && occurs_in (casefold (strip w)) hay

first_word_in-none :
    (casefold : Text → Text) (hay : Text) (words : List Text)
    → (first_word_in casefold hay words ≡ none) ↔ (any (hits casefold hay) words ≡ false)
unfolding first_word_in any
first_word_in-none casefold hay [] = (λ h. refl, λ h. refl)
first_word_in-none casefold hay (w ∷ ws) =
    let ih = first_word_in-none casefold hay ws in
    (λ h. ground (arith, ih.0), λ h. ground (arith, ih.1))

-- A text is refused exactly when blocking is on and a word of the list that is not blank, without
-- the space at its ends, stands in it, letters compared by their folded forms.
pub find_blocked_word-none :
    (t : TextTools) (c : TextFilterConfig) (text : Text)
    → (find_blocked_word t c text ≡ none)
      ↔ ((c.block_enabled && any (hits t.casefold (t.casefold text)) c.block_words) ≡ false)
unfolding find_blocked_word
find_blocked_word-none t c text =
    let words = first_word_in-none t.casefold (t.casefold text) c.block_words in
    (λ h. ground (arith, words.0), λ h. ground (arith, words.1))
