-- ===== src/Forward/Filters.antt =====
-- modules/channel_forward/filters.py: the words and patterns by which a route refuses a text, and
-- how a text is rewritten. `str.casefold`, `re.search` and the substitutions by the file's patterns
-- are arguments, with `none` for a pattern that `re` refuses; so are Telethon's conversions to
-- UTF-16.
pub mod Rules
use telegram_auto.Prelude.{
  ℕ, zero, suc, ◌+◌, Bool, true, false, not, ◌&&◌, ◌||◌, Option, none, some, List, [], ◌∷◌, ◌++◌,
  map, Text, leb, ltb, ◌==◌, nat_eq, text_eq, if◌then◌else◌, length, filter, any, take, drop,
}
use telegram_auto.Prelude.Dict.{Dict}
use telegram_auto.Prelude.Sort.{sort_by}
use telegram_auto.Prelude.Strip.{strip, lstrip, is_empty}
use telegram_auto.Prelude.Search.{starts_with, occurs_in, rstrip}

pub record TextFilterConfig : Type 0 where
  pub enabled : Bool
  pub remove_links : Bool
  pub remove_mentions : Bool
  pub remove_hashtags : Bool
  pub remove_ids : Bool
  pub prefix : Text
  pub suffix : Text
  pub collapse_whitespace : Bool
  pub block_enabled : Bool
  pub block_words : List Text
  pub allow_enabled : Bool
  pub allow_words : List Text
  pub regex_enabled : Bool
  pub regex_pattern : Text
  pub regex_must_match : Bool
  pub link_replacements : Dict Text Text

-- what the standard library and Telethon do with a text
pub record TextTools : Type 0 where
  pub casefold : Text → Text
  -- `re.search(pattern, text)`: whether it matched, or `none` for `re.error`
  pub search : Text → Text → Option Bool
  pub sub_links : Text → Text
  pub sub_mentions : Text → Text
  pub sub_hashtags : Text → Text
  pub sub_ids : Text → Text
  pub sub_spaces : Text → Text
  pub sub_newlines : Text → Text
  pub splitlines : Text → List Text
  pub add_surrogate : Text → Text
  pub del_surrogate : Text → Text

unfoldable pub is_active : TextFilterConfig → Bool
unfolding strip is_empty
is_active c =
    c.enabled
    && (c.remove_links
        || c.remove_mentions
        || c.remove_hashtags
        || c.remove_ids
        || not (is_empty (strip c.prefix))
        || not (is_empty (strip c.suffix))
        || not (length c.link_replacements == 0))

-- the loop of `find_blocked_word` over the folded text
unfoldable pub first_word_in : (Text → Text) → Text → List Text → Option Text
unfolding strip is_empty occurs_in
first_word_in casefold hay [] = none
first_word_in casefold hay (word ∷ words) =
    let rest = first_word_in casefold hay words in
    let token = strip word in
    if not (is_empty token) && occurs_in (casefold token) hay then some token else rest

unfoldable pub find_blocked_word : TextTools → TextFilterConfig → Text → Option Text
unfolding first_word_in
find_blocked_word t c text =
    if not c.block_enabled then none else first_word_in t.casefold (t.casefold text) c.block_words

-- whether an allowed word that is not blank occurs
unfoldable pub has_allowed_word : (Text → Text) → Text → List Text → Bool
unfolding strip is_empty occurs_in
has_allowed_word casefold hay words =
    any (λ w. occurs_in (casefold w) hay) (filter (λ w. not (is_empty (strip w))) words)

-- the test of the pattern; one that `re` refuses lets every text pass
unfoldable pub matches_regex : TextTools → TextFilterConfig → Text → Bool
unfolding strip is_empty
matches_regex t c text =
    if c.regex_enabled && not (is_empty (strip c.regex_pattern))
    then elim (t.search c.regex_pattern text) [
      | none ↦ true
      | some matched ↦ (if c.regex_must_match then matched else not matched)
    ]
    else true

unfoldable pub matches_content_rules : TextTools → TextFilterConfig → Text → Bool
unfolding has_allowed_word matches_regex
matches_content_rules t c text =
    if c.allow_enabled
      && not (length c.allow_words == 0)
      && not (has_allowed_word t.casefold (t.casefold text) c.allow_words)
    then false
    else matches_regex t c text

-- the kinds of a message's entities that the filter knows
pub data EntityKind : Type 0 where
  url mention hashtag other_kind : EntityKind

pub record Entity : Type 0 where
  pub kind : EntityKind
  pub offset : ℕ
  pub size : ℕ

unfoldable pub should_drop_entity : TextFilterConfig → Entity → Bool
should_drop_entity c e = elim e.kind [
  | url ↦ c.remove_links
  | mention ↦ c.remove_mentions
  | hashtag ↦ c.remove_hashtags
  | other_kind ↦ false
]

-- One entity is cut out, if it lies in the text, and a space put in its place.
unfoldable pub cut_entity : Text → Entity → Text
cut_entity sur e =
    let end_ = e.offset + e.size in
    if ltb (length sur) end_ || leb end_ e.offset
    then sur
    else take e.offset sur ++ (b' ' ∷ drop end_ sur)

unfoldable pub cut_entities : Text → List Entity → Text
unfolding cut_entity
cut_entities sur [] = sur
cut_entities sur (e ∷ es) = cut_entities (cut_entity sur e) es

-- An entity goes before those of a smaller offset, and keeps its place among equal ones.
unfoldable pub insert_last_first : Entity → List Entity → List Entity
insert_last_first e [] = e ∷ []
insert_last_first e (f ∷ fs) =
    let rest = insert_last_first e fs in if leb f.offset e.offset then e ∷ f ∷ fs else f ∷ rest

-- `sorted(targets, key=lambda e: e.offset, reverse=True)`
unfoldable pub last_first : List Entity → List Entity
unfolding insert_last_first
last_first [] = []
last_first (e ∷ es) = insert_last_first e (last_first es)

unfoldable pub strip_entities : TextTools → TextFilterConfig → List Entity → Text → Text
unfolding should_drop_entity cut_entities last_first
strip_entities t c es text =
    let targets = filter (should_drop_entity c) es in
    if length targets == 0
    then text
    else t.del_surrogate (cut_entities (t.add_surrogate text) (last_first targets))

-- `body.replace(src, dst)`, for a `src` that is not empty. The text behind a match is read on; the
-- number counts the characters of the match that are still to pass.
unfoldable pub replace_from : ℕ → Text → Text → Text → Text
unfolding starts_with
replace_from skip src dst [] = []
replace_from zero src dst (c ∷ text) =
    if starts_with src (c ∷ text)
    then dst ++ replace_from (length (drop 1 src)) src dst text
    else c ∷ replace_from zero src dst text
replace_from (suc skip) src dst (c ∷ text) = replace_from skip src dst text

unfoldable pub replace_links : Dict Text Text → Text → Text
unfolding replace_from is_empty
replace_links [] body = body
replace_links ((src, dst) ∷ d) body =
    replace_links d (if is_empty src then body else replace_from zero src dst body)

-- `"\n".join(parts)`
unfoldable pub join_lines : List Text → Text
join_lines [] = []
join_lines (p ∷ []) = p
join_lines (p ∷ q ∷ ps) = p ++ (10 ∷ join_lines (q ∷ ps))

-- a part that is left out where it is empty
unfoldable pub part : Text → Text → List Text
part [] shown = []
part (c ∷ text) shown = shown ∷ []

unfoldable pub when_set : Bool → (Text → Text) → Text → Text
when_set b f text = if b then f text else text

unfoldable pub collapse : TextTools → Text → Text
unfolding strip join_lines
collapse t body = strip (join_lines (map strip (t.splitlines (t.sub_newlines (t.sub_spaces body)))))

unfoldable pub apply_text_filter : TextTools → TextFilterConfig → List Entity → Text → Text
unfolding strip_entities replace_links join_lines part when_set collapse rstrip lstrip strip
apply_text_filter t c es text =
    if not c.enabled && length c.link_replacements == 0
    then text
    else let replaced = replace_links c.link_replacements (strip_entities t c es text) in
      let unlinked = when_set c.remove_links t.sub_links replaced in
      let unmentioned = when_set c.remove_mentions t.sub_mentions unlinked in
      let untagged = when_set c.remove_hashtags t.sub_hashtags unmentioned in
      let bare = when_set c.remove_ids t.sub_ids untagged in
      let body = when_set c.collapse_whitespace (collapse t) bare in
      strip (
        join_lines
          (part c.prefix (rstrip c.prefix) ++ (part body body ++ part c.suffix (lstrip c.suffix))))
