-- ===== src/Forward/Media.antt =====
-- modules/channel_forward/media_filter.py: the kind of a message, and whether a route lets it pass.
-- The classes of Telegram's media and of a document's attributes are constructors.
use telegram_auto.Prelude.{
  Bool, true, false, not, ◌&&◌, ◌||◌, ◌≡◌, refl, List, [], ◌∷◌, ◌++◌, Text, codes, ◌==◌, nat_eq,
  text_eq, if◌then◌else◌, any, contains, length, arith,
}
use telegram_auto.Prelude.Strip.{strip, is_empty}
use telegram_auto.Prelude.Search.{starts_with}
use telegram_auto.Prelude.Parse.{lower}

pub data Attribute : Type 0 where
  animated : Attribute
  sticker : Attribute
  video : (round_message : Bool) → Attribute
  audio : (voice : Bool) → Attribute
  other_attribute : Attribute

pub data Media : Type 0 where
  photo : Media
  empty_document : Media
  document : (mime_type : Text) → List Attribute → Media
  poll : Media
  other_media : Media

-- `message.media`, or none of it
pub data Content : Type 0 where
  no_media : Content
  media : Media → Content

abbrev is_animated : Attribute → Bool
is_animated animated = true
is_animated _ = false

abbrev is_sticker : Attribute → Bool
is_sticker sticker = true
is_sticker _ = false

abbrev is_video : Attribute → Bool
is_video (video r) = true
is_video _ = false

abbrev is_round : Attribute → Bool
is_round (video r) = r
is_round _ = false

abbrev is_audio : Attribute → Bool
is_audio (audio v) = true
is_audio _ = false

abbrev is_voice : Attribute → Bool
is_voice (audio v) = v
is_voice _ = false

unfoldable pub mime_kind : Text → Text
unfolding starts_with
mime_kind mime =
    if starts_with (codes "video/") mime
    then codes "video"
    else if starts_with (codes "audio/") mime
    then codes "audio"
    else codes "document"

unfoldable pub video_kind : List Attribute → Text
unfolding any
video_kind attrs = if any is_round attrs then codes "video_note" else codes "video"

unfoldable pub audio_kind : List Attribute → Text
unfolding any
audio_kind attrs = if any is_voice attrs then codes "voice" else codes "audio"

-- the branch of a document
unfoldable pub document_kind : Text → List Attribute → Text
unfolding any mime_kind video_kind audio_kind
document_kind mime attrs =
    if any is_animated attrs
    then codes "animation"
    else if any is_sticker attrs
    then codes "sticker"
    else if any is_video attrs
    then video_kind attrs
    else if any is_audio attrs
    then audio_kind attrs
    else mime_kind mime

unfoldable pub detect_media_type : Text → Content → Text
unfolding document_kind strip is_empty
detect_media_type text no_media = if is_empty (strip text) then codes "other" else codes "text"
detect_media_type text (media photo) = codes "photo"
detect_media_type text (media empty_document) = codes "document"
detect_media_type text (media (document mime attrs)) = document_kind mime attrs
detect_media_type text (media poll) = codes "poll"
detect_media_type text (media other_media) = codes "other"

abbrev pub media_types : List Text
media_types =
    codes "text"
    ∷ codes "photo"
    ∷ codes "video"
    ∷ codes "document"
    ∷ codes "audio"
    ∷ codes "voice"
    ∷ codes "animation"
    ∷ codes "sticker"
    ∷ codes "video_note"
    ∷ codes "poll"
    ∷ codes "other"
    ∷ []

pub record MediaFilterConfig : Type 0 where
  pub enabled : Bool
  pub allow : List Text
  pub deny : List Text

-- the loop of `_clean_types`
unfoldable pub clean_types : List Text → List Text → List Text
unfolding lower strip contains
clean_types [] out = out
clean_types (item ∷ items) out =
    let key = lower (strip item) in
    clean_types items
      (if contains media_types key && not (contains out key) then out ++ key ∷ [] else out)

unfoldable pub allowed_kind : Text → MediaFilterConfig → Bool
unfolding contains
allowed_kind kind c =
    if contains c.deny kind
    then false
    else if length c.allow == 0
    then true
    else contains c.allow kind

unfoldable pub media_allowed : Text → Content → MediaFilterConfig → Bool
unfolding detect_media_type allowed_kind
media_allowed text content c =
    if not c.enabled then true else allowed_kind (detect_media_type text content) c

abbrev pub IsKnown : Text → Type 0
IsKnown kind = contains media_types kind ≡ true

either-IsKnown : (b : Bool) (x y : Text) → IsKnown x → IsKnown y → IsKnown (if b then x else y)
either-IsKnown true x y p q = p
either-IsKnown false x y p q = q

mime_kind-IsKnown : (mime : Text) → IsKnown (mime_kind mime)
unfolding mime_kind contains text_eq nat_eq
mime_kind-IsKnown mime =
    either-IsKnown (starts_with (codes "video/") mime) (codes "video")
      (if starts_with (codes "audio/") mime then codes "audio" else codes "document") refl
      (either-IsKnown (starts_with (codes "audio/") mime) (codes "audio") (codes "document") refl
        refl)

video_kind-IsKnown : (attrs : List Attribute) → IsKnown (video_kind attrs)
unfolding video_kind contains text_eq nat_eq
video_kind-IsKnown attrs =
    either-IsKnown (any is_round attrs) (codes "video_note") (codes "video") refl refl

audio_kind-IsKnown : (attrs : List Attribute) → IsKnown (audio_kind attrs)
unfolding audio_kind contains text_eq nat_eq
audio_kind-IsKnown attrs =
    either-IsKnown (any is_voice attrs) (codes "voice") (codes "audio") refl refl

document_kind-IsKnown : (mime : Text) (attrs : List Attribute) → IsKnown (document_kind mime attrs)
unfolding document_kind contains text_eq nat_eq
document_kind-IsKnown mime attrs =
    let sound : Text = if any is_audio attrs then audio_kind attrs else mime_kind mime in
    let moving : Text = if any is_video attrs then video_kind attrs else sound in
    let still : Text = if any is_sticker attrs then codes "sticker" else moving in
    let known_sound =
      either-IsKnown (any is_audio attrs) (audio_kind attrs) (mime_kind mime)
        (audio_kind-IsKnown attrs) (mime_kind-IsKnown mime) in
    let known_moving =
      either-IsKnown (any is_video attrs) (video_kind attrs) sound (video_kind-IsKnown attrs)
        known_sound in
    let known_still =
      either-IsKnown (any is_sticker attrs) (codes "sticker") moving refl known_moving in
    either-IsKnown (any is_animated attrs) (codes "animation") still refl known_still

-- Every message has one of the kinds that a filter can name.
pub detect_media_type-IsKnown :
    (text : Text) (content : Content) → contains media_types (detect_media_type text content) ≡ true
unfolding detect_media_type contains text_eq nat_eq
detect_media_type-IsKnown text no_media =
    either-IsKnown (is_empty (strip text)) (codes "other") (codes "text") refl refl
detect_media_type-IsKnown text (media photo) = refl
detect_media_type-IsKnown text (media empty_document) = refl
detect_media_type-IsKnown text (media (document mime attrs)) = document_kind-IsKnown mime attrs
detect_media_type-IsKnown text (media poll) = refl
detect_media_type-IsKnown text (media other_media) = refl

-- With a filter that is on, a message passes exactly if its kind is not denied and, where any kind is
-- listed as allowed, is one of these.
pub media_allowed_lem :
    (text : Text) (content : Content) (c : MediaFilterConfig)
    → media_allowed text content c ≡ (
        not c.enabled
        || (not (contains c.deny (detect_media_type text content))
            && (length c.allow == 0 || contains c.allow (detect_media_type text content))))
unfolding media_allowed allowed_kind
media_allowed_lem text content c = ground arith
