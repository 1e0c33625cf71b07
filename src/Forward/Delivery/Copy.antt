-- ===== src/Forward/Delivery/Copy.antt =====
-- modules/channel_forward/delivery.py: what `_deliver` asks of Telegram, with the text and the
-- captions that it sends. Texts are counted in characters. The buttons are left out.
use telegram_auto.Prelude.{
  ℕ, ◌-◌, ◌≤◌, ◌≡◌, refl, sym, ap, ◌∙◌, Bool, true, false, not, ◌&&◌, ◌||◌, none, some, List, [],
  ◌∷◌, ◌++◌, Text, codes, arith, leb, ◌==◌, nat_eq, text_eq, if◌then◌else◌, inl, inr, Bool-cases,
  length, length-append, take, find?, length-take-le,
}
use telegram_auto.Prelude.Strip.{strip, lstrip, is_empty}
use telegram_auto.Prelude.Search.{rstrip, length-rstrip-le}
use telegram_auto.Forward.Filters.{TextTools, is_active, join_lines, part, apply_text_filter}
use telegram_auto.Forward.Media.{Content, no_media, media}
use telegram_auto.Forward.Delivery.{Message, Route}

-- `text[: limit - 1].rstrip() + "…"`
unfoldable pub clip_telegram_text : Text → ℕ → Text
unfolding rstrip
clip_telegram_text text limit =
    if is_empty text || leb (length text) limit
    then text
    else if leb limit 1
    then take limit text
    else rstrip (take (limit - 1) text) ++ (0x2026 ∷ [])

-- A clipped text is no longer than the limit, and one within the limit is left as it is.
pub length-clip_telegram_text :
    (text : Text) (limit : ℕ)
    → (length (clip_telegram_text text limit) ≤ limit)
      × (length text ≤ limit → clip_telegram_text text limit ≡ text)
unfolding clip_telegram_text is_empty
length-clip_telegram_text [] limit = (omega arith, λ h. refl)
length-clip_telegram_text (c ∷ text) limit =
    let short = take (limit - 1) (c ∷ text) in
    (
      ground (
        arith,
        length-take-le limit (c ∷ text),
        length-take-le (limit - 1) (c ∷ text),
        length-rstrip-le short,
        length-append (rstrip short) (0x2026 ∷ []),
      ),
      λ h. ground arith,
    )

-- `MEDIA_CAPTION_LIMIT` and `TEXT_MESSAGE_LIMIT`
abbrev pub media_caption_limit : ℕ
media_caption_limit = 1_024

abbrev pub text_message_limit : ℕ
text_message_limit = 4_096

-- what is asked of Telegram: to forward the messages, to send a text, to send the media with a
-- caption, and with a shorter one should it be too long, or nothing
pub data Request : Type 0 where
  forward_messages : Request
  send_message : Text → Request
  send_file : (caption shorter : Text) → Request
  no_request : Request

abbrev has_media : Content → Bool
has_media no_media = false
has_media (media m) = true

unfoldable pub use_filter : Route → Bool
unfolding is_active
use_filter r =
    is_active r.text_filter || not (is_empty r.media_prefix) || not (is_empty r.media_suffix)

-- the message whose text becomes the caption
unfoldable pub caption_source : Message → List Message → Message
unfolding strip
caption_source first rest = elim (find? (λ m. not (is_empty (strip m.text))) (first ∷ rest)) [
  | none ↦ first
  | some m ↦ m
]

-- `raw_text`, with the route's texts around it where media are sent
unfoldable pub raw_text : Route → Message → List Message → Text
unfolding caption_source rstrip lstrip strip part join_lines
raw_text r first rest =
    let text = (caption_source first rest).text in
    let with_media = has_media first.content || not (length rest == 0) in
    if with_media && (not (is_empty r.media_prefix) || not (is_empty r.media_suffix))
    then strip (
        join_lines (
          part r.media_prefix (rstrip r.media_prefix)
          ++ (part text text ++ part r.media_suffix (lstrip r.media_suffix))))
    else text

unfoldable pub sent_text : TextTools → Route → Message → List Message → Text
unfolding raw_text use_filter apply_text_filter caption_source
sent_text t r first rest =
    let raw = raw_text r first rest in
    if use_filter r
    then apply_text_filter t r.text_filter (caption_source first rest).entities raw
    else raw

-- the request for a copied message without media
unfoldable pub text_request : Bool → Text → Text → Request
text_request filtered [] raw = if not filtered then send_message raw else no_request
text_request filtered (c ∷ text) raw = send_message (c ∷ text)

unfoldable pub file_request : Text → Request
unfolding clip_telegram_text
file_request text =
    let caption = clip_telegram_text text media_caption_limit in
    send_file caption (clip_telegram_text caption (media_caption_limit - 64))

-- the call of the client in `_deliver`
unfoldable pub request : TextTools → Route → Message → List Message → Request
unfolding use_filter raw_text sent_text clip_telegram_text text_request file_request
request t r first rest =
    let text = sent_text t r first rest in
    if r.mode == codes "copy" || use_filter r
    then (if length rest == 0 && not (has_media first.content)
        then text_request (use_filter r) (clip_telegram_text text text_message_limit)
            (raw_text r first rest)
        else file_request text)
    else forward_messages

-- A request is within Telegram's limits.
abbrev pub WithinLimits : Request → Type 0
WithinLimits forward_messages = Unit
WithinLimits (send_message text) = length text ≤ text_message_limit
WithinLimits (send_file caption shorter) =
    (length caption ≤ media_caption_limit) × (length shorter ≤ media_caption_limit - 64)
WithinLimits no_request = Unit

clip_telegram_text-empty :
    (text : Text) → clip_telegram_text text text_message_limit ≡ [] → length text ≡ 0
unfolding clip_telegram_text is_empty
clip_telegram_text-empty [] = λ h. refl
clip_telegram_text-empty (c ∷ text) =
    elim (Bool-cases (leb (length (c ∷ text)) text_message_limit)) [
      | inl short ↦ rw short (λ h. ap length h)
      | inr long ↦ rw long (λ h.
          let short = rstrip (take (text_message_limit - 1) (c ∷ text)) in
          omega (arith, length-append short (0x2026 ∷ []), ap length h))
    ]

text_request-WithinLimits :
    (filtered : Bool) (text raw : Text)
    → length text ≤ text_message_limit
    → (filtered ≡ false → text ≡ [] → length raw ≡ 0)
    → WithinLimits (text_request filtered text raw)
unfolding text_request
text_request-WithinLimits false [] raw h same = omega (arith, same refl refl)
text_request-WithinLimits true [] raw h same = tt
text_request-WithinLimits filtered (c ∷ text) raw h same = h

sent_text-unfiltered :
    (t : TextTools) (r : Route) (first : Message) (rest : List Message)
    → use_filter r ≡ false
    → sent_text t r first rest ≡ raw_text r first rest
unfolding sent_text
sent_text-unfiltered t r first rest h = rw (h, sent_text) refl

-- Whatever a route's filter makes of a post, and whatever it puts around it: a text that is sent has
-- at most 4096 characters, a caption at most 1024, and the caption of the second attempt at most
-- 960.
pub request-WithinLimits :
    (t : TextTools) (r : Route) (first : Message) (rest : List Message)
    → WithinLimits (request t r first rest)
unfolding request file_request
request-WithinLimits t r first rest =
    let text = sent_text t r first rest in
    let caption = clip_telegram_text text media_caption_limit in
    let clipped = clip_telegram_text text text_message_limit in
    let file : WithinLimits (file_request text) = (
      (length-clip_telegram_text text media_caption_limit).0,
      (length-clip_telegram_text caption (media_caption_limit - 64)).0,
    ) in
    let message =
      text_request-WithinLimits (use_filter r) clipped (raw_text r first rest)
        (length-clip_telegram_text text text_message_limit).0
        (λ plain none_left.
          ap length (sym (sent_text-unfiltered t r first rest plain))
          ∙ clip_telegram_text-empty text none_left) in
    elim (Bool-cases (r.mode == codes "copy" || use_filter r)) [
      | inl copied ↦ elim (Bool-cases (length rest == 0 && not (has_media first.content))) [
        | inl single ↦ rw (copied, single) message
        | inr several ↦ rw (copied, several) file
      ]
      | inr forwarded ↦ rw forwarded tt
    ]
