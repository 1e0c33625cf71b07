-- ===== src/Ai/Provider.antt =====
-- app/cloudflare_ai/provider.py, `CloudflareAIProvider.chat`: the accounts are asked in turn until
-- one answers. The reply to the request of an attempt is an argument, read as `_post_json` reads it:
-- a transport error has the status 0. HTTP statuses have three digits. Usage counters and tool calls
-- are left out. As the service documents it, a body's "success" is a Boolean and its "result" an
-- object, or missing or null: another value under "result" would raise AttributeError.

pub mod Rotation
pub mod Answers
use telegram_auto.Prelude.{
  ℕ, zero, suc, ◌+◌, ◌-◌, ◌/◌, ◌%◌, ◌≤◌, Bool, true, false, not, ◌&&◌, ◌||◌, Option, none, some,
  List, [], ◌∷◌, ◌++◌, Text, codes, leb, ltb, ◌==◌, nat_eq, text_eq, if◌then◌else◌, length, any,
  get_elem?,
}
use telegram_auto.Prelude.Strip.{strip, is_empty}
use telegram_auto.Prelude.Parse.{lower}
use telegram_auto.Prelude.Search.{occurs_in}
use telegram_auto.Ai.Store.{Account, usable_accounts, mark_used}

-- `choices[0].message` of a result, its values as text
pub record AssistantMessage : Type 0 where
  pub content : Option Text
  pub reasoning_content : Option Text
  pub reasoning : Option Text

-- a body that is a JSON object and not empty
pub record Body : Type 0 where
  pub has_result : Bool
  -- the value under "success", if the key is there
  pub success : Option Bool
  -- the message of the first error, if there is one
  pub error_message : Option Text
  -- `str(body)`
  pub shown : Text
  -- the message of the result
  pub message : Option AssistantMessage

pub record Reply : Type 0 where
  pub status : ℕ
  pub body : Option Body
  pub raw : Text

-- what is made of a reply: an answer, a refusal of the response format, the next account, or the end
pub data Verdict : Type 0 where
  answers : Text → Verdict
  refuses_format : Text → Verdict
  rotates : (error : Text) (exhausted hit : Bool) → Verdict
  breaks : Text → Verdict

-- one value of the loop in `_extract_content`
unfoldable pub spoken : Option Text → Option Text
unfolding strip is_empty lower
spoken none = none
spoken (some value) =
    let text = strip value in
    if not (is_empty text) && not (lower text == codes "none") then some text else none

abbrev or_else : Option Text → Text → Text
or_else none text = text
or_else (some found) text = found

unfoldable pub extract_content : Option AssistantMessage → Text
unfolding spoken
extract_content none = []
extract_content (some m) =
    or_else (spoken m.content)
      (or_else (spoken m.reasoning_content) (or_else (spoken m.reasoning) []))

unfoldable pub extract_error : Body → Text
unfolding is_empty
extract_error b = elim b.error_message [
  | none ↦ b.shown
  | some message ↦ (if is_empty message then b.shown else message)
]

abbrev error_or_raw : Option Body → Text → Text
error_or_raw none raw = raw
error_or_raw (some b) raw = extract_error b

unfoldable pub is_json_mode_error : Option Body → Text → Bool
unfolding extract_error lower occurs_in any
is_json_mode_error body raw =
    any (λ marker. occurs_in marker (lower (error_or_raw body raw)))
      (codes "json mode" ∷ codes "json_schema" ∷ codes "response_format" ∷ codes "schema" ∷ [])

unfoldable pub is_quota_message : Option Text → Bool
unfolding lower occurs_in
is_quota_message none = false
is_quota_message (some message) =
    occurs_in (codes "neurons") (lower message)
    || occurs_in (codes "limit") (lower message)
    || occurs_in (codes "quota") (lower message)

abbrev is_failure : Option Bool → Bool
is_failure (some false) = true
is_failure _ = false

-- the tests of the body in `_should_rotate`
abbrev body_rotates : ℕ → Option Body → Bool
body_rotates status none = false
body_rotates status (some b) =
    (status == 400 && is_quota_message b.error_message) || is_failure b.success

unfoldable pub should_rotate : ℕ → Option Body → Bool
unfolding is_quota_message
should_rotate status body = status == 429 || body_rotates status body

-- `f"HTTP {status}"`
unfoldable pub http_text : ℕ → Text
http_text n = codes "HTTP " ++ (b'0' + n / 100) ∷ (b'0' + n / 10 % 10) ∷ (b'0' + n % 10) ∷ []

abbrev nonempty_or : Text → Text → Text
nonempty_or [] other = other
nonempty_or (c ∷ text) other = c ∷ text

-- `self._extract_error(body) if body else raw or f"HTTP {status}"`
unfoldable pub fault : Reply → Text
unfolding extract_error http_text
fault r = elim r.body [ none ↦ nonempty_or r.raw (http_text r.status) | some b ↦ extract_error b ]

-- a reply with the status 200 and a body
unfoldable pub judge_body : Bool → Body → Text → Verdict
unfolding extract_error is_json_mode_error extract_content
judge_body with_format b raw = elim b.success [
  | none ↦ answers (extract_content b.message)
  | some ok ↦
      (if b.has_result && not ok
        then if with_format && is_json_mode_error (some b) raw
          then refuses_format (extract_error b)
          else rotates (extract_error b) true false
        else answers (extract_content b.message))
]

-- any other reply
unfoldable pub judge_error : Bool → Reply → Verdict
unfolding extract_error is_json_mode_error should_rotate fault
judge_error with_format r =
    if with_format && is_json_mode_error r.body r.raw
    then refuses_format (fault r)
    else if r.status == 0
    then rotates (nonempty_or r.raw (codes "transport error")) false false
    else if should_rotate r.status r.body
    then rotates (error_or_raw r.body r.raw) true true
    else breaks (fault r)

-- The loop's body, up to what it does.
unfoldable pub judge : Bool → Reply → Verdict
unfolding judge_body judge_error
judge with_format r = elim r.body [
  | none ↦ judge_error with_format r
  | some b ↦ (if r.status == 200 then judge_body with_format b r.raw else judge_error with_format r)
]

-- how `chat` ends: with the content and the account's name, or with one of its errors
pub data Outcome : Type 0 where
  answered : (content account_name : Text) → Outcome
  no_accounts : Outcome
  format_unsupported : Text → Outcome
  request_failed : Text → Outcome
  no_response : Outcome
  quota_exhausted : Outcome
  index_error : Outcome

pub record Provider : Type 0 where
  pub current_idx : ℕ
  pub rows : List Account

-- the arguments of a call: the time and the reply of each attempt
pub record Chat : Type 0 where
  pub with_format : Bool
  pub clock : ℕ → ℕ
  pub reply : ℕ → Account → Reply

-- after the loop
abbrev give_up : ℕ → Outcome
give_up zero = no_response
give_up (suc hits) = quota_exhausted

-- The `while` loop, over the attempts that are left; `n` are made.
unfoldable pub chat_from :
    Chat → List Account → (left n idx hits : ℕ) → Provider → Outcome × Provider
chat_from c accounts zero n idx hits p = (give_up hits, p)
chat_from c accounts (suc left) n idx hits p = elim (get_elem? accounts idx) [
  | none ↦ (index_error, p)
  | some a ↦ elim (judge c.with_format (c.reply n a)) [
    | answers content ↦ (
      answered content a.name,
      record { current_idx = idx; rows = mark_used a.name [] false (c.clock n) p.rows },
    )
    | refuses_format error ↦ (format_unsupported error, p)
    | rotates error exhausted hit ↦
        chat_from c accounts left (suc n) ((idx + 1) % length accounts)
          (if hit then suc hits else hits)
          (record p { rows = mark_used a.name error exhausted (c.clock n) p.rows })
    | breaks error ↦
        (request_failed error, record p { rows = mark_used a.name error false (c.clock n) p.rows })
  ]
]

unfoldable pub start_index : ℕ → List Account → ℕ
start_index idx accounts = if leb (length accounts) idx then 0 else idx

unfoldable pub chat : Chat → ℕ → Provider → Outcome × Provider
unfolding start_index
chat c now p =
    let accounts = usable_accounts now p.rows in
    let idx = start_index p.current_idx accounts in
    if length accounts == 0
    then (no_accounts, p)
    else chat_from c accounts (length accounts) 0 idx 0 (record p { current_idx = idx })

-- the name of the current account in `status`, where the outer `none` is the index out of range
unfoldable pub current_account : ℕ → Provider → Option (Option Text)
unfolding usable_accounts
current_account now p =
    let accounts = usable_accounts now p.rows in
    if length accounts == 0
    then some none
    else elim (get_elem? accounts p.current_idx) [ none ↦ none | some a ↦ some (some a.name) ]
