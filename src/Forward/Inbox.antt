-- ===== src/Forward/Inbox.antt =====
-- modules/channel_forward/module.py, `_handle_new`, `_complete_album` and `_flush_album_later`: the new
-- messages and the albums that are collected until their timer fires. Events come in any order; what
-- arrives while an album's siblings are requested counts as later. What the client answers to that
-- request is an argument, `none` for an exception.
pub mod Albums
use telegram_auto.Prelude.{
  ℕ, Bool, true, false, not, ◌&&◌, ◌||◌, Option, none, some, List, [], ◌∷◌, ◌++◌, ◌==◌, nat_eq, Eq,
  if◌then◌else◌, length, filter, any,
}
use native.Mathlib.Decide.{ℕ_discrete}
use telegram_auto.Prelude.Dict
use telegram_auto.Prelude.Dict.{Dict}
use telegram_auto.Prelude.Sort.{sort_by}
use telegram_auto.Forward.Delivery.{Route}
use telegram_auto.Forward.Catchup.{Post, post_id, index_by_id, values_of, is_sibling}

-- the chat and the album
abbrev pub Key : Type 0
Key = ℕ × ℕ

Key-discrete : Discrete (ℕ × ℕ)
Key-discrete = hlevel (ℕ_discrete, ℕ_discrete)

instance unfoldable pub key_eq : Eq (ℕ × ℕ)
unfolding Key-discrete ℕ_discrete
key_eq = record { dec = Key-discrete }

-- `_album_buffers`, and what was handed to `_deliver_to_routes`: the chats with the messages
pub record Inbox : Type 0 where
  pub buffers : Dict (ℕ × ℕ) (List Post)
  pub handed : List (ℕ × List Post)

pub record Arrival : Type 0 where
  pub post : Post
  pub silent : Bool
  pub chat_id : Option ℕ

pub data Event : Type 0 where
  arrived : Arrival → Event
  timer : (chat_id grouped_id : ℕ) → (siblings : Option (List Post)) → Event

-- the routes of a chat that do not lead back to it
unfoldable pub routes_for : List Route → ℕ → List Route
unfolding filter nat_eq
routes_for routes chat = filter (λ r. r.source_id == chat && not (r.dest_id == chat)) routes

unfoldable pub buffer_at : ℕ → ℕ → Inbox → List Post
unfolding Dict.lookup key_eq
buffer_at chat gid s = elim (Dict.lookup (chat, gid) s.buffers) [ none ↦ [] | some buf ↦ buf ]

unfoldable pub add_to_album : ℕ → Post → Inbox → Inbox
unfolding buffer_at Dict.insert any
add_to_album chat m s =
    let buf = buffer_at chat m.grouped_id s in
    let more = if any (λ x. post_id x == post_id m) buf then buf else buf ++ m ∷ [] in
    record s { buffers = Dict.insert (chat, m.grouped_id) more s.buffers }

unfoldable pub hand_on : ℕ → List Post → Inbox → Inbox
hand_on chat batch s = record s { handed = s.handed ++ (chat, batch) ∷ [] }

unfoldable pub receive : ℕ → Post → Inbox → Inbox
unfolding add_to_album hand_on nat_eq
receive chat m s = if m.grouped_id == 0 then hand_on chat (m ∷ []) s else add_to_album chat m s

-- the guards of `_handle_new`
unfoldable pub is_wanted : Bool → List Route → Arrival → ℕ → Bool
unfolding routes_for
is_wanted skip_silent routes a chat =
    not a.post.is_action
    && not (skip_silent && a.silent)
    && not (length (routes_for routes chat) == 0)

unfoldable pub handle_new : Bool → List Route → Arrival → Inbox → Inbox
unfolding is_wanted receive
handle_new skip_silent routes a s = elim a.chat_id [
  | none ↦ s
  | some chat ↦ if is_wanted skip_silent routes a chat then receive chat a.post s else s
]

unfoldable pub complete_album : ℕ → List Post → Option (List Post) → List Post
unfolding index_by_id is_sibling sort_by
complete_album gid messages siblings =
    let known = index_by_id (filter (λ m. not (post_id m == 0)) messages) [] in
    let found : List Post = elim siblings [ none ↦ [] | some ms ↦ filter (is_sibling gid) ms ] in
    if length known == 0 then [] else sort_by post_id (values_of (index_by_id found known))

-- `_flush_album_later`, from the end of the wait on
unfoldable pub flush_album : ℕ → ℕ → Option (List Post) → Inbox → Inbox
unfolding buffer_at complete_album hand_on Dict.erase key_eq
flush_album chat gid siblings s =
    let popped = record s { buffers = Dict.erase (chat, gid) s.buffers } in
    let messages = complete_album gid (buffer_at chat gid s) siblings in
    if length messages == 0 then popped else hand_on chat messages popped

unfoldable pub step : Bool → List Route → Event → Inbox → Inbox
unfolding handle_new flush_album
step skip_silent routes (arrived a) s = handle_new skip_silent routes a s
step skip_silent routes (timer chat gid siblings) s = flush_album chat gid siblings s

unfoldable pub run : Bool → List Route → List Event → Inbox → Inbox
unfolding step
run skip_silent routes [] s = s
run skip_silent routes (x ∷ events) s = run skip_silent routes events (step skip_silent routes x s)
