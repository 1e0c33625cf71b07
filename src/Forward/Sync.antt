-- ===== src/Forward/Sync.antt =====
-- modules/channel_forward/module.py, `_on_message_edited` and `_on_message_deleted`: what happens to the
-- copies of a message. Whether Telegram deletes a copy is an argument, by the destination and the
-- copy's id; the requests to edit are listed.
pub mod Deleted
use telegram_auto.Prelude.{
  ℕ, ◌≡◌, refl, sym, ap, ◌∙◌, Bool, true, false, not, ◌&&◌, ◌||◌, Option, none, some, List, [], ◌∷◌,
  Text, ◌==◌, nat_eq, text_eq, if◌then◌else◌, filter, any, contains, arith, Bool-cases,
  Option-cases, inl, inr,
}
use telegram_auto.Prelude.Dict
use telegram_auto.Forward.State.{
  StateFile, bucket, dest_for_source, remove_from, remove_mapping, dest_for_source-remove_mapping,
}
use telegram_auto.Forward.Filters.{TextTools, is_active, apply_text_filter}
use telegram_auto.Forward.Delivery.{Message, Route}

-- a route with the flags of its delivery
pub record SyncRoute : Type 0 where
  pub route : Route
  pub sync_edits : Bool
  pub sync_deletes : Bool

-- the route in the loop over the deleted ids: the mapping goes once the copy is deleted
unfoldable pub delete_copy : (ℕ → ℕ → Bool) → SyncRoute → ℕ → StateFile → StateFile
unfolding dest_for_source remove_mapping
delete_copy deletes r id f =
    if not r.sync_deletes then f else elim (dest_for_source f r.route.route_key id) [
      | none ↦ f
      | some dest ↦
          if deletes r.route.dest_id dest then remove_mapping f r.route.route_key id else f
    ]

unfoldable pub delete_copies : (ℕ → ℕ → Bool) → List SyncRoute → ℕ → StateFile → StateFile
unfolding delete_copy
delete_copies deletes [] id f = f
delete_copies deletes (r ∷ routes) id f =
    delete_copies deletes routes id (delete_copy deletes r id f)

unfoldable pub delete_all : (ℕ → ℕ → Bool) → List SyncRoute → List ℕ → StateFile → StateFile
unfolding delete_copies
delete_all deletes routes [] f = f
delete_all deletes routes (id ∷ ids) f =
    delete_all deletes routes ids (delete_copies deletes routes id f)

unfoldable pub routes_from : List SyncRoute → ℕ → List SyncRoute
unfolding filter nat_eq
routes_from routes chat = filter (λ r. r.route.source_id == chat) routes

-- `_on_message_deleted`
unfoldable pub on_message_deleted :
    (ℕ → ℕ → Bool) → Bool → List SyncRoute → Option ℕ → List ℕ → StateFile → StateFile
unfolding delete_all routes_from
on_message_deleted deletes dry_run routes chat_id deleted_ids f = elim chat_id [
  | none ↦ f
  | some chat ↦ if dry_run then f else delete_all deletes (routes_from routes chat) deleted_ids f
]

-- `apply_text_filter_safe`
unfoldable pub apply_text_filter_safe : TextTools → Message → Route → Text
unfolding is_active apply_text_filter
apply_text_filter_safe t m r =
    if is_active r.text_filter then apply_text_filter t r.text_filter m.entities m.text else m.text

-- a request to edit a copy: the destination, the copy and its new text
abbrev pub Edit : Type 0
Edit = ℕ × ℕ × Text

unfoldable pub edits_for : TextTools → Message → List SyncRoute → StateFile → List Edit
unfolding apply_text_filter_safe dest_for_source
edits_for t m [] f = []
edits_for t m (r ∷ routes) f =
    let rest = edits_for t m routes f in
    if not r.sync_edits then rest else elim (dest_for_source f r.route.route_key m.id) [
      | none ↦ rest
      | some dest ↦ (r.route.dest_id, dest, apply_text_filter_safe t m r.route) ∷ rest
    ]

-- `_on_message_edited`
unfoldable pub on_message_edited :
    TextTools → Bool → List SyncRoute → Option ℕ → Message → StateFile → List Edit
unfolding edits_for routes_from
on_message_edited t dry_run routes chat_id m f = elim chat_id [
  | none ↦ []
  | some chat ↦ if dry_run then [] else edits_for t m (routes_from routes chat) f
]
