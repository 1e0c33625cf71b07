-- ===== src/Forward/Sync/Deleted.antt =====
-- The mappings that are left after a deletion in the source
-- (modules/channel_forward/module.py, `_on_message_deleted`).
use telegram_auto.Prelude.{
  ℕ, ◌≡◌, refl, sym, ap, ◌∙◌, Bool, true, false, not, ◌&&◌, ◌||◌, Option, none, some, List, [], ◌∷◌,
  Text, ◌==◌, nat_eq, text_eq, if◌then◌else◌, any, contains, arith, Bool-cases, inl, inr,
}
use telegram_auto.Prelude.Dict
use telegram_auto.Forward.State.{
  StateFile, bucket, dest_for_source, remove_from, remove_mapping, dest_for_source-remove_mapping,
}
use telegram_auto.Forward.Sync.{
  SyncRoute, delete_copy, delete_copies, delete_all, routes_from, on_message_deleted,
}

lookup-remove_other :
    (f : StateFile) (route other : Text) (id : ℕ) (d : Dict.Dict ℕ ℕ)
    → (other == route) ≡ false
    → Dict.lookup other (remove_from f route id d).mappings ≡ Dict.lookup other f.mappings
unfolding remove_from
lookup-remove_other f route other id [] ne = refl
lookup-remove_other f route other id (x ∷ d) ne =
    ground (arith, ne, Dict.lookup-insert other route (Dict.erase id (x ∷ d)) f.mappings)

abbrev bucket_or : Option (Dict.Dict ℕ ℕ) → Dict.Dict ℕ ℕ
bucket_or o = elim o [ none ↦ [] | some d ↦ d ]

dest_for_source-remove_other :
    (f : StateFile) (route other : Text) (id i : ℕ)
    → (other == route) ≡ false
    → dest_for_source (remove_mapping f route id) other i ≡ dest_for_source f other i
unfolding remove_mapping dest_for_source bucket
dest_for_source-remove_other f route other id i ne =
    ap (λ o. Dict.lookup i (bucket_or o)) (lookup-remove_other f route other id (bucket f route) ne)

-- a copy that stays unless the test holds of it
abbrev pub unless : (ℕ → Bool) → Option ℕ → Option ℕ
unless gone none = none
unless gone (some x) = if gone x then none else some x

unless_twice : (p q : ℕ → Bool) (o : Option ℕ) → unless q (unless p o) ≡ unless (λ x. p x || q x) o
unless_twice p q none = refl
unless_twice p q (some x) = ground arith

unless-ext : (p q : ℕ → Bool) (o : Option ℕ) → ((x : ℕ) → p x ≡ q x) → unless p o ≡ unless q o
unless-ext p q none h = refl
unless-ext p q (some x) h = ground (arith, h x)

unless-false : (p : ℕ → Bool) (o : Option ℕ) → ((x : ℕ) → p x ≡ false) → unless p o ≡ o
unless-false p none h = refl
unless-false p (some x) h = ground (arith, h x)

unless_never : (o : Option ℕ) → unless (λ x. false) o ≡ o
unless_never none = refl
unless_never (some x) = refl

module _ (deletes : ℕ → ℕ → Bool) (key : Text) where
  -- whether a route's deletion reaches a copy of the key
  unfoldable pub reaches : ℕ → SyncRoute → Bool
  unfolding text_eq
  reaches dest r = r.sync_deletes && (key == r.route.route_key && deletes r.route.dest_id dest)

  -- the copy of a message on a route, and what becomes of it
  abbrev copy_at : Text → ℕ → Bool → ℕ → Option ℕ → StateFile → StateFile
  copy_at route to sync id o f = if not sync then f else elim o [
    | none ↦ f
    | some dest ↦ if deletes to dest then remove_mapping f route id else f
  ]

  found_at :
      (id i : ℕ) (f : StateFile) (o : Option ℕ)
      → (i == id) ≡ true
      → dest_for_source f key id ≡ o
      → dest_for_source f key i ≡ o
  found_at id i f o same e =
      let p : i ≡ id = ground (arith, same) in ap (dest_for_source f key) p ∙ e

  reached_at :
      (to : ℕ) (sync : Bool) (id i : ℕ) (f : StateFile) (o : Option ℕ)
      → dest_for_source f key id ≡ o
      → dest_for_source (copy_at key to sync id o f) key i
        ≡ unless (λ x. i == id && (sync && deletes to x)) (dest_for_source f key i)
  reached_at to false id i f o e = sym (
      unless-false (λ x. i == id && (false && deletes to x)) (dest_for_source f key i)
        (λ x. ground arith))
  reached_at to true id i f none e = elim (Bool-cases (i == id)) [
    | inl same ↦
        let gone : dest_for_source f key i ≡ none = found_at id i f none same e in
        gone ∙ ap (unless (λ x. i == id && (true && deletes to x))) (sym gone)
    | inr other ↦ sym (
        unless-false (λ x. i == id && (true && deletes to x)) (dest_for_source f key i)
          (λ x. ground (arith, other)))
  ]
  reached_at to true id i f (some dest) e =
      let p = λ (x : ℕ). i == id && (true && deletes to x) in
      elim (Bool-cases (i == id)) [
        | inl same ↦
            let found : dest_for_source f key i ≡ some dest = found_at id i f (some dest) same e in
            elim (Bool-cases (deletes to dest)) [
              | inl yes_ ↦ rw yes_ (
                  dest_for_source-remove_mapping f key id i
                  ∙ ground (arith, same, yes_)
                  ∙ ap (unless p) (sym found))
              | inr no_ ↦ rw no_ (found ∙ ground (arith, no_) ∙ ap (unless p) (sym found))
            ]
        | inr other ↦
            let stays = unless-false p (dest_for_source f key i) (λ x. ground (arith, other)) in
            elim (Bool-cases (deletes to dest)) [
              | inl yes_ ↦
                  rw yes_
                    (dest_for_source-remove_mapping f key id i ∙ ground (arith, other) ∙ sym stays)
              | inr no_ ↦ rw no_ (sym stays)
            ]
      ]

  other_at :
      (route : Text) (to : ℕ) (sync : Bool) (id i : ℕ) (f : StateFile) (o : Option ℕ)
      → (key == route) ≡ false
      → dest_for_source (copy_at route to sync id o f) key i ≡ dest_for_source f key i
  other_at route to false id i f o ne = refl
  other_at route to true id i f none ne = refl
  other_at route to true id i f (some dest) ne = elim (Bool-cases (deletes to dest)) [
    | inl yes_ ↦ rw yes_ (dest_for_source-remove_other f route key id i ne)
    | inr no_ ↦ rw no_ refl
  ]

  deleted_at :
      (route : Text) (to : ℕ) (sync : Bool) (id i : ℕ) (f : StateFile) (o : Option ℕ)
      → dest_for_source f route id ≡ o
      → dest_for_source (copy_at route to sync id o f) key i
        ≡ unless
            (λ x. i == id && (sync && (key == route && deletes to x)))
            (dest_for_source f key i)
  deleted_at route to sync id i f o e = elim (Bool-cases (key == route)) [
    | inl same ↦
        let p : key ≡ route = ground (arith, same) in
        let here = reached_at to sync id i f o (ap (λ r. dest_for_source f r id) p ∙ e) in
        ap (λ r. dest_for_source (copy_at r to sync id o f) key i) (sym p)
        ∙ here
        ∙ unless-ext (λ x. i == id && (sync && deletes to x))
            (λ x. i == id && (sync && (key == route && deletes to x))) (dest_for_source f key i)
            (λ x. ground (arith, same))
    | inr other ↦
        other_at route to sync id i f o other
        ∙ sym (
            unless-false (λ x. i == id && (sync && (key == route && deletes to x)))
              (dest_for_source f key i) (λ x. ground (arith, other)))
  ]

  dest_for_source-delete_copy :
      (r : SyncRoute) (id i : ℕ) (f : StateFile)
      → dest_for_source (delete_copy deletes r id f) key i
        ≡ unless (λ x. i == id && reaches x r) (dest_for_source f key i)
  unfolding delete_copy reaches
  dest_for_source-delete_copy r id i f =
      deleted_at r.route.route_key r.route.dest_id r.sync_deletes id i f
        (dest_for_source f r.route.route_key id) refl

  dest_for_source-delete_copies :
      (routes : List SyncRoute) (id i : ℕ) (f : StateFile)
      → dest_for_source (delete_copies deletes routes id f) key i
        ≡ unless (λ x. i == id && any (reaches x) routes) (dest_for_source f key i)
  unfolding delete_copies any
  dest_for_source-delete_copies [] id i f =
      sym (unless_never (dest_for_source f key i))
      ∙ unless-ext (λ x. false) (λ x. i == id && any (reaches x) []) (dest_for_source f key i)
          (λ x. ground arith)
  dest_for_source-delete_copies (r ∷ routes) id i f =
      let o = dest_for_source f key i in
      let here = λ (x : ℕ). i == id && reaches x r in
      let later = λ (x : ℕ). i == id && any (reaches x) routes in
      dest_for_source-delete_copies routes id i (delete_copy deletes r id f)
      ∙ ap (unless later) (dest_for_source-delete_copy r id i f)
      ∙ unless_twice here later o
      ∙ unless-ext (λ x. here x || later x) (λ x. i == id && any (reaches x) (r ∷ routes)) o
          (λ x. ground arith)

  dest_for_source-delete_all :
      (routes : List SyncRoute) (ids : List ℕ) (i : ℕ) (f : StateFile)
      → dest_for_source (delete_all deletes routes ids f) key i
        ≡ unless (λ x. contains ids i && any (reaches x) routes) (dest_for_source f key i)
  unfolding delete_all contains
  dest_for_source-delete_all routes [] i f =
      sym (unless_never (dest_for_source f key i))
      ∙ unless-ext (λ x. false) (λ x. contains [] i && any (reaches x) routes)
          (dest_for_source f key i) (λ x. ground arith)
  dest_for_source-delete_all routes (id ∷ ids) i f =
      let o = dest_for_source f key i in
      let here = λ (x : ℕ). i == id && any (reaches x) routes in
      let later = λ (x : ℕ). contains ids i && any (reaches x) routes in
      dest_for_source-delete_all routes ids i (delete_copies deletes routes id f)
      ∙ ap (unless later) (dest_for_source-delete_copies routes id i f)
      ∙ unless_twice here later o
      ∙ unless-ext (λ x. here x || later x) (λ x. contains (id ∷ ids) i && any (reaches x) routes) o
          (λ x. ground arith)

  -- After a deletion in a chat, in no dry run, a message of a route has no copy any more if and only if
  -- it had none or its id is among the deleted ones, the route is from that chat and follows deletions,
  -- and Telegram deleted the copy; all other copies stay as they were recorded.
  pub dest_for_source-on_message_deleted :
      (routes : List SyncRoute) (chat : ℕ) (ids : List ℕ) (i : ℕ) (f : StateFile)
      → dest_for_source (on_message_deleted deletes false routes (some chat) ids f) key i
        ≡ unless
            (λ x. contains ids i && any (reaches x) (routes_from routes chat))
            (dest_for_source f key i)
  unfolding on_message_deleted
  dest_for_source-on_message_deleted routes chat ids i f =
      dest_for_source-delete_all (routes_from routes chat) ids i f
