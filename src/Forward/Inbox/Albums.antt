-- ===== src/Forward/Inbox/Albums.antt =====
-- A message of an album between its arrival and the timer
-- (modules/channel_forward/module.py).
use telegram_auto.Prelude.{
  ℕ, ◌≡◌, refl, sym, ap, ◌∙◌, Bool, true, false, not, ◌&&◌, ◌||◌, Option, none, some, List, [], ◌∷◌,
  ◌++◌, ◌==◌, nat_eq, if◌then◌else◌, length, filter, any, any-append, arith, Bool-cases, inl, inr,
}
use mathlib.Core.Path.{subst}
use telegram_auto.Prelude.Dict
use telegram_auto.Forward.Delivery.{Route}
use telegram_auto.Forward.Catchup.{Post, post_id, index_by_id, values_of, is_sibling}
use telegram_auto.Forward.Catchup.Batches.{
  has_id, has_id-values_of, has_key-index_by_id, index_by_id-Keyed, has_id-filter, any-sort_by,
}
use telegram_auto.Forward.Inbox.{
  key_eq, Inbox, Arrival, Event, arrived, timer, buffer_at, add_to_album, hand_on, receive,
  is_wanted, handle_new, complete_album, flush_album, step, run,
}

kept_here :
    (before there handed same found : Bool)
    → (before || handed) ≡ true
    → before ≡ there
    → same ≡ true
    → (not there || found) ≡ true
    → (buffer last : Bool) → last ≡ (handed || (same && found))
    → (buffer || last) ≡ true
kept_here before there handed same found h e s f buffer last g = ground (arith, h, e, s, f, g)

kept_there :
    (before handed more : Bool)
    → (before || handed) ≡ true
    → (buffer last : Bool) → buffer ≡ before
    → last ≡ (handed || more)
    → (buffer || last) ≡ true
kept_there before handed more h buffer last e g = ground (arith, h, e, g)

-- what `handle_new` does for a chat
abbrev handle_at : Bool → List Route → Arrival → Inbox → Option ℕ → Inbox
handle_at skip routes a s o = elim o [
  | none ↦ s
  | some chat ↦ if is_wanted skip routes a chat then receive chat a.post s else s
]

module _ (k : ℕ) where
  has_id_none : (ms : List Post) → (length ms == 0) ≡ true → has_id k ms ≡ false
  unfolding any
  has_id_none [] h = refl
  has_id_none (m ∷ ms) h = absurd (ground arith)

  has_id-nonzero :
      (ms : List Post)
      → (k == 0) ≡ false
      → any (λ m. not (post_id m == 0) && post_id m == k) ms ≡ has_id k ms
  unfolding any
  has_id-nonzero [] h = refl
  has_id-nonzero (m ∷ ms) h = ground (arith, has_id-nonzero ms h)

  has_key-pos : (d : Dict.Dict ℕ Post) → Dict.has_key k d ≡ true → (length d == 0) ≡ false
  unfolding Dict.has_key
  has_key-pos [] h = cc
  has_key-pos (e ∷ d) h = ground arith

  -- The completed album has the messages that were collected.
  has_id-complete_album :
      (gid : ℕ) (messages : List Post) (siblings : Option (List Post))
      → (k == 0) ≡ false
      → has_id k messages ≡ true
      → has_id k (complete_album gid messages siblings) ≡ true
  unfolding complete_album Dict.has_key filter
  has_id-complete_album gid messages siblings n h =
      let nonzero = filter (λ m. not (post_id m == 0)) messages in
      let known = index_by_id nonzero [] in
      let found : List Post = elim siblings [ none ↦ [] | some ms ↦ filter (is_sibling gid) ms ] in
      let keyed = index_by_id-Keyed k found known (index_by_id-Keyed k nonzero [] tt) in
      let there : Dict.has_key k known ≡ true =
        has_key-index_by_id k nonzero []
        ∙ has_id-filter k (λ m. not (post_id m == 0)) messages
        ∙ has_id-nonzero messages n
        ∙ h in
      rw (has_key-pos known there) (
        any-sort_by (λ m. post_id m == k) (values_of (index_by_id found known))
        ∙ has_id-values_of k (index_by_id found known) keyed
        ∙ has_key-index_by_id k found known
        ∙ ground (arith, there))

  module _ (chat gid : ℕ) where
    -- whether a message of the id is in the album's buffer, or was handed on
    abbrev handed_on : Inbox → Bool
    handed_on s = any (λ b. b.0 == chat && has_id k b.1) s.handed

    abbrev is_kept : Inbox → Bool
    is_kept s = has_id k (buffer_at chat gid s) || handed_on s

    handed-hand_on :
        (c : ℕ) (batch : List Post) (s : Inbox)
        → handed_on (hand_on c batch s) ≡ (handed_on s || (c == chat && has_id k batch))
    unfolding hand_on any
    handed-hand_on c batch s =
        any-append (λ b. b.0 == chat && has_id k b.1) s.handed ((c, batch) ∷ []) ∙ ground arith

    abbrev buffer_or : Option (List Post) → List Post
    buffer_or o = elim o [ none ↦ [] | some buf ↦ buf ]

    abbrev is_key : ℕ → ℕ → Bool
    is_key c g = ◌==◌ {A = ℕ × ℕ} (chat, gid) (c, g)

    buffer_at-key :
        (c g : ℕ) (s : Inbox)
        → is_key c g ≡ true
        → has_id k (buffer_at chat gid s) ≡ has_id k (buffer_at c g s)
    unfolding buffer_at
    buffer_at-key c g s e =
        let p : Path (ℕ × ℕ) (chat, gid) (c, g) = ground (arith, e) in
        ap (λ (key : ℕ × ℕ). has_id k (buffer_or (Dict.lookup key s.buffers))) p

    is_key-chat : (c g : ℕ) → is_key c g ≡ true → (c == chat) ≡ true
    unfolding nat_eq
    is_key-chat c g e =
        let p : Path (ℕ × ℕ) (chat, gid) (c, g) = ground (arith, e) in
        let q : chat ≡ c = ap (λ (key : ℕ × ℕ). key.0) p in ground (arith, q)

    buffer_at-insert :
        (c g : ℕ) (more : List Post) (s : Inbox)
        → has_id k (buffer_at chat gid (record s { buffers = Dict.insert (c, g) more s.buffers }))
          ≡ (if is_key c g then has_id k more else has_id k (buffer_at chat gid s))
    unfolding buffer_at
    buffer_at-insert c g more s =
        ground (arith, Dict.lookup-insert (chat, gid) (c, g) more s.buffers)

    buffer_at-erase :
        (c g : ℕ) (s : Inbox)
        → has_id k (buffer_at chat gid (record s { buffers = Dict.erase (c, g) s.buffers }))
          ≡ (if is_key c g then false else has_id k (buffer_at chat gid s))
    unfolding buffer_at any
    buffer_at-erase c g s = ground (arith, Dict.lookup-erase (chat, gid) (c, g) s.buffers)

    -- An album's buffer with one message more.
    abbrev with_post : Post → List Post → List Post
    with_post m buf = if any (λ x. post_id x == post_id m) buf then buf else buf ++ m ∷ []

    has_id-with_post :
        (m : Post) (buf : List Post)
        → (not (has_id k buf || post_id m == k) || has_id k (with_post m buf)) ≡ true
    unfolding any
    has_id-with_post m buf = elim (Bool-cases (post_id m == k)) [
      | inl new ↦
          let e : post_id m ≡ k = ground (arith, new) in
          subst (λ n. (not (has_id n buf || post_id m == n) || has_id n (with_post m buf)) ≡ true) e
            (ground (arith, any-append (λ x. post_id x == post_id m) buf (m ∷ [])))
      | inr old ↦ ground (arith, old, any-append (λ x. post_id x == k) buf (m ∷ []))
    ]

    kept-add_to_album :
        (c : ℕ) (m : Post) (s : Inbox) → is_kept s ≡ true → is_kept (add_to_album c m s) ≡ true
    unfolding add_to_album
    kept-add_to_album c m s h =
        let buf = buffer_at c m.grouped_id s in
        let more = with_post m buf in
        elim (Bool-cases (is_key c m.grouped_id)) [
          | inl same ↦ ground (
            arith,
            h,
            same,
            buffer_at-insert c m.grouped_id more s,
            has_id-with_post m buf,
            buffer_at-key c m.grouped_id s same,
          )
          | inr other ↦ ground (arith, h, other, buffer_at-insert c m.grouped_id more s)
        ]

    handed-flush_album :
        (c g : ℕ) (siblings : Option (List Post)) (s : Inbox)
        → handed_on (flush_album c g siblings s)
          ≡ (handed_on s || (c == chat && has_id k (complete_album g (buffer_at c g s) siblings)))
    unfolding flush_album
    handed-flush_album c g siblings s =
        let popped : Inbox = record s { buffers = Dict.erase (c, g) s.buffers } in
        let messages = complete_album g (buffer_at c g s) siblings in
        elim (Bool-cases (length messages == 0)) [
          | inl gone ↦ rw gone (ground (arith, has_id_none messages gone))
          | inr some_ ↦ rw some_ (handed-hand_on c messages popped)
        ]

    buffer_at-flush_album :
        (c g : ℕ) (siblings : Option (List Post)) (s : Inbox)
        → has_id k (buffer_at chat gid (flush_album c g siblings s))
          ≡ (if is_key c g then false else has_id k (buffer_at chat gid s))
    unfolding flush_album hand_on
    buffer_at-flush_album c g siblings s =
        let messages = complete_album g (buffer_at c g s) siblings in
        elim (Bool-cases (length messages == 0)) [
          | inl gone ↦ rw gone (buffer_at-erase c g s)
          | inr some_ ↦ rw some_ (buffer_at-erase c g s)
        ]

    completed :
        (c g : ℕ) (siblings : Option (List Post)) (s : Inbox)
        → (k == 0) ≡ false
        → (not (has_id k (buffer_at c g s))
            || has_id k (complete_album g (buffer_at c g s) siblings))
          ≡ true
    completed c g siblings s n = elim (Bool-cases (has_id k (buffer_at c g s))) [
      | inl there ↦ ground (arith, has_id-complete_album g (buffer_at c g s) siblings n there)
      | inr not_ ↦ ground (arith, not_)
    ]

    kept-flush_album :
        (c g : ℕ) (siblings : Option (List Post)) (s : Inbox)
        → (k == 0) ≡ false
        → is_kept s ≡ true
        → is_kept (flush_album c g siblings s) ≡ true
    kept-flush_album c g siblings s n h = elim (Bool-cases (is_key c g)) [
      | inl same ↦
          kept_here (has_id k (buffer_at chat gid s)) (has_id k (buffer_at c g s)) (handed_on s)
            (c == chat) (has_id k (complete_album g (buffer_at c g s) siblings)) h
            (buffer_at-key c g s same) (is_key-chat c g same) (completed c g siblings s n)
            (has_id k (buffer_at chat gid (flush_album c g siblings s)))
            (handed_on (flush_album c g siblings s)) (handed-flush_album c g siblings s)
      | inr other ↦
          kept_there (has_id k (buffer_at chat gid s)) (handed_on s)
            (c == chat && has_id k (complete_album g (buffer_at c g s) siblings)) h
            (has_id k (buffer_at chat gid (flush_album c g siblings s)))
            (handed_on (flush_album c g siblings s))
            (buffer_at-flush_album c g siblings s ∙ rw other refl)
            (handed-flush_album c g siblings s)
    ]

    -- The timer of an album hands on what was collected of it.
    hands-flush_album :
        (siblings : Option (List Post)) (s : Inbox)
        → (k == 0) ≡ false
        → is_kept s ≡ true
        → handed_on (flush_album chat gid siblings s) ≡ true
    unfolding nat_eq
    hands-flush_album siblings s n h =
        ground (arith, h, completed chat gid siblings s n, handed-flush_album chat gid siblings s)

    buffer_at-hand_on :
        (c : ℕ) (batch : List Post) (s : Inbox)
        → has_id k (buffer_at chat gid (hand_on c batch s)) ≡ has_id k (buffer_at chat gid s)
    unfolding hand_on buffer_at
    buffer_at-hand_on c batch s = refl

    kept-hand_on :
        (c : ℕ) (batch : List Post) (s : Inbox)
        → is_kept s ≡ true
        → is_kept (hand_on c batch s) ≡ true
    kept-hand_on c batch s h =
        kept_there (has_id k (buffer_at chat gid s)) (handed_on s) (c == chat && has_id k batch) h
          (has_id k (buffer_at chat gid (hand_on c batch s))) (handed_on (hand_on c batch s))
          (buffer_at-hand_on c batch s) (handed-hand_on c batch s)

    kept-receive :
        (c : ℕ) (m : Post) (s : Inbox) → is_kept s ≡ true → is_kept (receive c m s) ≡ true
    unfolding receive
    kept-receive c m s h = elim (Bool-cases (m.grouped_id == 0)) [
      | inl single ↦ simp single (kept-hand_on c (m ∷ []) s h)
      | inr album ↦ simp album (kept-add_to_album c m s h)
    ]

    kept-handle_at :
        (skip : Bool) (routes : List Route) (a : Arrival) (s : Inbox) (o : Option ℕ)
        → is_kept s ≡ true
        → is_kept (handle_at skip routes a s o) ≡ true
    kept-handle_at skip routes a s none h = h
    kept-handle_at skip routes a s (some c) h = elim (Bool-cases (is_wanted skip routes a c)) [
      | inl wanted ↦ rw wanted (kept-receive c a.post s h)
      | inr not_ ↦ rw not_ h
    ]

    kept-handle_new :
        (skip : Bool) (routes : List Route) (a : Arrival) (s : Inbox)
        → is_kept s ≡ true
        → is_kept (handle_new skip routes a s) ≡ true
    unfolding handle_new
    kept-handle_new skip routes a s h = kept-handle_at skip routes a s a.chat_id h

    kept-step :
        (skip : Bool) (routes : List Route) (x : Event) (s : Inbox)
        → (k == 0) ≡ false
        → is_kept s ≡ true
        → is_kept (step skip routes x s) ≡ true
    unfolding step
    kept-step skip routes (arrived a) s n h = kept-handle_new skip routes a s h
    kept-step skip routes (timer c g siblings) s n h = kept-flush_album c g siblings s n h

    kept-run :
        (skip : Bool) (routes : List Route) (events : List Event) (s : Inbox)
        → (k == 0) ≡ false
        → is_kept s ≡ true
        → is_kept (run skip routes events s) ≡ true
    unfolding run
    kept-run skip routes [] s n h = h
    kept-run skip routes (x ∷ events) s n h =
        kept-run skip routes events (step skip routes x s) n (kept-step skip routes x s n h)

run-append :
    (skip : Bool) (routes : List Route) (xs ys : List Event) (s : Inbox)
    → run skip routes (xs ++ ys) s ≡ run skip routes ys (run skip routes xs s)
unfolding run
run-append skip routes [] ys s = refl
run-append skip routes (x ∷ xs) ys s = run-append skip routes xs ys (step skip routes x s)

kept-new :
    (chat : ℕ) (m : Post) (s : Inbox)
    → is_kept (post_id m) chat m.grouped_id (add_to_album chat m s) ≡ true
unfolding add_to_album nat_eq
kept-new chat m s =
    let k = post_id m in
    let gid = m.grouped_id in
    let buf = buffer_at chat gid s in
    let more = with_post k chat gid m buf in
    let here : is_key k chat gid chat gid ≡ true = ground arith in
    ground
      (arith, here, buffer_at-insert k chat gid chat gid more s, has_id-with_post k chat gid m buf)

-- A message of an album that arrives is in the album's buffer.
kept_arrival :
    (skip : Bool) (routes : List Route) (a : Arrival) (chat : ℕ) (s : Inbox)
    → a.chat_id ≡ some chat
    → is_wanted skip routes a chat ≡ true
    → (a.post.grouped_id == 0) ≡ false
    → is_kept (post_id a.post) chat a.post.grouped_id (step skip routes (arrived a) s) ≡ true
unfolding step handle_new receive
kept_arrival skip routes a chat s here wanted album =
    let k = post_id a.post in
    let gid = a.post.grouped_id in
    let e : receive chat a.post s ≡ handle_new skip routes a s =
      rw wanted refl ∙ ap (handle_at skip routes a s) (sym here) in
    subst (λ (u : Inbox). is_kept k chat gid u ≡ true) e (simp album (kept-new chat a.post s))

-- A message of an album that arrives in a chat with routes, is no service message, is not skipped as
-- silent and has an id is handed on once the timer of its album has fired after it, whatever else
-- arrives before and between, and whatever the client answers to the requests for siblings.
pub handed-run :
    (skip : Bool) (routes : List Route) (before after : List Event) (a : Arrival) (chat : ℕ)
    (siblings : Option (List Post)) (s : Inbox)
    → a.chat_id ≡ some chat
    → is_wanted skip routes a chat ≡ true
    → (a.post.grouped_id == 0) ≡ false
    → (post_id a.post == 0) ≡ false
    → any
        (λ b. b.0 == chat && any (λ m. post_id m == post_id a.post) b.1)
        (run skip routes
          (before ++ (arrived a ∷ (after ++ timer chat a.post.grouped_id siblings ∷ [])))
          s).handed
      ≡ true
unfolding run
handed-run skip routes before after a chat siblings s here wanted album n =
    let k = post_id a.post in
    let gid = a.post.grouped_id in
    let met = run skip routes before s in
    let later = run skip routes after (step skip routes (arrived a) met) in
    let kept =
      kept-run k chat gid skip routes after (step skip routes (arrived a) met) n
        (kept_arrival skip routes a chat met here wanted album) in
    let split =
      run-append skip routes before (arrived a ∷ after ++ timer chat gid siblings ∷ []) s
      ∙ run-append skip routes after (timer chat gid siblings ∷ [])
          (step skip routes (arrived a) met) in
    subst (λ (u : Inbox). handed_on k chat gid u ≡ true) (sym split)
      (hands-flush_album k chat gid siblings later n kept)
