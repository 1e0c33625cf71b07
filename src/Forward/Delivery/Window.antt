-- ===== src/Forward/Delivery/Window.antt =====
-- A post that comes again within the window of the fingerprints, with other posts between
-- (modules/channel_forward/delivery.py and dedup.py).
use telegram_auto.Prelude.{
  ℕ, zero, suc, ◌+◌, ◌-◌, ◌≤◌, ◌<◌, ◌≡◌, refl, sym, ap, ◌∙◌, Bool, true, false, not, ◌&&◌, ◌||◌,
  List, [], ◌∷◌, ◌++◌, Text, arith, ◌==◌, nat_eq, text_eq, if◌then◌else◌, inl, inr, ◌⊎◌, Bool-cases,
  none, some, length, drop, last_n, last_n-append, length-last_n-le, length-append, length-drop,
  drop-append, any, any-append,
}
use mathlib.Core.Path.{subst}
use telegram_auto.Forward.Quota.{QuotaFile, Result, ok, attribute_error, refund, try_consume}
use telegram_auto.Forward.Dedup.{Entry, window, is_match, is_fresh, remember, is_duplicate_lem}
use telegram_auto.Forward.Schedule.{is_open}
use telegram_auto.Forward.Filters.{TextTools}
use telegram_auto.Forward.Delivery.{
  Message, Engine, Answer, returned, Call, deliver, is_delivered, daily_cap_reached, remember_post,
  deliver_counted, deliver_free, deliver_consumed, consume_and_deliver, publish_capped, publish,
  at_window, schedule, accepts, is_repeat, process_messages,
}
use telegram_auto.Forward.Delivery.Capped.{deliveries}
use telegram_auto.Forward.Delivery.Repeats.{process_messages-Recorded, refuses-repeat}

-- The engine's fingerprints stay, or one is remembered.
abbrev Remembers : Engine → Engine → Type 0
Remembers e after =
    (after.dedup ≡ e.dedup) ⊎ ((x : Entry) × (after.dedup ≡ last_n 2000 (e.dedup ++ x ∷ [])))

module _ (c : Call) (first : Message) (rest : List Message) (e : Engine) where
  remember_post-Remembers :
      (a : Answer) (e' : Engine) → e'.dedup ≡ e.dedup → Remembers e (remember_post c first a e')
  unfolding remember_post remember
  remember_post-Remembers a e' same =
      let x : Entry = record {
        route_key = c.route.route_key;
        fp = first.fingerprint;
        at = some c.ends.now;
      } in
      elim (Bool-cases (is_delivered a && c.route.dedup_enabled)) [
        | inl on ↦ rw on (inr (x, ap (λ d. last_n 2000 (d ++ x ∷ [])) same))
        | inr off ↦ rw off (inl same)
      ]

  deliver_consumed-Remembers :
      (r : Result (Bool × QuotaFile)) → Remembers e (deliver_consumed c first rest e r).1
  unfolding deliver_consumed deliver_counted
  deliver_consumed-Remembers attribute_error = inl refl
  deliver_consumed-Remembers (ok (false, q)) = inl refl
  deliver_consumed-Remembers (ok (true, q)) =
      let (answer, f) = deliver c.route.route_key first rest c.attempt e.state in
      remember_post-Remembers answer
        (record e {
          state = f;
          quota = if is_delivered answer then q else refund q c.route.dest_key c.ends.day;
        })
        refl

  deliver_free-Remembers : Remembers e (deliver_free c first rest e).1
  unfolding deliver_free
  deliver_free-Remembers =
      let (answer, f) = deliver c.route.route_key first rest c.attempt e.state in
      remember_post-Remembers answer (record e { state = f }) refl

  consume_and_deliver-Remembers : Remembers e (consume_and_deliver c first rest e).1
  unfolding consume_and_deliver
  consume_and_deliver-Remembers =
      let limit = c.route.schedule.max_posts_per_day in
      elim (Bool-cases (limit == 0)) [
        | inl free ↦ rw free deliver_free-Remembers
        | inr capped ↦
            rw capped
              (deliver_consumed-Remembers (try_consume e.quota c.route.dest_key limit c.begins.day))
      ]

  publish_capped-Remembers : (r : Result Bool) → Remembers e (publish_capped c first rest e r).1
  unfolding publish_capped
  publish_capped-Remembers attribute_error = inl refl
  publish_capped-Remembers (ok true) = inl refl
  publish_capped-Remembers (ok false) = elim (Bool-cases c.dry_run) [
    | inl dry ↦ rw dry (inl refl)
    | inr wet ↦ simp wet consume_and_deliver-Remembers
  ]

  publish-Remembers : Remembers e (publish c first rest e).1
  unfolding publish
  publish-Remembers = publish_capped-Remembers (daily_cap_reached c.route c.begins.day e)

  schedule-Remembers : Remembers e (schedule c first rest e).1
  unfolding schedule at_window
  schedule-Remembers = elim (Bool-cases (not c.route.schedule.enabled)) [
    | inl free ↦ rw free publish-Remembers
    | inr timed ↦
        rw timed
          (elim (is_open c.route.schedule c.begins.weekday c.begins.time)
            as (λ o. Remembers e (at_window c first rest e o).1) [
              | none ↦ inl refl
              | some open_now ↦ elim (Bool-cases (not open_now && not c.from_queue)) [
                | inl closed ↦ rw closed (inl refl)
                | inr free ↦ rw free publish-Remembers
              ]
            ])
  ]

process_messages-Remembers :
    (t : TextTools) (c : Call) (ms : List Message) (e : Engine)
    → Remembers e (process_messages t c ms e).1
unfolding process_messages
process_messages-Remembers t c [] e = inl refl
process_messages-Remembers t c (first ∷ rest) e =
    elim (Bool-cases (c.route.paused || not (accepts t c.route first) || is_repeat c first e)) [
      | inl refused ↦ rw refused (inl refl)
      | inr passed ↦ rw passed (schedule-Remembers c first rest e)
    ]

drop_nil : (n : ℕ) → drop {A = Entry} n [] ≡ []
drop_nil zero = refl
drop_nil (suc n) = refl

drop-drop : (a b : ℕ) (xs : List Entry) → drop a (drop b xs) ≡ drop (b + a) xs
drop-drop a zero xs = ap (λ n. drop n xs) (omega arith)
drop-drop a (suc b) [] = drop_nil a ∙ sym (drop_nil (suc b + a))
drop-drop a (suc b) (x ∷ xs) =
    let e : suc (b + a) ≡ suc b + a = omega arith in drop-drop a b xs ∙ ap (λ n. drop n (x ∷ xs)) e

any-drop : (p : Entry → Bool) (n : ℕ) (xs : List Entry) → any p (drop n xs) ≡ true → any p xs ≡ true
unfolding any
any-drop p zero xs h = h
any-drop p (suc n) [] h = h
any-drop p (suc n) (x ∷ xs) h = ground (arith, any-drop p n xs h)

-- Of a file within its bound, one of the last entries, a number of them and one more, passes a test.
record Kept (p : Entry → Bool) (k : ℕ) (xs : List Entry) : Type 0 where
  recent : any p (last_n (suc k) xs) ≡ true
  bound : length xs ≤ 2000

-- Fewer are cut where more are kept.
any-last_n :
    (p : Entry → Bool) (k : ℕ) (xs : List Entry)
    → any p (last_n (suc k) xs) ≡ true
    → any p (last_n (suc (suc k)) xs) ≡ true
unfolding last_n
any-last_n p k xs h =
    let n = length xs - suc (suc k) in
    let more = length xs - suc k - n in
    let e : n + more ≡ length xs - suc k = omega arith in
    any-drop p more (drop n xs) (ap (any p) (drop-drop more n xs ∙ ap (λ i. drop i xs) e) ∙ h)

-- An entry that is remembered pushes the others back by one.
last_n-remembered :
    (k : ℕ) (xs : List Entry) (x : Entry)
    → suc (suc k) ≤ 2000
    → last_n (suc (suc k)) (last_n 2000 (xs ++ x ∷ [])) ≡ last_n (suc k) xs ++ x ∷ []
unfolding last_n
last_n-remembered k xs x h =
    let ys = xs ++ x ∷ [] in
    let d = length ys - 2000 in
    let n = length (drop d ys) - suc (suc k) in
    let size = length-append xs (x ∷ []) in
    let e : d + n ≡ length xs - suc k = omega (arith, size, length-drop d ys) in
    drop-drop n d ys
    ∙ ap (λ i. drop i ys) e
    ∙ drop-append (length xs - suc k) xs (x ∷ []) (omega arith)

remembered-Kept :
    (p : Entry → Bool) (xs : List Entry) (x : Entry)
    → p x ≡ true
    → Kept p 0 (last_n 2000 (xs ++ x ∷ []))
unfolding any
remembered-Kept p xs x h =
    let (zs, cut) = last_n-append 1999 xs x in
    let (ws, cut') = last_n-append 0 zs x in
    record {
      recent =
          ap (λ l. any p (last_n 1 l)) cut
          ∙ ap (any p) cut'
          ∙ any-append p ws (x ∷ [])
          ∙ ground arith;
      bound = length-last_n-le 2000 (xs ++ x ∷ []);
    }

process_messages-Kept :
    (t : TextTools) (c : Call) (ms : List Message) (e : Engine) (p : Entry → Bool) (k : ℕ)
    → suc (suc k) ≤ 2000
    → Kept p k e.dedup
    → Kept p (suc k) (process_messages t c ms e).1.dedup
process_messages-Kept t c ms e p k few h = elim (process_messages-Remembers t c ms e) [
  | inl same ↦
      subst (Kept p (suc k)) (sym same)
        (record { recent = any-last_n p k e.dedup h.recent; bound = h.bound })
  | inr (x, added) ↦ subst (Kept p (suc k)) (sym added) (record {
    recent =
        ap (any p) (last_n-remembered k e.dedup x few)
        ∙ any-append p (last_n (suc k) e.dedup) (x ∷ [])
        ∙ ground (arith, h.recent);
    bound = length-last_n-le 2000 (e.dedup ++ x ∷ []);
  })
]

deliveries-Kept :
    (t : TextTools) (p : Entry → Bool) (posts : List (Call × List Message)) (e : Engine) (k : ℕ)
    → k + length posts < 2000
    → Kept p k e.dedup
    → Kept p (k + length posts) (deliveries t posts e).1.dedup
unfolding deliveries
deliveries-Kept t p [] e k few h = subst (λ n. Kept p n e.dedup) (omega arith) h
deliveries-Kept t p ((c, ms) ∷ posts) e k few h =
    let after = (process_messages t c ms e).1 in
    subst (λ n. Kept p n (deliveries t posts after).1.dedup) (omega arith)
      (deliveries-Kept t p posts after (suc k) (omega arith)
        (process_messages-Kept t c ms e p k (omega arith) h))

Kept-any : (p : Entry → Bool) (k : ℕ) (xs : List Entry) → Kept p k xs → any p xs ≡ true
unfolding last_n
Kept-any p k xs h = any-drop p (length xs - suc k) xs h.recent

is_repeat-Kept :
    (c : Call) (m : Message) (e : Engine) (k : ℕ)
    → c.route.dedup_enabled ≡ true
    → Kept
        (λ x.
          is_match c.route.route_key m.fingerprint x
          && is_fresh c.route.window_hours c.begins.now x)
        k
        e.dedup
    → is_repeat c m e ≡ true
unfolding is_repeat
is_repeat-Kept c m e k on h =
    let p : Entry → Bool = λ x.
      is_match c.route.route_key m.fingerprint x && is_fresh c.route.window_hours c.begins.now x in
    ground (
      arith,
      on,
      is_duplicate_lem c.route.route_key m.fingerprint c.route.window_hours c.begins.now e.dedup
          h.bound,
      Kept-any p k e.dedup h,
    )

own_entry :
    (key fp : Text) (hours now later : ℕ)
    → later ≤ now + window hours
    → (is_match key fp (record { route_key = key; fp = fp; at = some now })
        && is_fresh hours later (record { route_key = key; fp = fp; at = some now }))
      ≡ true
unfolding is_match is_fresh
own_entry key fp hours now later h = ground arith

-- Once a post is delivered, in no dry run, on a route that looks for duplicates, and after any other
-- posts, on any routes and fewer than 2000, messages of which the first has the same fingerprint are
-- not delivered, queued or recorded on that route until the window after the delivery is over: the
-- engine stays as it is.
pub process_messages-again :
    (t : TextTools) (c again : Call) (first copy : Message) (rest others : List Message)
    (between : List (Call × List Message)) (e : Engine)
    → c.dry_run ≡ false
    → c.route.dedup_enabled ≡ true
    → is_delivered (process_messages t c (first ∷ rest) e).0 ≡ true
    → length between < 2000
    → again.route ≡ c.route
    → copy.fingerprint ≡ first.fingerprint
    → again.begins.now ≤ c.ends.now + window c.route.window_hours
    → let after = (deliveries t between (process_messages t c (first ∷ rest) e).1).1 in
      process_messages t again (copy ∷ others) after ≡ (returned false, after)
unfolding remember
process_messages-again t c again first copy rest others between e wet on d few route same in_time =
    let one = (process_messages t c (first ∷ rest) e).1 in
    let after = (deliveries t between one).1 in
    let key = c.route.route_key in
    let hours = c.route.window_hours in
    let p : Entry → Bool =
      λ x. is_match key first.fingerprint x && is_fresh hours again.begins.now x in
    let x : Entry = record { route_key = key; fp = first.fingerprint; at = some c.ends.now } in
    let stored : one.dedup ≡ last_n 2000 (e.dedup ++ x ∷ []) =
      (process_messages-Recorded c first rest e wet t d).remembered ∙ rw on refl in
    let fresh = own_entry key first.fingerprint hours c.ends.now again.begins.now in_time in
    let kept = subst (Kept p 0) (sym stored) (remembered-Kept p e.dedup x fresh) in
    let last : Kept p (length between) after.dedup =
      subst (λ n. Kept p n after.dedup) (omega arith)
        (deliveries-Kept t p between one 0 (omega arith) kept) in
    let (on', last') =
      subst
        (λ r.
          (r.dedup_enabled ≡ true)
          × Kept
              (λ x.
                is_match r.route_key copy.fingerprint x
                && is_fresh r.window_hours again.begins.now x)
              (length between) after.dedup)
        (sym route)
        (
          on,
          subst
              (λ fp.
                Kept (λ x. is_match key fp x && is_fresh hours again.begins.now x) (length between)
                  after.dedup)
              (sym same) last,
        ) in
    refuses-repeat t again copy others after
      (is_repeat-Kept again copy after (length between) on' last')
