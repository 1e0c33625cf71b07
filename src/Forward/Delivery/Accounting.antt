-- ===== src/Forward/Delivery/Accounting.antt =====
-- The daily count of a destination over the processing of a post
-- (modules/channel_forward/delivery.py).
use telegram_auto.Prelude.{
  ℕ, ◌+◌, ◌<◌, ◌≡◌, refl, sym, ap, ◌∙◌, Bool, true, false, not, ◌&&◌, ◌||◌, Option, none, some,
  List, [], ◌∷◌, arith, ltb, leb, ltb→lt, ◌==◌, nat_eq, text_eq, if◌then◌else◌, inl, inr,
  Bool-cases,
}
use mathlib.Core.Path.{subst}
use telegram_auto.Prelude.Dict
use telegram_auto.Forward.Quota.{QuotaFile, Result, ok, reload, count, at_limit, refund}
use telegram_auto.Forward.Quota.Pruning.{IsCurrent}
use telegram_auto.Forward.Quota.Counts.{try_consume_lem}
use telegram_auto.Forward.Quota.Refund.{count-refund, refund-IsCurrent}
use telegram_auto.Forward.Schedule.{is_open}
use telegram_auto.Forward.Filters.{TextTools}
use telegram_auto.Forward.Delivery.{
  Message, Engine, Answer, returned, schedule_error, Call, deliver, is_delivered, daily_cap_reached,
  skip_daily_cap, remember_post, deliver_counted, deliver_consumed, consume_and_deliver,
  publish_capped, publish, enqueue, at_window, schedule, accepts, is_repeat, process_messages,
}

quota-remember_post :
    (c : Call) (m : Message) (a : Answer) (e : Engine) → (remember_post c m a e).quota ≡ e.quota
unfolding remember_post
quota-remember_post c m a e = ground arith

-- the cap of the route, and the count of its destination on a day
abbrev pub limit_of : Call → ℕ
limit_of c = c.route.schedule.max_posts_per_day

abbrev pub counted : Call → Engine → Result ℕ
counted c e = count e.quota c.route.dest_key c.begins.day

-- No day of the destination lies after the day of the call.
abbrev pub Current : Call → Engine → Type 0
Current c e = IsCurrent c.begins.day (Dict.lookup c.route.dest_key (reload e.quota))

-- The count is one more after a delivery, which was below the cap, and as before in any other case.
abbrev pub Counts : Call → ℕ → Answer × Engine → Type 0
Counts c k r =
    (counted c r.1 ≡ ok (if is_delivered r.0 then k + 1 else k))
    × (is_delivered r.0 && leb (limit_of c) k ≡ false)
    × Current c r.1

module _ (c : Call) (k : ℕ) (same_day : c.ends.day ≡ c.begins.day) where
  deliver_counted-Counts :
      (first : Message) (rest : List Message) (q : QuotaFile) (e : Engine)
      → IsCurrent c.begins.day (Dict.lookup c.route.dest_key (reload q))
      → count q c.route.dest_key c.begins.day ≡ ok (k + 1)
      → k < limit_of c
      → Counts c k (deliver_counted c first rest q e)
  unfolding deliver_counted
  deliver_counted-Counts first rest q e h n lt =
      let (answer, f) = deliver c.route.route_key first rest c.attempt e.state in
      let key = c.route.dest_key in
      let kept : QuotaFile = if is_delivered answer then q else refund q key c.ends.day in
      let given_back : count (refund q key c.ends.day) key c.begins.day ≡ ok k =
        subst (λ d. count (refund q key d) key c.begins.day ≡ ok k) (sym same_day)
          (count-refund q key c.begins.day (k + 1) h n ∙ ap ok (omega arith)) in
      (
        ap (λ x. count x key c.begins.day)
              (quota-remember_post c first answer (record e { state = f; quota = kept }))
            ∙ ground (arith, given_back),
        ground arith,
        subst (λ x. IsCurrent c.begins.day (Dict.lookup key (reload x)))
            (sym (quota-remember_post c first answer (record e { state = f; quota = kept })))
            (elim (is_delivered answer)
              as (λ b.
                IsCurrent c.begins.day
                  (Dict.lookup key (reload (if b then q else refund q key c.ends.day)))) [
                    | true ↦ h
                    | false ↦
                        subst
                          (λ d. IsCurrent c.begins.day (Dict.lookup key (reload (refund q key d))))
                          (sym same_day) (refund-IsCurrent q key c.begins.day h)
                  ]),
      )

  nothing-Counts :
      (e : Engine) (b : Answer)
      → is_delivered b ≡ false
      → counted c e ≡ ok k
      → Current c e
      → Counts c k (b, e)
  nothing-Counts e b not_sent n h = (n ∙ ground (arith, not_sent), ground arith, h)

  skip-Counts :
      (ms : List Message) (e : Engine)
      → counted c e ≡ ok k
      → Current c e
      → Counts c k (returned false, skip_daily_cap c.route ms e)
  unfolding skip_daily_cap
  skip-Counts ms e n h = (n, ground arith, h)

  module _ (pos : 0 < limit_of c) (first : Message) (rest : List Message) (e : Engine)
      (h : Current c e) (n : counted c e ≡ ok k) (wet : c.dry_run ≡ false) where
    consume_and_deliver-Counts : Counts c k (consume_and_deliver c first rest e)
    unfolding consume_and_deliver deliver_consumed
    consume_and_deliver-Counts =
        let key = c.route.dest_key in
        let (q, r, m, o, w) = try_consume_lem e.quota key (limit_of c) c.begins.day k h pos n in
        let some_limit : (limit_of c == 0) ≡ false = ground arith in
        elim (Bool-cases (ltb k (limit_of c))) [
          | inl low ↦
              let taken = r ∙ ap (λ b. ok (b, q)) low in
              let one_more : count q key c.begins.day ≡ ok (k + 1) = m ∙ ground (arith, low) in
              rw (some_limit, taken)
                (deliver_counted-Counts first rest q e w one_more (ltb→lt k (limit_of c) low))
          | inr full ↦
              let refused = r ∙ ap (λ b. ok (b, q)) full in
              rw (some_limit, refused) (skip-Counts (first ∷ rest) e n h)
        ]

    daily_cap_reached_lem : daily_cap_reached c.route c.begins.day e ≡ ok (leb (limit_of c) k)
    unfolding daily_cap_reached at_limit
    daily_cap_reached_lem =
        let some_limit : (limit_of c == 0) ≡ false = ground arith in rw (some_limit, n) refl

    publish-Counts : Counts c k (publish c first rest e)
    unfolding publish publish_capped
    publish-Counts =
        let at_cap : Bool → Type 0 = λ b. Counts c k (publish_capped c first rest e (ok b)) in
        let judged : at_cap (leb (limit_of c) k) = elim (leb (limit_of c) k) as at_cap [
          | true ↦ skip-Counts (first ∷ rest) e n h
          | false ↦ simp wet consume_and_deliver-Counts
        ] in
        subst (λ r. Counts c k (publish_capped c first rest e r)) (sym daily_cap_reached_lem) judged

    at_window-Counts : (o : Option Bool) → Counts c k (at_window c first rest e o)
    unfolding at_window enqueue
    at_window-Counts none = nothing-Counts e schedule_error refl n h
    at_window-Counts (some open_now) = elim (Bool-cases (not open_now && not c.from_queue)) [
      | inl closed ↦ rw closed (n, ground arith, h)
      | inr free ↦ rw free publish-Counts
    ]

    schedule-Counts : Counts c k (schedule c first rest e)
    unfolding schedule
    schedule-Counts = elim (Bool-cases (not c.route.schedule.enabled)) [
      | inl free ↦ rw free publish-Counts
      | inr timed ↦
          rw timed (at_window-Counts (is_open c.route.schedule c.begins.weekday c.begins.time))
    ]

  -- Where the route has a daily cap, it is no dry run, no day of the destination lies after this
  -- one and the processing ends on the day on which it began: whatever the filters, the schedule,
  -- the duplicates and Telegram say, exceptions included, the destination's count is one more if
  -- the post was delivered, which happens below the cap only, and is as before if it was not; and
  -- still no day of the destination lies after this one.
  pub process_messages-Counts :
      (t : TextTools) (ms : List Message) (e : Engine)
      → 0 < limit_of c
      → c.dry_run ≡ false
      → IsCurrent c.begins.day (Dict.lookup c.route.dest_key (reload e.quota))
      → counted c e ≡ ok k
      → Counts c k (process_messages t c ms e)
  unfolding process_messages
  process_messages-Counts t [] e pos wet h n = nothing-Counts e (returned false) refl n h
  process_messages-Counts t (first ∷ rest) e pos wet h n =
      elim (Bool-cases (c.route.paused || not (accepts t c.route first) || is_repeat c first e)) [
        | inl refused ↦ rw refused (nothing-Counts e (returned false) refl n h)
        | inr passed ↦ rw passed (schedule-Counts pos first rest e h n wet)
      ]
