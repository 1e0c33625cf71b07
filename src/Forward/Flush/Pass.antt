-- ===== src/Forward/Flush/Pass.antt =====
-- modules/channel_forward/module.py, `_flush_queue_once` together with the engine that it calls. What
-- the pass finds for an item, up to the call of the engine, is an argument.
use telegram_auto.Prelude.{
  ℕ, ◌≡◌, refl, sym, ap, ◌∙◌, Bool, true, false, not, ◌&&◌, List, [], ◌∷◌, Text, arith, ◌==◌,
  nat_eq, text_eq, any, filter, All,
}
use mathlib.Core.Path.{subst}
use telegram_auto.Forward.Quota.{Result, ok, attribute_error}
use telegram_auto.Forward.Queue.{Item, pending, is_status, list_pending}
use telegram_auto.Forward.Queue.Ids.{IsValid}
use telegram_auto.Forward.Filters.{TextTools}
use telegram_auto.Forward.Delivery.{
  Message, Engine, Answer, returned, flood_wait, schedule_error, quota_error, Call,
  daily_cap_reached, process_messages,
}
use telegram_auto.Forward.Delivery.Queued.{process_messages-Keeps}
use telegram_auto.Forward.Flush.{Finding, processed, raised, flush_item}
use telegram_auto.Forward.Flush.Kept.{
  closes, flush_item-IsValid, filter-filter, filter-ext, stays, list_pending-flush_item, and_not,
}

-- what stands behind an item: an end before the engine is called, or the call with the messages and
-- the text of the exception, should there be one
pub data Lookup : Type 0 where
  ended : Finding → Lookup
  fetched : Call → Message → List Message → Text → Lookup

-- `elif self._engine.daily_cap_reached(route)`
abbrev capped_finding : Text → Result Bool → Finding
capped_finding error attribute_error = raised error
capped_finding error (ok reached) = processed false reached

unfoldable pub finding_of : Call → Text → Answer × Engine → Finding
finding_of c error (returned true, e) = processed true false
finding_of c error (returned false, e) =
    capped_finding error (daily_cap_reached c.route c.ends.day e)
finding_of c error (flood_wait, e) = raised error
finding_of c error (schedule_error, e) = raised error
finding_of c error (quota_error, e) = raised error

-- the finding for an item, and the engine with the item treated accordingly
unfoldable pub pass_item : TextTools → Item → Lookup → ℕ → Engine → Finding × Engine
pass_item t i (ended x) now e = (x, record e { queue = flush_item i x now e.queue })
pass_item t i (fetched c first rest error) now e =
    let r = process_messages t c (first ∷ rest) e in
    let x = finding_of c error r in (x, record r.1 { queue = flush_item i x now r.1.queue })

-- the loop, with the findings in its order
unfoldable pub pass_items :
    TextTools → List (Item × Lookup) → ℕ → Engine → List (Item × Finding) × Engine
unfolding pass_item
pass_items t [] now e = ([], e)
pass_items t ((i, look) ∷ items) now e =
    let (x, after) = pass_item t i look now e in
    let (trace, last) = pass_items t items now after in ((i, x) ∷ trace, last)

-- The engine is called for a post from the queue.
abbrev pub IsQueued : Lookup → Type 0
IsQueued (ended x) = Unit
IsQueued (fetched c first rest error) = c.from_queue ≡ true

-- whether a pass closed the item
abbrev pub closed_in : List (Item × Finding) → Item → Bool
closed_in trace i = any (λ p. closes p.1 && i.id == p.0.id) trace

queue-pass_item :
    (t : TextTools) (i : Item) (look : Lookup) (now : ℕ) (e : Engine)
    → IsQueued look
    → (pass_item t i look now e).1.queue ≡ flush_item i (pass_item t i look now e).0 now e.queue
unfolding pass_item
queue-pass_item t i (ended x) now e q = refl
queue-pass_item t i (fetched c first rest error) now e q =
    ap (flush_item i (finding_of c error (process_messages t c (first ∷ rest) e)) now)
      (process_messages-Keeps c first rest e q t)

-- what waits after the items of a trace
abbrev waits : List (Item × Finding) → Item → Bool
waits trace i = is_status pending i && not (closed_in trace i)

waits-cons :
    (p : Item) (x : Finding) (trace : List (Item × Finding)) (i : Item)
    → (stays (closes x) p.id i && not (closed_in trace i)) ≡ waits ((p, x) ∷ trace) i
unfolding any
waits-cons p x trace i =
    and_not (is_status pending i) (closes x && i.id == p.id) (closed_in trace i)

-- What waits after a step, seen from the queue before it.
list_pending-step :
    (p : Item) (x : Finding) (now : ℕ) (trace : List (Item × Finding))
    (queue after last : List Item)
    → IsValid queue
    → after ≡ flush_item p x now queue
    → list_pending last ≡ filter (waits trace) after
    → list_pending last ≡ filter (waits ((p, x) ∷ trace)) queue
unfolding list_pending
list_pending-step p x now trace queue after last v step h =
    h
    ∙ sym (filter-filter (is_status pending) (λ i. not (closed_in trace i)) after)
    ∙ ap (λ q. filter (λ i. not (closed_in trace i)) (list_pending q)) step
    ∙ ap (filter (λ i. not (closed_in trace i))) (list_pending-flush_item p x now queue v.ids)
    ∙ filter-filter (stays (closes x) p.id) (λ i. not (closed_in trace i)) queue
    ∙ filter-ext (λ i. stays (closes x) p.id i && not (closed_in trace i)) (waits ((p, x) ∷ trace))
        queue (waits-cons p x trace)

-- After a pass that calls the engine for posts from the queue, over a queue with unique ids and no
-- twins, exactly those publishes still wait, in their order, that waited before and that the pass
-- did not close: a publish is closed if it was delivered, its messages are missing, the daily cap is
-- reached after a refusal, or an exception was raised. The engine itself neither adds to the queue
-- nor takes from it.
pub list_pending-pass_items :
    (t : TextTools) (items : List (Item × Lookup)) (now : ℕ) (e : Engine)
    → All (λ p. IsQueued p.1) items
    → IsValid e.queue
    → let (trace, last) = pass_items t items now e in
      list_pending last.queue ≡ filter (λ i. is_status pending i && not (closed_in trace i)) e.queue
unfolding pass_items list_pending any
list_pending-pass_items t [] now e q v =
    filter-ext (is_status pending) (waits []) e.queue (λ i. ground arith)
list_pending-pass_items t ((i, look) ∷ items) now e q v =
    let (x, after) = pass_item t i look now e in
    let step = queue-pass_item t i look now e q.0 in
    let (trace, last) = pass_items t items now after in
    list_pending-step i x now trace e.queue after.queue last.queue v step (
      list_pending-pass_items t items now after q.1
        (subst IsValid (sym step) (flush_item-IsValid i x now e.queue v)))
