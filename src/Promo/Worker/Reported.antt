-- ===== src/Promo/Worker/Reported.antt =====
-- The report of a delivery and the job in the queue (modules/promo_spread/module.py).
use telegram_auto.Prelude.{
  ℕ, ◌≡◌, ◌+◌, Bool, true, false, not, ◌&&◌, some, List, Text, ◌==◌, nat_eq, text_eq, if◌then◌else◌,
  ltb, filter, find?,
}
use telegram_auto.Promo.Queue.{Status, pending, done, failed, Item}
use telegram_auto.Promo.Worker.{
  Config, Target, known, found, unreachable, Sending, delivered, missing, flood_wait, peer_flood,
  slow_mode, forbidden, rpc_error, unexpected, Report, reported_dry_run, reported_delivered,
  reported_failed, reported_deferred, Sender, Outcome,
}

-- the status that a report stands for
abbrev pub status_of : Report → Status
status_of reported_dry_run = done
status_of reported_delivered = done
status_of (reported_failed error) = failed
status_of (reported_deferred reason) = pending

-- what becomes of a job whose sending ends so, with the attempts made before
abbrev pub status_after : Sending → ℕ → Status
status_after delivered n = done
status_after missing n = failed
status_after (flood_wait reason) n = pending
status_after peer_flood n = pending
status_after (slow_mode reason) n = pending
status_after (forbidden name) n = failed
status_after (rpc_error name) n = if ltb (n + 1) 3 then pending else failed
status_after (unexpected error) n = if ltb (n + 1) 3 then pending else failed

abbrev pub is_reached : Target → Bool
is_reached known = true
is_reached (found group_ref) = true
is_reached (unreachable error) = false

-- what becomes of a job
abbrev pub outcome_of : Bool → ℕ → Target → Bool → Sending → Status
outcome_of dry_run n target source_known r =
    if not (is_reached target && source_known)
    then failed
    else if dry_run
    then done
    else status_after r n

abbrev pub has_id : Text → Item → Bool
has_id id j = j.id == id

-- The job has the status of the report, and the other jobs are as they were.
pub record Shows (id : Text) (before after : List Item) (report : Report) : Type 0 where
  pub item : Item
  pub in_file : find? (has_id id) after ≡ some item
  pub same_status : item.status ≡ status_of report
  pub others : filter (λ j. not (has_id id j)) after ≡ filter (λ j. not (has_id id j)) before

module _ (c : Config) (i : Item) (s : Sender)
    (there : find? (has_id i.id) s.queue.items ≡ some i) where
  abbrev Agrees : Outcome → Type 0
  Agrees o = Shows i.id s.queue.items o.state.queue.items o.report
