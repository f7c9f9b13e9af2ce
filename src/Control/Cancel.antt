-- ===== src/Control/Cancel.antt =====
-- internal/runtime/run_controls.go: a cancel of an unfinished run goes through.
use modeltap.Prelude.{ℕ, ◌+◌, ◌≡◌, refl, ap, String, true, false, none, some, any, if◌then◌else◌}
use modeltap.Prelude.Text.{str_eq}
use mathlib.Core.Path.{subst}
use modeltap.Runs.Types.{
  Run, RunEvent, RunStateUpdate, run_status_cancelled, valid_run_stages, valid_run_statuses,
}
use modeltap.Runs.Store.{Fresh, find_run, has_run, get_or, or_text}
use modeltap.Runs.Append.{updated}
use modeltap.Runs.Log.{HasLogs, append_run_event-IsAppend}
use modeltap.Runs.Dense.{append_run_event-ok, IsAppend-run}
use modeltap.Control.Types.{Server, control}
use modeltap.Control.Registry.{cancel}
use modeltap.Control.Answers.{is_terminal_run_status, no_update, event_at, checkpoint_at}
use modeltap.Control.Handlers.{store_event, handle_run_cancel}
use modeltap.Control.Ended.{HasEnded}

abbrev cancel_update : Fresh → String → Run → RunStateUpdate
cancel_update fresh reason run = record no_update {
  status = some run_status_cancelled;
  stage = some run.stage;
  terminal_at = some fresh.now;
  checkpoint = some (checkpoint_at run.stage run_status_cancelled reason "" fresh.now);
}

abbrev cancel_event : Fresh → String → Run → RunEvent
cancel_event fresh reason run =
    event_at "run.cancelled" run.stage run_status_cancelled reason none fresh.now

cancelled_status :
    (n : ℕ) (fresh : Fresh) (u : RunStateUpdate) (at : ℕ) (r : Run)
    → u.status ≡ some run_status_cancelled
    → (updated n u at r).status ≡ run_status_cancelled
cancelled_status n fresh u at r set = rw set refl

-- Cancelling an unfinished run, over dense logs and with a new checkpoint identifier, is accepted
-- and ends the run as cancelled; the registry's entry is cancelled and its answer tells which.
pub handle_run_cancel-HasEnded :
    (fresh : Fresh) (reason : String) (run : Run) (srv : Server)
    → HasLogs srv.db
    → find_run run.id srv.db.runs ≡ some run
    → is_terminal_run_status run.status ≡ false
    → valid_run_stages run.stage ≡ true
    → any (λ x. str_eq x.id fresh.checkpoint) srv.db.checkpoints ≡ false
    → ((handle_run_cancel fresh reason run srv).0
        ≡ control run.id true "cancelled"
            (if (cancel run.id srv.runs).0 then "active run cancelled" else "run marked cancelled"))
      × ((handle_run_cancel fresh reason run srv).1.runs ≡ (cancel run.id srv.runs).1)
      × HasEnded run.id "cancelled" (handle_run_cancel fresh reason run srv).1.db
unfolding handle_run_cancel store_event valid_run_statuses is_terminal_run_status
handle_run_cancel-HasEnded fresh reason run srv logs found active stage new =
    let u = cancel_update fresh reason run in
    let e = cancel_event fresh reason run in
    let (db', stored) =
      append_run_event-ok fresh run.id e u srv.db run logs found refl stage (λ cp given.
        subst
          (λ c.
            (any (λ x. str_eq x.id (or_text c.id fresh.checkpoint)) srv.db.checkpoints ≡ false)
            × (has_run (or_text c.run_id run.id) srv.db.runs ≡ true))
          (ap (λ o. get_or o (checkpoint_at run.stage run_status_cancelled reason "" fresh.now))
            given)
          (new, rw (found, has_run) refl)) in
    let a = append_run_event-IsAppend fresh run.id e u srv.db (run.last_event_seq + 1) db' stored in
    rw (active, stored, handle_run_cancel, store_event)
      (
        refl,
        refl,
        (
          updated (run.last_event_seq + 1) a.update a.at a.run,
          IsAppend-run a,
          cancelled_status (run.last_event_seq + 1) fresh a.update a.at a.run a.same_status,
          refl,
        ),
      )
