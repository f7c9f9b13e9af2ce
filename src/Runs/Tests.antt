-- ===== src/Runs/Tests.antt =====
-- The theorems on runs, at the sample run: it is created, and an event is appended to it.
use modeltap.Prelude.{ℕ, ◌≡◌, refl, any, ap, true, false}
use modeltap.Prelude.Text.{str_eq}
use mathlib.Core.Path.{subst}
use modeltap.Runs.Store.{
  Db, ok, find_run, create_run, find_by_key, insert_run_event, or_text, get_or, has_run,
}
use modeltap.Runs.Append.{append_run_event, apply_run_state_update, save_checkpoint}
use modeltap.Runs.Types.{valid_run_statuses, valid_run_stages, valid_workflow_types}
use modeltap.Runs.Dense.{append_run_event-ok}
use modeltap.Runs.Samples.{
  empty_db, next_ids, an_event, a_checkpoint, an_update, made, started, started-HasLogs, stored_run,
}

abbrev pub blocked : ℕ × Db
unfolding append_run_event
blocked = made (0, empty_db) (append_run_event next_ids "r1" an_event an_update started.1)

-- The update brings a checkpoint with a new identifier.
append_run_event-ok_example :
    (db' : Db) × (append_run_event next_ids "r1" an_event an_update started.1 ≡ ok (2, db'))
unfolding create_run append_run_event valid_workflow_types valid_run_statuses valid_run_stages
    find_run find_by_key insert_run_event save_checkpoint apply_run_state_update
append_run_event-ok_example =
    append_run_event-ok next_ids "r1" an_event an_update started.1 (stored_run started.1 "r1")
      started-HasLogs refl refl refl
      (λ cp present.
        subst
          (λ c.
            (any (λ x. str_eq x.id (or_text c.id "cp-2")) started.1.checkpoints ≡ false)
            × (has_run (or_text c.run_id "r1") started.1.runs ≡ true))
          (ap (λ o. get_or o a_checkpoint) present) (refl, refl))
