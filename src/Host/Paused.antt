-- ===== src/Host/Paused.antt =====
-- The order of a run's deltas across permission prompts (internal/harnesshost/adapter.go).
use modeltap.Prelude.{◌≡◌, String, true, List, [], ◌∷◌, ◌++◌, is_empty}
use modeltap.Shell.Types.{
  HostEvent, submission_accepted, run_started, run_delta, run_completed, run_stopped, run_failed,
}
use modeltap.Host.Adapter.{Delta, Adapter}

abbrev Recording : Type 0
Recording = Adapter (List HostEvent)

-- The deltas among events, in order.
abbrev pub deltas : List HostEvent → List Delta
deltas [] = []
deltas (run_delta run text ∷ es) = record { run_id = run; delta = text } ∷ deltas es
deltas (_ ∷ es) = deltas es

-- Deltas of the run, and any event but the start, the acceptance or the end of a run.
abbrev pub DuringRun : String → HostEvent → Type 0
DuringRun r (run_delta run text) = run ≡ r
DuringRun r (submission_accepted id run) = ⊥
DuringRun r (run_started id run label) = ⊥
DuringRun r (run_completed run) = ⊥
DuringRun r (run_stopped run reason message) = ⊥
DuringRun r (run_failed run message) = ⊥
DuringRun r _ = Unit

module _ (r : String) where
  pub record InOrder (given : List Delta) (a : Recording) : Type 0 where
    pub attached : a.attached_run_id ≡ r
    -- Nothing waits while no permission is pending.
    pub none_waits : is_empty a.pending_permissions ≡ true → a.pause_buffer ≡ []
    pub order : deltas a.shell ++ a.pause_buffer ≡ given
