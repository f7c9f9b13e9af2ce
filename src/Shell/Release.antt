-- ===== src/Shell/Release.antt =====
-- When queued messages leave the shell.
use modeltap.Prelude.{ℕ, ◌≡◌, refl, Bool, true, false, List, [], ◌∷◌, ◌++◌, arith, String, ◌+◌}
use mathlib.Core.List.{append-nil}
use modeltap.Shell.Types.{
  Action, submit_turn, HostEvent, submission_accepted, submission_failed, run_started, run_delta,
  run_completed, run_stopped, run_failed, permission_requested, permission_resolved, preview_loaded,
  host_status, host_info, transcript_clear,
}
use modeltap.Shell.State.{State, QueuedSubmission, Textarea}
use modeltap.Shell.Events.{
  completed_state, apply_host_event, apply_submission_accepted, apply_submission_failed,
  apply_run_started, apply_run_delta, apply_run_completed, apply_run_stopped, apply_run_failed,
  apply_permission_requested, apply_permission_resolved, apply_preview_loaded, apply_host_status,
  apply_host_info,
}
use modeltap.Shell.Merge.{released, release_lem}

-- What the host is sent when the queue is released: nothing for an empty queue.
abbrev pub release_actions : ℕ → ℕ → List QueuedSubmission → List Action
release_actions at n [] = []
release_actions at n (q ∷ qs) = submit_turn (released at n (q ∷ qs)) ∷ []

-- The outbound actions and the two queue buffers.
abbrev pub Outbox :
    {Area Cmd : Type 0} → State Area Cmd → List Action → List QueuedSubmission → Type 0
Outbox s actions queue =
    (s.pending_actions ≡ actions) × (s.queued_submissions ≡ queue) × (s.pending_submissions ≡ [])

completed-Outbox :
    {Area Cmd : Type 0} (ops : Textarea Area) (at : ℕ) (run : String) (s : State Area Cmd)
    (qs : List QueuedSubmission)
    → s.pending_submissions ≡ []
    → s.queued_submissions ≡ qs
    → Outbox
        (apply_run_completed ops at run s)
        (s.pending_actions ++ release_actions at (s.submission_counter + 1) qs)
        []
unfolding apply_run_completed
completed-Outbox ops at run s [] p e = ground (arith, append-nil s.pending_actions)
completed-Outbox ops at run s (q ∷ qs) p e =
    ground (arith, release_lem ops at (completed_state run s) q qs p e)

-- While nothing is half released, a completed run sends all queued messages to the host as one
-- submission, in their order, and empties the queue; with no message queued it sends nothing.
pub run_completed-Outbox :
    {Area Cmd : Type 0} (ops : Textarea Area) (at : ℕ) (run : String) (s : State Area Cmd)
    → s.pending_submissions ≡ []
    → Outbox
        (apply_host_event ops at (run_completed run) s)
        (s.pending_actions ++ release_actions at (s.submission_counter + 1) s.queued_submissions)
        []
unfolding apply_host_event
run_completed-Outbox ops at run s p = completed-Outbox ops at run s s.queued_submissions p refl

-- The events after which queued messages may leave the queue.
abbrev pub touches_queue : HostEvent → Bool
touches_queue (run_completed _) = true
touches_queue transcript_clear = true
touches_queue _ = false

-- Every host event but a completed run and a transcript clear sends nothing to the host and leaves
-- the queue as it was: a stopped or failed run does not release it.
pub event_keeps-Outbox :
    {Area Cmd : Type 0} (ops : Textarea Area) (at : ℕ) (e : HostEvent) (s : State Area Cmd)
    → touches_queue e ≡ false
    → s.pending_submissions ≡ []
    → Outbox (apply_host_event ops at e s) s.pending_actions s.queued_submissions
unfolding apply_host_event apply_submission_accepted apply_submission_failed apply_run_started
    apply_run_delta apply_run_stopped apply_run_failed apply_permission_requested
    apply_permission_resolved apply_preview_loaded apply_host_status apply_host_info
event_keeps-Outbox ops at (submission_accepted sub run) s h p = ground arith
event_keeps-Outbox ops at (submission_failed sub message) s h p = ground arith
event_keeps-Outbox ops at (run_started sub run label) s h p = ground arith
event_keeps-Outbox ops at (run_delta run delta) s h p = ground arith
event_keeps-Outbox ops at (run_completed run) s h p = cc
event_keeps-Outbox ops at (run_stopped run reason message) s h p = ground arith
event_keeps-Outbox ops at (run_failed run message) s h p = ground arith
event_keeps-Outbox ops at (permission_requested r) s h p = ground arith
event_keeps-Outbox ops at (permission_resolved id outcome message) s h p = ground arith
event_keeps-Outbox ops at (preview_loaded target preview) s h p = ground arith
event_keeps-Outbox ops at (host_status status kind) s h p = ground arith
event_keeps-Outbox ops at (host_info text) s h p = ground arith
event_keeps-Outbox ops at transcript_clear s h p = cc
