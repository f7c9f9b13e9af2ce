-- ===== src/Shell/Reach.antt =====
-- Every state that the shell reaches satisfies the invariant.
use modeltap.Prelude.{
  ℕ, ◌≡◌, refl, List, [], ◌∷◌, Option, length, length-modify, All, All-modify, arith,
}
use modeltap.Prelude.Int.{ℤ, pos, negsuc, ◌+ℤ◌, modify_at}
use modeltap.Shell.Types.{
  HostEvent, submission_accepted, submission_failed, run_started, run_delta, run_completed,
  run_stopped, run_failed, permission_requested, permission_resolved, preview_loaded, host_status,
  host_info, transcript_clear,
}
use modeltap.Shell.State.{State, PendingPermission, Textarea}
use modeltap.Shell.Input.{recall_previous_command, recall_next_command}
use modeltap.Shell.Permissions.{select_action, current_pending_permission, move_permission_action}
use modeltap.Shell.Events.{apply_host_event}
use modeltap.Shell.Step.{
  ShellInput, from_host, enter, esc, decide, move_action, move_permission, recall_previous,
  recall_next, new_state, step, run,
}
use modeltap.Shell.Invariant.{
  Inv, IsChoice, clamp_index-IsIndex, submission_accepted-Inv, submission_failed-Inv,
  run_started-Inv, run_delta-Inv, run_stopped-Inv, run_failed-Inv, host_info-Inv,
  permission_requested-Inv,
}
use modeltap.Shell.Keeps.{
  run_completed-Inv, permission_resolved-Inv, preview_loaded-Inv, host_status-Inv,
  transcript_clear-Inv, handle_esc-Inv, move_pending_permission-Inv, current-Inv, resolve-Inv,
  emit_submit-Inv,
}

modify_at-choices :
    (delta : ℤ) (ps : List PendingPermission) (i : ℤ)
    → All IsChoice ps
    → All IsChoice (modify_at ps i (select_action delta))
      × (length (modify_at ps i (select_action delta)) ≡ length ps)
modify_at-choices delta ps (negsuc i) h = (h, refl)
modify_at-choices delta ps (pos i) h = (
  All-modify IsChoice ps i (select_action delta)
      (λ p c. clamp_index-IsIndex 3 (p.selected_action +ℤ delta)) h,
  length-modify ps i (select_action delta),
)

module _ {Area Cmd : Type 0} where
  move_permission_action-Inv :
      (delta : ℤ) (s : State Area Cmd) → Inv s → Inv (move_permission_action delta s).1
  unfolding move_permission_action
  move_permission_action-Inv delta s v =
      let (p, s₁) = current_pending_permission s in
      let w = current-Inv s v in
      ground (
        arith,
        w,
        modify_at-choices delta s₁.pending_permissions s₁.active_permission_index w.choices,
      )

module _ {Area Cmd : Type 0} (ops : Textarea Area) where
  recall_previous-Inv : (s : State Area Cmd) → Inv s → Inv (recall_previous_command ops s)
  unfolding recall_previous_command
  recall_previous-Inv s v = ground arith

  recall_next-Inv : (s : State Area Cmd) → Inv s → Inv (recall_next_command ops s)
  unfolding recall_next_command
  recall_next-Inv s v = ground arith

  event-Inv :
      (at : ℕ) (e : HostEvent) (s : State Area Cmd) → Inv s → Inv (apply_host_event ops at e s)
  unfolding apply_host_event
  event-Inv at (submission_accepted sub run) s v = submission_accepted-Inv sub run s v
  event-Inv at (submission_failed sub message) s v = submission_failed-Inv sub message s v
  event-Inv at (run_started sub run label) s v = run_started-Inv at sub run label s v
  event-Inv at (run_delta run delta) s v = run_delta-Inv run delta s v
  event-Inv at (run_completed run) s v = run_completed-Inv ops at run s v
  event-Inv at (run_stopped run reason message) s v = run_stopped-Inv run reason message s v
  event-Inv at (run_failed run message) s v = run_failed-Inv run message s v
  event-Inv at (permission_requested r) s v = permission_requested-Inv r s v
  event-Inv at (permission_resolved id outcome message) s v =
      permission_resolved-Inv id outcome message s v
  event-Inv at (preview_loaded target preview) s v = preview_loaded-Inv target preview s v
  event-Inv at (host_status status kind) s v = host_status-Inv status kind s v
  event-Inv at (host_info text) s v = host_info-Inv text s v
  event-Inv at transcript_clear s v = transcript_clear-Inv s v

  step-Inv : (i : ShellInput) (s : State Area Cmd) → Inv s → Inv (step ops i s)
  unfolding step
  step-Inv (from_host at e) s v = event-Inv at e s v
  step-Inv (enter at) s v = emit_submit-Inv ops at s v
  step-Inv esc s v = handle_esc-Inv s v
  step-Inv (decide d) s v = resolve-Inv d s v
  step-Inv (move_action delta) s v = move_permission_action-Inv delta s v
  step-Inv (move_permission delta) s v = move_pending_permission-Inv delta s v
  step-Inv recall_previous s v = recall_previous-Inv s v
  step-Inv recall_next s v = recall_next-Inv s v

  run_from-Inv : (is : List ShellInput) (s : State Area Cmd) → Inv s → Inv (run ops is s)
  unfolding run
  run_from-Inv [] s v = v
  run_from-Inv (i ∷ is) s v = run_from-Inv is (step ops i s) (step-Inv i s v)

  -- After any sequence of host events, Enter, Esc, permission keys and history keys, a new shell has
  -- nothing half released, an active permission index and action choices in range, an assistant row
  -- for every user row's submission, and an armed interrupt only while a run streams.
  pub run-Inv :
      (is : List ShellInput) (area : Area) (tick : Option (Option Cmd))
      → Inv (run ops is (new_state area tick))
  run-Inv is area tick = run_from-Inv is (new_state area tick) start
    where
      start : Inv (new_state area tick)
      start = ground arith
