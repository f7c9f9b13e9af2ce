-- ===== src/Shell/Step.antt =====
-- internal/harnessshell/model.go: the initial state, and the inputs that reach the modelled handlers.
use modeltap.Prelude.{ℕ, Bool, true, false, List, [], ◌∷◌, ◌++◌, Option, none, some, if◌then◌else◌}
use modeltap.Prelude.Int.{ℤ, pos, negsuc}
use modeltap.Shell.Types.{HostEvent, interrupt_run, PermissionDecision, StatusKind}
use modeltap.Shell.State.{State, FocusZone, Textarea}
use modeltap.Shell.Input.{recall_previous_command, recall_next_command}
use modeltap.Shell.Permissions.{
  move_permission_action, move_pending_permission, resolve_active_permission,
}
use modeltap.Shell.Queue.{emit_submit_on_enter}
use modeltap.Shell.Events.{apply_host_event}

-- `New` with its text area and its tick factory.
abbrev pub new_state : {Area Cmd : Type 0} → Area → Option (Option Cmd) → State Area Cmd
new_state area tick = record {
  focus = FocusZone.input;
  input = area;
  label = "";
  status = "";
  status_kind = StatusKind.ready;
  transcript_items = [];
  queued_submissions = [];
  pending_submissions = [];
  input_tokens = [];
  selected_token = negsuc 0;
  transcript_refs = [];
  selected_transcript_ref = negsuc 0;
  command_history = [];
  history_index = negsuc 0;
  history_draft = "";
  pending_permissions = [];
  active_permission_index = pos 0;
  streaming = false;
  stream_pulse = 0;
  interrupt_armed = false;
  active_run_id = "";
  submission_counter = 0;
  preview = none;
  pending_actions = [];
  pending_cmds = [];
  run_started_at = 0;
  stream_tick = tick;
}

module _ {Area Cmd : Type 0} where
  -- Esc: close a preview, else arm an interrupt of the run, else send it. The flag says whether the
  -- key was consumed.
  unfoldable pub handle_esc : State Area Cmd → Bool × State Area Cmd
  handle_esc s = elim s.preview [
    | some _ ↦ (true, record s { preview = none; status = "Preview closed" })
    | none ↦
        if s.streaming
        then if s.interrupt_armed
          then (
            true,
            record s {
              pending_actions = s.pending_actions ++ interrupt_run s.active_run_id ∷ [];
              interrupt_armed = false;
              status = "Stopping run";
              status_kind = StatusKind.streaming;
            },
          )
          else (
            true,
            record s {
              interrupt_armed = true;
              status = "Press Esc again to interrupt";
              status_kind = StatusKind.interrupt_armed;
            },
          )
        else (false, s)
  ]

-- What drives the shell; the time is what the clock reads.
pub data ShellInput : Type 0 where
  from_host : ℕ → HostEvent → ShellInput
  enter : ℕ → ShellInput
  esc : ShellInput
  decide : PermissionDecision → ShellInput
  move_action : ℤ → ShellInput
  move_permission : ℤ → ShellInput
  recall_previous recall_next : ShellInput

module _ {Area Cmd : Type 0} (ops : Textarea Area) where
  unfoldable pub step : ShellInput → State Area Cmd → State Area Cmd
  step (from_host at e) s = apply_host_event ops at e s
  step (enter at) s = (emit_submit_on_enter ops at s).1
  step esc s = (handle_esc s).1
  step (decide d) s = resolve_active_permission d s
  step (move_action delta) s = (move_permission_action delta s).1
  step (move_permission delta) s = (move_pending_permission delta s).1
  step recall_previous s = recall_previous_command ops s
  step recall_next s = recall_next_command ops s

  unfoldable pub run : List ShellInput → State Area Cmd → State Area Cmd
  run [] s = s
  run (i ∷ is) s = run is (step i s)
