-- ===== src/Shell/Events.antt =====
-- internal/harnessshell/events.go: how the shell takes in what the host reports.
use modeltap.Prelude.{
  ℕ, String, Bool, true, false, not, ◌&&◌, List, [], ◌∷◌, ◌++◌, Option, none, some, length, ◌-◌,
  is_empty, ◌==◌, find_first, find_last, modify, select, if◌then◌else◌,
}
use modeltap.Prelude.Int.{pos, negsuc}
use modeltap.Prelude.Text.{◌<>◌, str_eq}
use modeltap.Shell.Types.{
  PermissionRequest, PermissionOutcome, approved_once, approved_session, denied, PreviewTarget,
  PreviewPayload, StopReason, interrupt, host, StatusKind, HostEvent, submission_accepted,
  submission_failed, run_started, run_delta, run_completed, run_stopped, run_failed,
  permission_requested, permission_resolved, preview_loaded, host_status, host_info,
  transcript_clear,
}
use modeltap.Shell.State.{
  State, Role, TranscriptItem, TranscriptItemKind, PendingPermission, Textarea,
}
use modeltap.Shell.Permissions.{remove_pending_permission_by_id}
use modeltap.Shell.Queue.{has_queued_work, release_queued_submission}

abbrev pub is_assistant : Role → Bool
is_assistant Role.assistant = true
is_assistant _ = false

-- A row that belongs to no submission, run or event, with one text.
abbrev pub plain_row : TranscriptItemKind → Role → String → TranscriptItem
plain_row kind role text = record {
  id = "";
  kind = kind;
  role = role;
  text = text;
  tokens = [];
  expanded = [];
  event = none;
  streaming = false;
  entries = [];
  submission_id = "";
  run_id = "";
}

unfoldable pub transcript_status_for_outcome : PermissionOutcome → String
transcript_status_for_outcome approved_once = "granted"
transcript_status_for_outcome approved_session = "granted"
transcript_status_for_outcome denied = "denied"
transcript_status_for_outcome _ = "done"

abbrev pub is_row_of_request : String → TranscriptItem → Bool
is_row_of_request id item = elim item.event [ none ↦ false | some e ↦ str_eq e.request_id id ]

abbrev pub set_event_status : String → TranscriptItem → TranscriptItem
set_event_status status item = elim item.event [
  | none ↦ item
  | some e ↦ record item { event = some (record e { status = status }) }
]

abbrev pub is_placeholder_of : String → TranscriptItem → Bool
is_placeholder_of submission_id item =
    is_assistant item.role && str_eq item.submission_id submission_id

abbrev pub is_run_row : String → TranscriptItem → Bool
is_run_row run_id item = is_assistant item.role && str_eq item.run_id run_id && item.streaming

abbrev pub is_open_row : TranscriptItem → Bool
is_open_row item = is_assistant item.role && item.streaming

-- The streaming assistant row of a run, and else the last one that no run has claimed.
unfoldable pub row_index_for_run : String → List TranscriptItem → Option ℕ
row_index_for_run run_id items =
    if not (str_eq run_id "")
    then elim (find_first (is_run_row run_id) items) [
      | some i ↦ some i
      | none ↦ find_last (λ item. is_open_row item && str_eq item.run_id "") items
    ]
    else find_last is_open_row items

abbrev pub assign_run_id : String → String → List TranscriptItem → List TranscriptItem
assign_run_id submission_id run_id items =
    if str_eq submission_id ""
    then items
    else elim (find_first (is_placeholder_of submission_id) items) [
      | none ↦ items
      | some i ↦ modify items i (λ item. record item { run_id = run_id })
    ]

abbrev pub modify_found :
    Option ℕ → (TranscriptItem → TranscriptItem) → List TranscriptItem → List TranscriptItem
modify_found none f items = items
modify_found (some i) f items = modify items i f

abbrev pub stop_row : TranscriptItem → TranscriptItem
stop_row item = record item { streaming = false }

-- The row of a run that this shell did not submit.
abbrev pub replay_row : String → TranscriptItem
replay_row run_id = record (plain_row TranscriptItemKind.message Role.assistant "") {
  id = "run-" <> run_id;
  streaming = true;
  run_id = run_id;
}

-- The transcript row and the pending entry of a new request.
abbrev pub request_row : PermissionRequest → TranscriptItem
request_row r = record (plain_row TranscriptItemKind.event Role.event r.summary) {
  id = "perm-" <> r.id;
  event = some (record { status = "requested"; request_id = r.id });
}

abbrev pub asked : PermissionRequest → PendingPermission
asked r = record { request = r; transcript_id = "perm-" <> r.id; selected_action = pos 0 }

module _ {Area Cmd : Type 0} where
  unfoldable pub assistant_row_index_for_run : String → State Area Cmd → Option ℕ
  unfolding row_index_for_run
  assistant_row_index_for_run run_id s = row_index_for_run run_id s.transcript_items

  unfoldable pub assign_run_id_to_placeholder : String → String → State Area Cmd → State Area Cmd
  assign_run_id_to_placeholder submission_id run_id s = record s {
    transcript_items = assign_run_id submission_id run_id s.transcript_items;
  }

  unfoldable pub remove_placeholder_for_submission : String → State Area Cmd → State Area Cmd
  remove_placeholder_for_submission submission_id s =
      if str_eq submission_id "" then s else record s {
        transcript_items =
            select (λ item. not (str_eq item.submission_id submission_id)) s.transcript_items;
      }

  unfoldable pub apply_transcript_clear : State Area Cmd → State Area Cmd
  apply_transcript_clear s = record s {
    transcript_items = [];
    transcript_refs = [];
    selected_transcript_ref = negsuc 0;
    queued_submissions = [];
    pending_submissions = [];
  }

  unfoldable pub apply_preview_loaded :
      PreviewTarget → PreviewPayload → State Area Cmd → State Area Cmd
  apply_preview_loaded target preview s = record s {
    preview = some (record {
      title = if str_eq preview.title "" then target.token_id else preview.title;
      content = preview.content;
    });
    status = "Preview loaded";
  }

  unfoldable pub apply_host_status : String → StatusKind → State Area Cmd → State Area Cmd
  apply_host_status status kind s = record s {
    status = if str_eq status "" then s.status else status;
    status_kind = elim kind [ StatusKind.unset ↦ s.status_kind | k ↦ k ];
  }

  unfoldable pub apply_host_info : String → State Area Cmd → State Area Cmd
  apply_host_info text s = if str_eq text "" then s else record s {
    transcript_items =
        s.transcript_items ++ plain_row TranscriptItemKind.host_info Role.host_info text ∷ [];
  }

  unfoldable pub apply_permission_requested : PermissionRequest → State Area Cmd → State Area Cmd
  apply_permission_requested r s =
      let ps = s.pending_permissions ++ asked r ∷ [] in
      if str_eq r.id "" then s else record s {
        transcript_items = s.transcript_items ++ request_row r ∷ [];
        pending_permissions = ps;
        active_permission_index = pos (length ps - 1);
        status_kind = StatusKind.permission_pending;
        status =
            if r.session_policy_state.session_approved
            then "Permission required (session policy active)"
            else "Permission required";
      }

  -- The status after a resolution, by what is still pending.
  abbrev status_after_resolution : String → State Area Cmd → State Area Cmd
  status_after_resolution message s =
      if is_empty s.pending_permissions
      then if s.streaming
        then record s { status_kind = StatusKind.streaming; status = "Resuming run" }
        else record s {
          status_kind = StatusKind.ready;
          status = if str_eq message "" then "Permission resolved" else message;
        }
      else record s {
        status_kind = StatusKind.permission_pending;
        status = "Permission resolved; more pending";
      }

  unfoldable pub apply_permission_resolved :
      String → PermissionOutcome → String → State Area Cmd → State Area Cmd
  unfolding transcript_status_for_outcome remove_pending_permission_by_id
  apply_permission_resolved request_id outcome message s =
      let items =
        modify_found (find_first (is_row_of_request request_id) s.transcript_items)
          (set_event_status (transcript_status_for_outcome outcome)) s.transcript_items in
      let s' = record s { transcript_items = items } in
      if str_eq request_id ""
      then s
      else status_after_resolution message (remove_pending_permission_by_id request_id s').1

  unfoldable pub apply_submission_accepted : String → String → State Area Cmd → State Area Cmd
  unfolding assign_run_id_to_placeholder
  apply_submission_accepted submission_id run_id s =
      if str_eq run_id ""
      then s
      else assign_run_id_to_placeholder submission_id run_id (record s { active_run_id = run_id })

  unfoldable pub apply_submission_failed : String → String → State Area Cmd → State Area Cmd
  unfolding remove_placeholder_for_submission
  apply_submission_failed submission_id message s =
      record (remove_placeholder_for_submission submission_id s) {
        streaming = false;
        stream_pulse = 0;
        interrupt_armed = false;
        active_run_id = "";
        status_kind = StatusKind.error;
        status =
            if str_eq message "" then "Submission failed" else "Submission failed: " <> message;
      }

  -- The clock and the ticker of a run; `at` is what `nowOrDefault` reads.
  abbrev start_clock : ℕ → State Area Cmd → State Area Cmd
  start_clock at s =
      if s.run_started_at == 0
      then record s {
        run_started_at = at;
        pending_cmds = elim s.stream_tick [
          | none ↦ s.pending_cmds
          | some cmd ↦ elim cmd [ none ↦ s.pending_cmds | some c ↦ s.pending_cmds ++ c ∷ [] ]
        ];
      }
      else s

  abbrev correlate_run : String → String → State Area Cmd → State Area Cmd
  correlate_run submission_id run_id s =
      let s' = record s { active_run_id = run_id } in
      if str_eq run_id ""
      then s
      else if not (str_eq submission_id "")
      then assign_run_id_to_placeholder submission_id run_id s'
      else elim (row_index_for_run run_id s.transcript_items) [
        | some _ ↦ s'
        | none ↦ record s' { transcript_items = s'.transcript_items ++ replay_row run_id ∷ [] }
      ]

  unfoldable pub apply_run_started : ℕ → String → String → String → State Area Cmd → State Area Cmd
  unfolding assign_run_id_to_placeholder row_index_for_run
  apply_run_started at submission_id run_id label s =
      let s₁ = start_clock at s in
      let s₂ =
        correlate_run submission_id run_id
          (record s₁ { streaming = true; status_kind = StatusKind.streaming }) in
      record s₂ {
        label = if str_eq label "" then s₂.label else label;
        status = if str_eq s₂.status "" then "Streaming response" else s₂.status;
      }

  unfoldable pub apply_run_delta : String → String → State Area Cmd → State Area Cmd
  unfolding row_index_for_run
  apply_run_delta run_id delta s = if str_eq delta "" then s else record s {
    transcript_items =
        modify_found (row_index_for_run run_id s.transcript_items)
          (λ item. record item { text = item.text <> delta; streaming = true }) s.transcript_items;
  }

  -- What the three terminal run events share.
  abbrev pub end_run : String → State Area Cmd → State Area Cmd
  end_run run_id s = record s {
    transcript_items =
        modify_found (row_index_for_run run_id s.transcript_items) stop_row s.transcript_items;
    streaming = false;
    stream_pulse = 0;
    interrupt_armed = false;
    active_run_id = "";
    run_started_at = 0;
  }

  unfoldable pub apply_run_stopped : String → StopReason → String → State Area Cmd → State Area Cmd
  unfolding row_index_for_run
  apply_run_stopped run_id reason message s = record (end_run run_id s) {
    status_kind = StatusKind.ready;
    status =
        if not (str_eq message "")
        then message
        else elim reason [ interrupt ↦ "Interrupted" | host ↦ "Stopped" ];
  }

  unfoldable pub apply_run_failed : String → String → State Area Cmd → State Area Cmd
  unfolding row_index_for_run
  apply_run_failed run_id message s = record (end_run run_id s) {
    status_kind = StatusKind.error;
    status = if str_eq message "" then "Run failed" else "Run failed: " <> message;
  }

  -- A completed run, before the queue is looked at.
  abbrev pub completed_state : String → State Area Cmd → State Area Cmd
  completed_state run_id s = record (end_run run_id s) {
    status_kind = StatusKind.ready;
    status = "Done";
  }

module _ {Area Cmd : Type 0} (ops : Textarea Area) where
  unfoldable pub apply_run_completed : ℕ → String → State Area Cmd → State Area Cmd
  unfolding row_index_for_run
  apply_run_completed at run_id s =
      let s' = completed_state run_id s in
      if has_queued_work s' then release_queued_submission ops at s' else s'

  -- The dispatch of `applyHostEvent`; `at` is what the clock reads.
  unfoldable pub apply_host_event : ℕ → HostEvent → State Area Cmd → State Area Cmd
  apply_host_event at (submission_accepted sub run) s = apply_submission_accepted sub run s
  apply_host_event at (submission_failed sub message) s = apply_submission_failed sub message s
  apply_host_event at (run_started sub run label) s = apply_run_started at sub run label s
  apply_host_event at (run_delta run delta) s = apply_run_delta run delta s
  apply_host_event at (run_completed run) s = apply_run_completed at run s
  apply_host_event at (run_stopped run reason message) s = apply_run_stopped run reason message s
  apply_host_event at (run_failed run message) s = apply_run_failed run message s
  apply_host_event at (permission_requested r) s = apply_permission_requested r s
  apply_host_event at (permission_resolved id outcome message) s =
      apply_permission_resolved id outcome message s
  apply_host_event at (preview_loaded target preview) s = apply_preview_loaded target preview s
  apply_host_event at (host_status status kind) s = apply_host_status status kind s
  apply_host_event at (host_info text) s = apply_host_info text s
  apply_host_event at transcript_clear s = apply_transcript_clear s
