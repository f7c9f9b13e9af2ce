-- ===== src/Shell/Keeps.antt =====
-- The shell's invariant under the submit pipeline, the permission keys and the remaining events.
use modeltap.Prelude.{
  ℕ, suc, ◌+◌, ◌≡◌, refl, inl, inr, String, List, [], ◌∷◌, some, length, All, arith, find_first,
  Bool-cases, Option-cases,
}
use modeltap.Prelude.Int.{ℤ, ◌+ℤ◌}
use modeltap.Prelude.Text.{str_eq, trim_space, ◌<>◌, decimal}
use modeltap.Shell.Types.{
  PreviewTarget, PreviewPayload, StatusKind, queue_release, direct, InputToken, SubmissionSource,
  PermissionDecision, PermissionOutcome,
}
use modeltap.Shell.State.{State, TranscriptItem, QueuedSubmission, PendingPermission, Textarea}
use modeltap.Shell.Input.{push_history}
use modeltap.Shell.Permissions.{
  permission_decision_from_action, remove_request, move_pending_permission,
  resolve_active_permission, current_pending_permission, remove_pending_permission_by_id,
}
use modeltap.Shell.Queue.{
  merge_queued_submissions, begin_submission, release_queued_submission, dispatch_host_command,
  enter_on_empty, enqueue_submission, enqueue_on_enter, emit_submit_on_enter, clear_composer,
  user_row, assistant_row,
}
use modeltap.Shell.Events.{
  set_event_status, transcript_status_for_outcome, is_row_of_request, completed_state, modify_found,
  row_index_for_run, stop_row, apply_run_completed, apply_permission_resolved, apply_preview_loaded,
  apply_host_status, apply_transcript_clear,
}
use modeltap.Shell.Rows.{key, Paired, Paired-append_pair, Paired-modify}
use modeltap.Shell.Step.{handle_esc, run}
use modeltap.Shell.Invariant.{Inv, IsChoice, clamp_index-IsIndex}

-- A removal shortens the list by one and keeps the other choices.
remove_request-choices :
    (id : String) (ps qs : List PendingPermission)
    → remove_request id ps ≡ some qs
    → All IsChoice ps
    → All IsChoice qs × (length ps ≡ suc (length qs))
unfolding remove_request
remove_request-choices id [] qs e h = cc
remove_request-choices id (p ∷ ps) qs e h = elim (Bool-cases (str_eq p.request.id id)) [
  | inl hit ↦ ground (arith, h)
  | inr miss ↦ elim (Option-cases (remove_request id ps)) [
    | inl none_left ↦ ground arith
    | inr (rs, found) ↦ ground (arith, remove_request-choices id ps rs found h.1)
  ]
]

set_event_status-key :
    (status : String) (r : TranscriptItem) → key (set_event_status status r) ≡ key r
set_event_status-key status r = ground arith

module _ {Area Cmd : Type 0} where
  pub permission_resolved-Inv :
      (id : String) (outcome : PermissionOutcome) (message : String) (s : State Area Cmd)
      → Inv s
      → Inv (apply_permission_resolved id outcome message s)
  unfolding apply_permission_resolved remove_pending_permission_by_id
  permission_resolved-Inv id outcome message s v =
      elim (Option-cases (remove_request id s.pending_permissions)) [
        | inl e ↦ ground (arith, row)
        | inr (qs, e) ↦
            ground (arith, row, remove_request-choices id s.pending_permissions qs e v.choices)
      ]
    where
      row : Paired (
          modify_found
            (find_first (is_row_of_request id) s.transcript_items)
            (set_event_status (transcript_status_for_outcome outcome))
            s.transcript_items)
      row =
          Paired-modify s.transcript_items (find_first (is_row_of_request id) s.transcript_items)
            (set_event_status (transcript_status_for_outcome outcome))
            (set_event_status-key (transcript_status_for_outcome outcome)) v.paired

  pub preview_loaded-Inv :
      (target : PreviewTarget) (p : PreviewPayload) (s : State Area Cmd)
      → Inv s
      → Inv (apply_preview_loaded target p s)
  unfolding apply_preview_loaded
  preview_loaded-Inv target p s v = ground arith

  pub host_status-Inv :
      (status : String) (kind : StatusKind) (s : State Area Cmd)
      → Inv s
      → Inv (apply_host_status status kind s)
  unfolding apply_host_status
  host_status-Inv status kind s v = ground arith

  pub transcript_clear-Inv : (s : State Area Cmd) → Inv s → Inv (apply_transcript_clear s)
  unfolding apply_transcript_clear
  transcript_clear-Inv s v = ground arith

  pub push_history-Inv :
      (content : String) (s : State Area Cmd) → Inv s → Inv (push_history content s)
  unfolding push_history
  push_history-Inv content s v = ground arith

  pub handle_esc-Inv : (s : State Area Cmd) → Inv s → Inv (handle_esc s).1
  unfolding handle_esc
  handle_esc-Inv s v = ground arith

  pub move_pending_permission-Inv :
      (delta : ℤ) (s : State Area Cmd) → Inv s → Inv (move_pending_permission delta s).1
  unfolding move_pending_permission
  move_pending_permission-Inv delta s v = ground (
    arith,
    clamp_index-IsIndex (length s.pending_permissions) (s.active_permission_index +ℤ delta),
  )

  pub current-Inv : (s : State Area Cmd) → Inv s → Inv (current_pending_permission s).1
  unfolding current_pending_permission
  current-Inv s v =
      ground (arith, clamp_index-IsIndex (length s.pending_permissions) s.active_permission_index)

  pub resolve-Inv :
      (d : PermissionDecision) (s : State Area Cmd) → Inv s → Inv (resolve_active_permission d s)
  unfolding resolve_active_permission
  resolve-Inv d s v = ground (arith, current-Inv s v)

module _ {Area Cmd : Type 0} (ops : Textarea Area) where
  pub begin-Inv :
      (at : ℕ) (content : String) (entries : List String) (tokens : List InputToken)
      (source : SubmissionSource) (s : State Area Cmd)
      → Inv s
      → Inv (begin_submission ops at content entries tokens source s)
  unfolding begin_submission
  begin-Inv at content entries tokens source s v =
      let id = "sub-" <> decimal (s.submission_counter + 1) in
      ground (
        arith,
        Paired-append_pair s.transcript_items (user_row id content entries tokens)
            (assistant_row id) refl refl refl v.paired,
      )

  release_case :
      (at : ℕ) (s : State Area Cmd) (qs : List QueuedSubmission)
      → s.queued_submissions ≡ qs
      → Inv s
      → Inv (release_queued_submission ops at s)
  unfolding release_queued_submission
  release_case at s [] e v = ground arith
  release_case at s (q ∷ qs) e v =
      let m = merge_queued_submissions (q ∷ qs) in
      let drained = record s { pending_submissions = []; queued_submissions = [] } in
      ground (arith, begin-Inv at m.text m.entries m.tokens queue_release drained (ground arith))

  pub release-Inv : (at : ℕ) (s : State Area Cmd) → Inv s → Inv (release_queued_submission ops at s)
  release-Inv at s v = release_case at s s.queued_submissions refl v

  pub run_completed-Inv :
      (at : ℕ) (run : String) (s : State Area Cmd) → Inv s → Inv (apply_run_completed ops at run s)
  unfolding apply_run_completed
  run_completed-Inv at run s v =
      ground (arith, release-Inv at (completed_state run s) stopped, stopped)
    where
      stopped : Inv (completed_state run s)
      stopped = ground (
        arith,
        Paired-modify s.transcript_items (row_index_for_run run s.transcript_items) stop_row
            (λ r. refl) v.paired,
      )

  pub dispatch-Inv :
      (content : String) (s : State Area Cmd) → Inv s → Inv (dispatch_host_command ops content s)
  unfolding dispatch_host_command
  dispatch-Inv content s v = ground arith

  pub enter_on_empty-Inv : (at : ℕ) (s : State Area Cmd) → Inv s → Inv (enter_on_empty ops at s).1
  unfolding enter_on_empty
  enter_on_empty-Inv at s v =
      let (p, s₁) = current_pending_permission s in
      let w = current-Inv s v in
      let s₂ = record s₁ {
        status = "Releasing queued follow-up";
        status_kind = StatusKind.ready;
      } in
      elim (Option-cases p) [
        | inl e ↦ ground (arith, e, w, release-Inv at s₂ (ground (arith, w)))
        | inr (q, e) ↦
            ground (arith, e, resolve-Inv (permission_decision_from_action q.selected_action) s₁ w)
      ]

  pub enqueue_on_enter-Inv :
      (at : ℕ) (content : String) (s : State Area Cmd)
      → Inv s
      → Inv (enqueue_on_enter ops at content s)
  unfolding enqueue_on_enter enqueue_submission
  enqueue_on_enter-Inv at content s v = ground (
    arith,
    release-Inv at (clear_composer ops (enqueue_submission content s.input_tokens s))
        (ground arith),
  )

  pub emit_submit-Inv :
      (at : ℕ) (s : State Area Cmd) → Inv s → Inv (emit_submit_on_enter ops at s).1
  unfolding emit_submit_on_enter
  emit_submit-Inv at s v =
      let content = trim_space (Textarea.value ops s.input) in
      let s₁ = push_history content s in
      let w = push_history-Inv content s v in
      ground (
        arith,
        enter_on_empty-Inv at s v,
        dispatch-Inv content s₁ w,
        enqueue_on_enter-Inv at content s₁ w,
        begin-Inv at content [] s₁.input_tokens direct s₁ w,
      )
