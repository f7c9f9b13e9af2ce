-- ===== src/Shell/Invariant.antt =====
-- What holds of the shell between two inputs.
use modeltap.Prelude.{
  ℕ, ◌-◌, ◌≤◌, ◌≡◌, refl, inl, inr, String, true, List, [], ◌∷◌, Option, none, some, length,
  length-append, All, All-append, arith,
}
use modeltap.Prelude.Int.{ℤ, pos, negsuc, pos_part, neg_part}
use modeltap.Prelude.{Bool-cases, find_first, modify}
use modeltap.Prelude.Text.{str_eq, ◌<>◌}
use modeltap.Shell.Rows.{Paired, Paired-append_row, Paired-modify, Paired-remove}
use modeltap.Shell.Events.{
  is_placeholder_of, assign_run_id, row_index_for_run, stop_row, plain_row, replay_row, request_row,
  asked, apply_submission_accepted, apply_submission_failed, apply_run_started, apply_run_delta,
  apply_run_stopped, apply_run_failed, apply_permission_requested, apply_host_info,
}
use modeltap.Shell.Types.{StopReason, PermissionRequest}
use modeltap.Shell.State.{State, Role, TranscriptItemKind, TranscriptItem, PendingPermission}
use modeltap.Shell.Permissions.{clamp_index}

-- An `int` that is an index into n entries, or 0 where there is none.
abbrev pub IsIndex : ℕ → ℤ → Type 0
IsIndex n i = (neg_part i ≡ 0) × (pos_part i ≤ n - 1)

abbrev pub IsChoice : PendingPermission → Type 0
IsChoice p = IsIndex 3 p.selected_action

pub clamp_index-IsIndex : (n : ℕ) (i : ℤ) → IsIndex n (clamp_index n i)
clamp_index-IsIndex n (pos k) = ground arith
clamp_index-IsIndex n (negsuc k) = (refl, omega arith)

pub record Inv {Area Cmd : Type 0} (s : State Area Cmd) : Type 0 where
  -- Nothing is half released.
  pub settled : s.pending_submissions ≡ []
  pub active : IsIndex (length s.pending_permissions) s.active_permission_index
  pub choices : All IsChoice s.pending_permissions
  -- No user row without the assistant row of its submission.
  pub paired : Paired s.transcript_items
  -- Only a streaming run can be about to be interrupted.
  pub armed : s.interrupt_armed ≡ true → s.streaming ≡ true

Paired-assign :
    (sub run : String) (items : List TranscriptItem)
    → Paired items
    → Paired (assign_run_id sub run items)
Paired-assign sub run items h = elim (Bool-cases (str_eq sub "")) [
  | inl e ↦ rw e h
  | inr e ↦ rw e (go (find_first (is_placeholder_of sub) items) refl)
]
  where
    go :
        (i : Option ℕ)
        → find_first (is_placeholder_of sub) items ≡ i
        → Paired (elim (find_first (is_placeholder_of sub) items) [
          | none ↦ items
          | some i ↦ modify items i (λ item. record item { run_id = run })
        ])
    go none e = rw e h
    go (some i) e = rw e (Paired-modify items (some i) _ (λ r. refl) h)

module _ {Area Cmd : Type 0} where
  pub submission_accepted-Inv :
      (sub run : String) (s : State Area Cmd) → Inv s → Inv (apply_submission_accepted sub run s)
  unfolding apply_submission_accepted
  submission_accepted-Inv sub run s v =
      ground (arith, Paired-assign sub run s.transcript_items v.paired)

  pub submission_failed-Inv :
      (sub message : String) (s : State Area Cmd)
      → Inv s
      → Inv (apply_submission_failed sub message s)
  unfolding apply_submission_failed
  submission_failed-Inv sub message s v =
      ground (arith, Paired-remove sub s.transcript_items v.paired)

  pub run_delta-Inv :
      (run delta : String) (s : State Area Cmd) → Inv s → Inv (apply_run_delta run delta s)
  unfolding apply_run_delta
  run_delta-Inv run delta s v = ground (
    arith,
    Paired-modify s.transcript_items (row_index_for_run run s.transcript_items)
        (λ item. record item { text = item.text <> delta; streaming = true }) (λ r. refl) v.paired,
  )

  pub run_stopped-Inv :
      (run : String) (reason : StopReason) (message : String) (s : State Area Cmd)
      → Inv s
      → Inv (apply_run_stopped run reason message s)
  unfolding apply_run_stopped
  run_stopped-Inv run reason message s v = ground (
    arith,
    Paired-modify s.transcript_items (row_index_for_run run s.transcript_items) stop_row (λ r. refl)
        v.paired,
  )

  pub run_failed-Inv :
      (run message : String) (s : State Area Cmd) → Inv s → Inv (apply_run_failed run message s)
  unfolding apply_run_failed
  run_failed-Inv run message s v = ground (
    arith,
    Paired-modify s.transcript_items (row_index_for_run run s.transcript_items) stop_row (λ r. refl)
        v.paired,
  )

  pub host_info-Inv : (text : String) (s : State Area Cmd) → Inv s → Inv (apply_host_info text s)
  unfolding apply_host_info
  host_info-Inv text s v = ground (
    arith,
    Paired-append_row s.transcript_items
        (plain_row TranscriptItemKind.host_info Role.host_info text) refl v.paired,
  )

  pub run_started-Inv :
      (at : ℕ) (sub run label : String) (s : State Area Cmd)
      → Inv s
      → Inv (apply_run_started at sub run label s)
  unfolding apply_run_started
  run_started-Inv at sub run label s v = ground (
    arith,
    Paired-assign sub run s.transcript_items v.paired,
    Paired-append_row s.transcript_items (replay_row run) refl v.paired,
  )

  pub permission_requested-Inv :
      (r : PermissionRequest) (s : State Area Cmd) → Inv s → Inv (apply_permission_requested r s)
  unfolding apply_permission_requested
  permission_requested-Inv r s v = ground (
    arith,
    Paired-append_row s.transcript_items (request_row r) refl v.paired,
    All-append IsChoice s.pending_permissions (asked r ∷ []) v.choices (omega arith),
    length-append s.pending_permissions (asked r ∷ []),
  )
