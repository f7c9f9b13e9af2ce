-- ===== src/Shell/State.antt =====
-- internal/harnessshell/state.go: the shell-owned interaction state.
use modeltap.Prelude.{ℕ, String, Bool, List, Option, ◌≡◌}
use modeltap.Prelude.Int.{ℤ}
use modeltap.Shell.Types.{InputToken, PermissionRequest, StatusKind, Action}

pub data FocusZone : Type 0 where
  sidebar transcript input : FocusZone

pub data Role : Type 0 where
  user assistant system event host_info : Role

pub data TranscriptItemKind : Type 0 where
  message event queued host_info : TranscriptItemKind

pub record EventState : Type 0 where
  pub status : String
  pub request_id : String

-- A nil slice or map is the empty one; the modelled code does not tell them apart.
pub record TranscriptItem : Type 0 where
  pub id : String
  pub kind : TranscriptItemKind
  pub role : Role
  pub text : String
  pub tokens : List InputToken
  pub expanded : List (String × Bool)
  pub event : Option EventState
  pub streaming : Bool
  pub entries : List String
  pub submission_id : String
  pub run_id : String

pub record QueuedSubmission : Type 0 where
  pub id : String
  pub text : String
  pub tokens : List InputToken
  pub entries : List String

pub record PendingPermission : Type 0 where
  pub request : PermissionRequest
  pub transcript_id : String
  pub selected_action : ℤ

pub record TranscriptRef : Type 0 where
  pub message_index : ℤ
  pub token_index : ℤ

pub record PreviewDialog : Type 0 where
  pub title : String
  pub content : String

-- The text area (bubbles/textarea) and the commands of the event loop (tea.Cmd) are third-party
-- types, `Area` and `Cmd`. Left out: the window size, the viewport, the sidebar, the pulse's
-- rendering and the clock `now`, whose reading is an argument of what calls `nowOrDefault`.
pub record State (Area Cmd : Type 0) : Type 0 where
  pub focus : FocusZone
  pub input : Area
  pub label : String
  pub status : String
  pub status_kind : StatusKind
  pub transcript_items : List TranscriptItem
  pub queued_submissions : List QueuedSubmission
  pub pending_submissions : List QueuedSubmission
  pub input_tokens : List InputToken
  pub selected_token : ℤ
  pub transcript_refs : List TranscriptRef
  pub selected_transcript_ref : ℤ
  pub command_history : List String
  pub history_index : ℤ
  pub history_draft : String
  pub pending_permissions : List PendingPermission
  pub active_permission_index : ℤ
  pub streaming : Bool
  pub stream_pulse : ℕ
  pub interrupt_armed : Bool
  pub active_run_id : String
  pub submission_counter : ℕ
  pub preview : Option PreviewDialog
  pub pending_actions : List Action
  pub pending_cmds : List Cmd
  pub run_started_at : ℕ
  -- `none` for a nil factory, else the command that a call of it returns.
  pub stream_tick : Option (Option Cmd)

-- What the shell uses of the text area.
pub record Textarea (Area : Type 0) : Type 0 where
  pub value : Area → String
  pub set_value : String → Area → Area
  pub cursor_end : Area → Area
  pub reset : Area → Area
  pub set_height : ℕ → Area → Area

-- Its documented behaviour: `Reset` empties the value, and the cursor and the height leave it alone.
pub record IsTextarea {Area : Type 0} (t : Textarea Area) : Type 0 where
  pub value-reset : (a : Area) → Textarea.value t (Textarea.reset t a) ≡ ""
  pub value-set_height :
      (n : ℕ) (a : Area) → Textarea.value t (Textarea.set_height t n a) ≡ Textarea.value t a
