-- ===== src/Shell/Types.antt =====
-- internal/harnessshell/types.go: the actions and host events that cross the shell's boundary.
use modeltap.Prelude.{ℕ, String, Bool, List}
use modeltap.Prelude.Int.{ℤ}

-- Texts and times (nanoseconds, 0 is Go's zero time) are carried through unread.
pub data SubmissionSource : Type 0 where
  direct queue_release : SubmissionSource

pub data TokenKind : Type 0 where
  paste file : TokenKind

pub record InputToken : Type 0 where
  pub id : String
  pub kind : TokenKind
  pub label : String
  pub payload : String

pub record Submission : Type 0 where
  pub id : String
  pub entries : List String
  pub text : String
  pub tokens : List InputToken
  pub source : SubmissionSource
  pub requested_at : ℕ

pub data PermissionDecision : Type 0 where
  approve_once approve_session deny : PermissionDecision

-- A Go string; `other` is any text but the three constants.
pub data PermissionOutcome : Type 0 where
  approved_once approved_session denied : PermissionOutcome
  other : String → PermissionOutcome

pub record SessionPolicyState : Type 0 where
  pub session_approved : Bool
  pub note : String

pub record PermissionRequest : Type 0 where
  pub id : String
  pub tool_label : String
  pub target : String
  pub summary : String
  pub session_policy_state : SessionPolicyState

pub record PreviewTarget : Type 0 where
  pub token_id : String
  pub source : String
  pub message_index : ℤ
  pub token_index : ℤ

pub record PreviewPayload : Type 0 where
  pub title : String
  pub content : String

pub record CommandInvocation : Type 0 where
  pub name : String
  pub args : String
  pub raw : String

pub data StopReason : Type 0 where
  interrupt host : StopReason

-- `unset` is the empty string, which an event may carry.
pub data StatusKind : Type 0 where
  unset ready streaming interrupt_armed permission_pending error : StatusKind

pub data Action : Type 0 where
  submit_turn : Submission → Action
  interrupt_run : String → Action
  resolve_permission : String → PermissionDecision → Action
  load_preview : PreviewTarget → Action
  run_host_command : CommandInvocation → Action

-- The fields stand in the order of the Go structs.
pub data HostEvent : Type 0 where
  submission_accepted : (submission_id run_id : String) → HostEvent
  submission_failed : (submission_id message : String) → HostEvent
  run_started : (submission_id run_id label : String) → HostEvent
  run_delta : (run_id delta : String) → HostEvent
  run_completed : (run_id : String) → HostEvent
  run_stopped : (run_id : String) → StopReason → (message : String) → HostEvent
  run_failed : (run_id message : String) → HostEvent
  permission_requested : PermissionRequest → HostEvent
  permission_resolved : (request_id : String) → PermissionOutcome → (message : String) → HostEvent
  preview_loaded : PreviewTarget → PreviewPayload → HostEvent
  host_status : (status : String) → StatusKind → HostEvent
  host_info : (text : String) → HostEvent
  transcript_clear : HostEvent
