-- ===== src/Host/Dispatch.antt =====
-- internal/harnesshost/adapter.go and runtime.go: the shell's actions and the runtime's answers.
use modeltap.Prelude.{ℕ, String, List, [], ◌∷◌, Option, none, some, if◌then◌else◌}
use modeltap.Prelude.Text.{◌<>◌, str_eq, lookup, insert}
use modeltap.Shell.Types.{
  HostEvent, submission_accepted, submission_failed, run_started, run_failed, permission_resolved,
  preview_loaded, host_status, StatusKind, denied, PermissionDecision, InputToken, Submission,
  SubmissionSource, PreviewTarget, PreviewPayload, CommandInvocation, Action, submit_turn,
  interrupt_run, resolve_permission, load_preview, run_host_command,
}
use modeltap.Host.Adapter.{Attachment, Adapter, forward_event}

-- A result with an error text.
pub data Answer (A : Type 0) : Type 0 where
  ok : A → Answer A
  failed : String → Answer A

pub record SubmitRequest : Type 0 where
  pub submission_id : String
  pub text : String
  pub entries : List String
  pub attachments : List Attachment
  pub source : SubmissionSource
  pub requested_at : ℕ

pub record SubmitAccepted : Type 0 where
  pub run_id : String
  pub label : String

pub record PreviewRequest : Type 0 where
  pub token_id : String
  pub source : String
  pub path : String

-- The runtime that a host supplies, by its answers; `none` is success.
pub record Runtime : Type 0 where
  pub submit : SubmitRequest → Answer SubmitAccepted
  pub interrupt : String → Option String
  pub run_command : CommandInvocation → Option String
  pub resolve : String → PermissionDecision → Option String
  pub preview : PreviewRequest → Answer PreviewPayload

-- What a dispatched command sends back: an event, or an accepted submission.
pub data AdapterMsg : Type 0 where
  event : HostEvent → AdapterMsg
  accepted : (submission_id run_id label : String) → AdapterMsg

abbrev pub submitted : Submission → Answer SubmitAccepted → AdapterMsg
submitted sub (failed e) = event (submission_failed sub.id e)
submitted sub (ok acc) = accepted sub.id acc.run_id acc.label

abbrev pub submit_resolved : Runtime → Submission → Answer (List Attachment) → AdapterMsg
submit_resolved rt sub (failed e) = event (submission_failed sub.id e)
submit_resolved rt sub (ok atts) = submitted sub (
    Runtime.submit rt (record {
      submission_id = sub.id;
      text = sub.text;
      entries = sub.entries;
      attachments = atts;
      source = sub.source;
      requested_at = sub.requested_at;
    }))

abbrev pub path_of : Option Attachment → String
path_of none = ""
path_of (some att) = att.path

unfoldable pub dispatch_interrupt : Runtime → String → Option AdapterMsg
dispatch_interrupt rt run_id = elim (Runtime.interrupt rt run_id) [
  | none ↦ none
  | some e ↦ some (event (run_failed run_id e))
]

unfoldable pub dispatch_resolve_permission :
    Runtime → String → PermissionDecision → Option AdapterMsg
dispatch_resolve_permission rt request_id decision = elim (Runtime.resolve rt request_id decision) [
  | none ↦ none
  | some e ↦ some (event (permission_resolved request_id denied e))
]

unfoldable pub dispatch_host_command : Runtime → CommandInvocation → Option AdapterMsg
dispatch_host_command rt invocation = elim (Runtime.run_command rt invocation) [
  | none ↦ none
  | some e ↦ some (event (host_status ("Command failed: " <> e) StatusKind.error))
]

module _ {S : Type 0} where
  abbrev pub record_attachment : Attachment → Adapter S → Adapter S
  record_attachment att a = record a {
    token_attachments =
        if str_eq att.token_id ""
        then a.token_attachments
        else insert att.token_id att a.token_attachments;
  }

  -- The tokens in turn; the maps are shared, so what was recorded before an error stays.
  unfoldable pub resolve_tokens :
      (InputToken → Answer Attachment)
      → List InputToken
      → Adapter S
      → Answer (List Attachment) × Adapter S
  resolve_tokens resolver [] a = (ok [], a)
  resolve_tokens resolver (tok ∷ toks) a = elim (resolver tok) [
    | failed e ↦ (failed e, a)
    | ok att ↦
        let (rest, a') = resolve_tokens resolver toks (record_attachment att a) in
        (elim rest [ failed e ↦ failed e | ok atts ↦ ok (att ∷ atts) ], a')
  ]

  unfoldable pub dispatch_submit :
      Runtime → (InputToken → Answer Attachment) → Submission → Adapter S → AdapterMsg × Adapter S
  unfolding resolve_tokens
  dispatch_submit rt resolver sub a =
      let (atts, a') = resolve_tokens resolver sub.tokens a in (submit_resolved rt sub atts, a')

  abbrev pub preview_request : PreviewTarget → Adapter S → PreviewRequest
  preview_request target a = record {
    token_id = target.token_id;
    source = target.source;
    path = path_of (lookup target.token_id a.token_attachments);
  }

  unfoldable pub dispatch_load_preview : Runtime → PreviewTarget → Adapter S → AdapterMsg
  dispatch_load_preview rt target a = elim (Runtime.preview rt (preview_request target a)) [
    | failed e ↦ event (host_status ("Preview failed: " <> e) StatusKind.error)
    | ok payload ↦ event (preview_loaded target payload)
  ]

  unfoldable pub dispatch_action :
      Runtime
      → (InputToken → Answer Attachment)
      → Action
      → Adapter S
      → Option AdapterMsg × Adapter S
  unfolding dispatch_submit dispatch_interrupt dispatch_resolve_permission dispatch_load_preview
      dispatch_host_command
  dispatch_action rt resolver (submit_turn sub) a =
      let (m, a') = dispatch_submit rt resolver sub a in (some m, a')
  dispatch_action rt resolver (interrupt_run run_id) a = (dispatch_interrupt rt run_id, a)
  dispatch_action rt resolver (resolve_permission id decision) a =
      (dispatch_resolve_permission rt id decision, a)
  dispatch_action rt resolver (load_preview target) a =
      (some (dispatch_load_preview rt target a), a)
  dispatch_action rt resolver (run_host_command invocation) a =
      (dispatch_host_command rt invocation, a)

  -- `Update` on what a command sent back. The event in front follows in an update of its own.
  unfoldable pub update_on :
      (HostEvent → S → S) → AdapterMsg → Adapter S → Option HostEvent × Adapter S
  unfolding forward_event
  update_on update (event e) a = (none, forward_event update e a)
  update_on update (accepted submission_id run_id label) a = (
    if str_eq label "" then none else some (run_started submission_id run_id label),
    forward_event update (submission_accepted submission_id run_id) (record a {
      submission_to_run = insert submission_id run_id a.submission_to_run;
      run_to_submission = insert run_id submission_id a.run_to_submission;
      attached_run_id = run_id;
    }),
  )
