-- ===== src/Host/Projection.antt =====
-- internal/harnesshost/projection.go and format.go: messages become events of the shell.
use modeltap.Prelude.{ℕ, ◌==◌, ltb, String, false, ◌||◌, Option, none, some, if◌then◌else◌}
use modeltap.Prelude.Text.{◌<>◌, str_eq, decimal, byte_length}
use modeltap.Shell.Types.{
  HostEvent, StatusKind, run_delta, run_completed, submission_failed, submission_accepted,
  host_status, run_started, run_failed, permission_requested,
}
use modeltap.Connection.Types.{ConnState, ConnStateInfo}
use modeltap.Host.Messages.{
  Floats, Phase, tool_start, tool_end, Message, stream_token, stream_complete, conn_state,
  model_update, context_update, cost, tool_call_received, permission_prompt, branch_start,
  branch_end, branch_failure, status, turn_submitted, tool_activity,
}

unfoldable pub branch_run_id : String → String → String
branch_run_id turn_id branch_id =
    if str_eq branch_id "" then turn_id else turn_id <> (":" <> branch_id)

abbrev pub end_prefix : String → String
end_prefix s =
    if str_eq s "success"
    then "✓ "
    else if str_eq s "error"
    then "✗ "
    else if str_eq s "rejected"
    then "⊘ "
    else "• "

abbrev pub activity_prefix : Phase → String → String
activity_prefix tool_start s = "⚙ "
activity_prefix tool_end s = end_prefix s

unfoldable pub project_tool_activity : Phase → String → String → String → HostEvent
project_tool_activity phase tool_name summary s =
    let line = activity_prefix phase s <> tool_name in
    host_status (if str_eq summary "" then line else line <> (" — " <> summary))
      StatusKind.streaming

-- The text of a `ConnState…` constant.
abbrev pub conn_state_text : ConnState → String
conn_state_text ConnState.discovering = "discovering"
conn_state_text ConnState.starting = "starting"
conn_state_text ConnState.connecting = "connecting"
conn_state_text ConnState.authenticating = "authenticating"
conn_state_text ConnState.registering = "registering"
conn_state_text ConnState.ready = "ready"
conn_state_text ConnState.degraded = "degraded"
conn_state_text ConnState.reconnecting = "reconnecting"
conn_state_text ConnState.failed = "failed"

unfoldable pub conn_state_status : ConnStateInfo → String
conn_state_status i =
    let state = conn_state_text i.state in
    if str_eq state ""
    then "Connection state changed"
    else if str_eq i.detail ""
    then "Connection: " <> state
    else "Connection: " <> (state <> (" (" <> (i.detail <> ")")))

unfoldable pub conn_state_kind : ConnStateInfo → StatusKind
conn_state_kind i =
    let state = conn_state_text i.state in
    if str_eq state "connected"
    then StatusKind.ready
    else if str_eq state "connecting" || str_eq state "reconnecting"
    then StatusKind.streaming
    else if str_eq state "disconnected" || str_eq state "error"
    then StatusKind.error
    else StatusKind.ready

-- `byte_prefix n s` is Go's `s[:n]`.
unfoldable pub permission_target_from_input : (ℕ → String → String) → String → String
permission_target_from_input byte_prefix input =
    if ltb 80 (byte_length input) then byte_prefix 80 input <> "…" else input

module _ {F : Type 0} (fl : Floats F) (byte_prefix : ℕ → String → String) where
  unfoldable pub context_update_status : F → ℕ → ℕ → String
  context_update_status pct used max =
      if max == 0
      then "Context updated"
      else "Context: "
        <> (Floats.whole fl pct <> ("% (" <> (decimal used <> (" / " <> (decimal max <> ")")))))

  -- `none` for a message that the shell does not see.
  unfoldable pub project_runtime_message : Message F → Option HostEvent
  unfolding permission_target_from_input branch_run_id project_tool_activity conn_state_status
      conn_state_kind context_update_status
  project_runtime_message (stream_token turn branch delta) = some (run_delta turn delta)
  project_runtime_message (stream_complete turn branch input output total duration model) =
      some (run_completed turn)
  project_runtime_message (conn_state i) =
      some (host_status (conn_state_status i) (conn_state_kind i))
  project_runtime_message (model_update name override routing) =
      some (host_status ("Model: " <> name) StatusKind.ready)
  project_runtime_message (context_update pct used max) =
      some (host_status (context_update_status pct used max) StatusKind.ready)
  project_runtime_message (cost total) =
      some (host_status ("Cost: $" <> Floats.with_cents fl total) StatusKind.ready)
  project_runtime_message (tool_call_received call) = none
  project_runtime_message (permission_prompt tool risk description input call_id) = some (
      permission_requested (record {
        id = call_id;
        tool_label = tool;
        target = permission_target_from_input byte_prefix input;
        summary = description;
        session_policy_state = record { session_approved = false; note = "" };
      }))
  project_runtime_message (branch_start turn branch model provider) =
      some (run_started turn (branch_run_id turn branch) model)
  project_runtime_message (branch_end turn branch model input output) =
      some (run_completed (branch_run_id turn branch))
  project_runtime_message (branch_failure turn branch error) =
      some (run_failed (branch_run_id turn branch) error)
  project_runtime_message (status turn message) = some (host_status message StatusKind.streaming)
  project_runtime_message (turn_submitted turn session none) = some (submission_accepted turn turn)
  project_runtime_message (turn_submitted turn session (some err)) =
      some (submission_failed turn err)
  project_runtime_message (tool_activity phase tool call_id summary s) =
      some (project_tool_activity phase tool summary s)
