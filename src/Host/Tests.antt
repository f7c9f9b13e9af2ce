-- ===== src/Host/Tests.antt =====
-- The adapter at concrete inputs.
use modeltap.Prelude.{ℕ, ◌+◌, ◌≡◌, refl, true, false, List, [], ◌∷◌, ◌++◌, some, none}
use modeltap.Prelude.Int.{pos}
use modeltap.Shell.Types.{
  HostEvent, submission_accepted, run_started, run_delta, permission_requested, permission_resolved,
  approved_once, PermissionRequest, file, Submission, direct, PreviewTarget, StatusKind,
  host_status,
}
use modeltap.Connection.Types.{ConnState}
use modeltap.Host.Messages.{Floats, branch_started, token_delta, conn_state}
use modeltap.Host.Bridge.{run_of}
use modeltap.Host.Projection.{branch_run_id, project_runtime_message}
use modeltap.Host.Adapter.{Adapter, replay, new_adapter, detached_of, forward_event, forward_events}
use modeltap.Host.Dispatch.{failed, Runtime, dispatch_submit, preview_request}
use modeltap.Host.Counts.{record_event, seen, held}
use modeltap.Host.Conserved.{forward_events-conserve}
use modeltap.Host.Previews.{default_resolver, preview-dispatch_submit}
use modeltap.Host.Branches.{receive, receive-branch_delta}

abbrev Recording : Type 0
Recording = Adapter (List HostEvent)

abbrev request : PermissionRequest
request = record {
  id = "p1";
  tool_label = "bash";
  target = "ls";
  summary = "list files";
  session_policy_state = record { session_approved = false; note = "" };
}

-- A delta before its run is known, a pause, and the end.
abbrev session : List HostEvent
session =
    run_delta "r1" "a"
    ∷ run_started "s1" "r1" "m"
    ∷ permission_requested request
    ∷ run_delta "r1" "b"
    ∷ permission_resolved "p1" approved_once ""
    ∷ run_delta "r1" "c"
    ∷ []

session_shell :
    (forward_events record_event session (new_adapter [])).shell
    ≡ run_started "s1" "r1" "m"
      ∷ run_delta "r1" "a"
      ∷ permission_requested request
      ∷ permission_resolved "p1" approved_once ""
      ∷ run_delta "r1" "b"
      ∷ run_delta "r1" "c"
      ∷ []
unfolding forward_events forward_event
session_shell = refl

-- An acceptance does not replay what came before it: the later delta overtakes the earlier one.
overtaken :
    (forward_events record_event
      (run_delta "r1" "a"
        ∷ submission_accepted "s1" "r1"
        ∷ run_delta "r1" "b"
        ∷ run_started "s1" "r1" "m"
        ∷ [])
      (new_adapter [])).shell
    ≡ submission_accepted "s1" "r1"
      ∷ run_delta "r1" "b"
      ∷ run_started "s1" "r1" "m"
      ∷ run_delta "r1" "a"
      ∷ []
unfolding forward_events forward_event
overtaken = refl

conserve_example :
    let a : Recording = forward_events record_event session (new_adapter []) in
    seen "r1" (λ t. true) session
    ≡ seen "r1" (λ t. true) a.shell
      + (held "r1" (λ t. true) a.pause_buffer
          + held "r1" (λ t. true) (detached_of "r1" a.detached_transcripts))
conserve_example = forward_events-conserve "r1" (λ t. true) session

abbrev attached_adapter : Recording
attached_adapter = record (new_adapter []) { attached_run_id = "r1" }

abbrev paused : List HostEvent
paused =
    run_delta "r1" "a"
    ∷ permission_requested request
    ∷ run_delta "r1" "b"
    ∷ permission_resolved "p1" approved_once ""
    ∷ []

abbrev offline : Runtime
offline = record {
  submit = λ r. failed "offline";
  interrupt = λ r. none;
  run_command = λ c. none;
  resolve = λ r d. none;
  preview = λ r. failed "offline";
}

abbrev picture : Submission
picture = record {
  id = "s1";
  entries = [];
  text = "see";
  tokens = record { id = "file-1"; kind = file; label = "f"; payload = "/tmp/old.png" } ∷ [];
  source = direct;
  requested_at = 0;
}

-- The composer's next token has the ID of a token that was sent before.
abbrev next_picture : PreviewTarget
next_picture = record {
  token_id = "file-1";
  source = "composer";
  message_index = pos 0;
  token_index = pos 0;
}

preview_example :
    (preview_request next_picture
      (dispatch_submit offline default_resolver picture attached_adapter).1).path
    ≡ "/tmp/old.png"
preview_example = preview-dispatch_submit offline picture next_picture attached_adapter

abbrev plain_floats : Floats ℕ
plain_floats = record {
  is_positive = λ x. true;
  whole = λ x. "0";
  percent = λ x. "0";
  with_cents = λ x. "0.0000";
}

-- A failed connection is shown as ready.
failed_kind :
    project_runtime_message plain_floats
      (λ n s. s)
      (conn_state (record { state = ConnState.failed; detail = ""; attempt = 0; max_retries = 10 }))
    ≡ some (host_status "Connection: failed" StatusKind.ready)
unfolding project_runtime_message
failed_kind = refl

branch_example :
    let started : Recording =
      receive plain_floats
        (λ n s. s)
        record_event
        true
        (branch_started (some ("t1", "b1", "opus", "anthropic")))
        (new_adapter []) in
    let after : Recording =
      receive plain_floats
        (λ n s. s)
        record_event
        true
        (token_delta (some ("t1", "r1", "b1", "hi")))
        started in
    (started.shell
      ≡ replay record_event
          (detached_of (branch_run_id "t1" "b1") [])
          (record_event (run_started "t1" (branch_run_id "t1" "b1") "opus") []))
    × (started.attached_run_id ≡ branch_run_id "t1" "b1")
    × (after.shell ≡ started.shell)
    × (detached_of (run_of "t1" "r1") after.detached_transcripts
        ≡ detached_of (run_of "t1" "r1") started.detached_transcripts
          ++ record { run_id = run_of "t1" "r1"; delta = "hi" } ∷ [])
unfolding branch_run_id
branch_example =
    receive-branch_delta plain_floats (λ n s. s) record_event true "t1" "b1" "opus" "anthropic" "r1"
      "hi" (new_adapter []) refl refl refl refl
