-- ===== src/Control/Answers.antt =====
-- internal/runtime/run_runtime.go: checks and records that the handlers share.
use modeltap.Prelude.{
  ℕ, String, Bool, true, false, ◌&&◌, ◌||◌, List, [], ◌∷◌, ◌++◌, Option, none, some, length,
  is_empty, ltb, if◌then◌else◌,
}
use modeltap.Prelude.Int.{ℤ, pos, ◌+ℤ◌, ltb_ℤ}
use modeltap.Prelude.Text.{str_eq, ◌<>◌}
use modeltap.Runs.Types.{
  Run, RunEvent, RunCheckpoint, RunStateUpdate, run_status_completed, run_status_failed,
  run_status_cancelled, run_not_found,
}
use modeltap.Runs.Store.{Db, Result, ok, err, Fresh, find_run, get_run_by_idempotency, create_run}
use modeltap.Control.Types.{
  Conn, Server, CreateRunOptions, Session, JsonValue, text, Replay, Answer, invalid_params,
  session_not_found,
}

unfoldable pub is_terminal_run_status : String → Bool
is_terminal_run_status status =
    str_eq status run_status_completed
    || (str_eq status run_status_failed || str_eq status run_status_cancelled)

abbrev pub default_checkpoint_payload : String
default_checkpoint_payload =
    "{\"context\":{},\"artifacts\":{},\"policy\":{},\"workspace\":{},\"memory\":{},\"routing\":{}}"

-- Go's zero values of the records.
abbrev pub no_update : RunStateUpdate
no_update = record {
  status = none;
  stage = none;
  attachment_state = none;
  attached_connection_id = none;
  attachment_grace_deadline = none;
  summary = none;
  model = none;
  provider = none;
  input_tokens = none;
  output_tokens = none;
  last_checkpoint_id = none;
  terminal_at = none;
  checkpoint = none;
}

abbrev pub event_at : (type stage status reason : String) → Option String → ℕ → RunEvent
event_at type stage status reason payload now = record {
  run_id = "";
  seq = 0;
  type = type;
  stage = stage;
  status = status;
  reason = reason;
  payload_json = payload;
  payload_schema_version = 0;
  created_at = now;
}

abbrev pub checkpoint_at : (stage status reason summary : String) → ℕ → RunCheckpoint
checkpoint_at stage status reason summary now = record {
  id = "";
  run_id = "";
  seq = 0;
  stage = stage;
  status = status;
  reason = reason;
  turn_ids = [];
  model_call_ids = [];
  pending_tool_call_ids = [];
  summary = summary;
  payload_json = some default_checkpoint_payload;
  schema_version = 0;
  created_at = now;
}

-- `getAuthorizedRun`: the run, or the answer that refuses it.
pub data Access : Type 0 where
  granted : Run → Access
  refused : Answer → Access

unfoldable pub get_authorized_run : Conn → String → Db → Access
get_authorized_run conn run_id db =
    if str_eq run_id ""
    then refused (invalid_params "run_id is required")
    else elim (find_run run_id db.runs) [
      | none ↦ refused (session_not_found "run not found")
      | some run ↦
          if str_eq run.user_id conn.user_id
          then granted run
          else refused (session_not_found "run not found")
    ]

-- `ORDER BY seq DESC LIMIT 1`; of two checkpoints with one number the first row.
newer : RunCheckpoint → Option RunCheckpoint → Option RunCheckpoint
newer cp none = some cp
newer cp (some best) = if ltb cp.seq best.seq then some best else some cp

latest_of : String → List RunCheckpoint → Option RunCheckpoint
unfolding newer
latest_of run_id [] = none
latest_of run_id (cp ∷ cps) =
    if str_eq cp.run_id run_id then newer cp (latest_of run_id cps) else latest_of run_id cps

unfoldable pub get_latest_run_checkpoint : String → Db → Option RunCheckpoint
unfolding latest_of
get_latest_run_checkpoint run_id db = latest_of run_id db.checkpoints

unfoldable pub replay_available : List RunEvent → ℤ → Bool
replay_available [] after = true
replay_available (e ∷ es) after = if ltb_ℤ (after +ℤ pos 1) (pos e.seq) then false else true

unfoldable pub replay_fidelity : List RunEvent → ℤ → ℕ → String
unfolding replay_available
replay_fidelity events after latest =
    if replay_available events after
    then if is_empty events && ltb_ℤ after (pos latest) then "summary" else "full"
    else "summary"

unfoldable pub has_more : List RunEvent → ℤ → ℕ → Bool
has_more events after latest =
    if is_empty events then false else ltb_ℤ (pos (length events) +ℤ after) (pos latest)

abbrev pub replay : String → ℤ → ℕ → List RunEvent → Db → Replay
replay run_id after latest events db = record {
  events = events;
  replay_available = replay_available events after;
  fidelity = replay_fidelity events after latest;
  checkpoint = get_latest_run_checkpoint run_id db;
}

abbrev pub new_run : Fresh → String → Session → CreateRunOptions → Run
new_run fresh key sess opts = record {
  id = "run-" <> fresh.run;
  trace_id = "trace-" <> fresh.trace;
  idempotency_key = key;
  user_id = sess.user_id;
  project = sess.project;
  session_id = sess.id;
  parent_run_id = if str_eq opts.parent_run_id "" then none else some opts.parent_run_id;
  initiator_type = "user";
  title = opts.title;
  workflow_type = opts.workflow_type;
  status = opts.status;
  stage = "preflight";
  attachment_state = opts.attachment_state;
  attached_connection_id = opts.attached_connection_id;
  attachment_grace_deadline = none;
  summary = "";
  last_advanced_at = fresh.now;
  model = "";
  provider = "";
  input_tokens = 0;
  output_tokens = 0;
  last_event_seq = 0;
  last_checkpoint_id = "";
  schema_version = 0;
  created_at = fresh.now;
  updated_at = fresh.now;
  terminal_at = none;
}

abbrev pub key_of : Fresh → CreateRunOptions → String
key_of fresh opts =
    if str_eq opts.idempotency_key "" then "run:" <> fresh.key else opts.idempotency_key

abbrev pub first_checkpoint : Fresh → Run → RunCheckpoint
first_checkpoint fresh run = checkpoint_at run.stage run.status "" run.summary fresh.now

-- `marshal` is encoding/json's `Marshal` of a map with text keys.
module _ (marshal : List (String × JsonValue) → String) where
  abbrev pub first_event : Fresh → Run → RunEvent
  first_event fresh run =
      event_at "run.started" run.stage run.status ""
        (some (
          marshal
            (("trace_id", text run.trace_id) ∷ ("workflow_type", text run.workflow_type) ∷ [])))
        fresh.now

  -- A key that has a run yields that run. The first event is notified.
  unfoldable pub create_run_record :
      Fresh → Session → CreateRunOptions → Server → Result (Run × Server)
  create_run_record fresh sess opts srv =
      let run = new_run fresh (key_of fresh opts) sess opts in
      let initial = first_event fresh run in
      elim (get_run_by_idempotency sess.user_id sess.project (key_of fresh opts) srv.db) [
        | ok existing ↦ ok (existing, srv)
        | err run_not_found ↦
            elim (create_run fresh run initial (first_checkpoint fresh run) srv.db) [
              | err e ↦ err e
              | ok (child, db') ↦ ok (
                child,
                record srv {
                  db = db';
                  sent = srv.sent ++ record initial { run_id = child.id; seq = 1 } ∷ [];
                },
              )
            ]
        | err e ↦ err e
      ]
