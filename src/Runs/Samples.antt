-- ===== src/Runs/Samples.antt =====
-- Sample data for the tests: a run is created in empty tables.
use modeltap.Prelude.{refl, String, [], ◌∷◌, none, some}
use modeltap.Runs.Types.{Run, RunEvent, RunCheckpoint, RunStateUpdate}
use modeltap.Runs.Store.{
  Db, Result, ok, err, Fresh, find_run, create_run, find_by_key, insert_run_event,
}
use modeltap.Runs.Append.{append_run_event, apply_run_state_update, save_checkpoint}
use modeltap.Runs.Types.{valid_run_statuses, valid_run_stages, valid_workflow_types}
use modeltap.Runs.Log.{HasLogs}
use modeltap.Runs.Created.{create_run-HasLogs}

abbrev pub empty_db : Db
empty_db = record {
  sessions = "s1" ∷ [];
  runs = [];
  events = [];
  checkpoints = [];
  attachments = [];
}

abbrev pub first_ids : Fresh
first_ids = record { run = "r1"; trace = "t1"; checkpoint = "cp-1"; key = "k1"; now = 10 }

abbrev pub next_ids : Fresh
next_ids = record { run = "r2"; trace = "t2"; checkpoint = "cp-2"; key = "k2"; now = 20 }

abbrev pub new_run : Run
new_run = record {
  id = "r1";
  trace_id = "";
  idempotency_key = "key-1";
  user_id = "ada";
  project = "/p";
  session_id = "s1";
  parent_run_id = none;
  initiator_type = "";
  title = "first";
  workflow_type = "";
  status = "running";
  stage = "";
  attachment_state = "";
  attached_connection_id = "";
  attachment_grace_deadline = none;
  summary = "";
  last_advanced_at = 0;
  model = "";
  provider = "";
  input_tokens = 0;
  output_tokens = 0;
  last_event_seq = 0;
  last_checkpoint_id = "";
  schema_version = 0;
  created_at = 0;
  updated_at = 0;
  terminal_at = none;
}

abbrev pub an_event : RunEvent
an_event = record {
  run_id = "";
  seq = 0;
  type = "run.progress";
  stage = "model_call";
  status = "running";
  reason = "";
  payload_json = none;
  payload_schema_version = 0;
  created_at = 0;
}

abbrev pub a_checkpoint : RunCheckpoint
a_checkpoint = record {
  id = "";
  run_id = "";
  seq = 0;
  stage = "";
  status = "";
  reason = "";
  turn_ids = [];
  model_call_ids = [];
  pending_tool_call_ids = [];
  summary = "";
  payload_json = none;
  schema_version = 0;
  created_at = 0;
}

abbrev pub an_update : RunStateUpdate
an_update = record {
  status = some "waiting_permission";
  stage = some "tool_loop";
  attachment_state = none;
  attached_connection_id = some "c1";
  attachment_grace_deadline = none;
  summary = none;
  model = none;
  provider = none;
  input_tokens = none;
  output_tokens = none;
  last_checkpoint_id = none;
  terminal_at = none;
  checkpoint = some a_checkpoint;
}

abbrev pub made {ℓ} : {A : Type ℓ} → A → Result A → A
made d (ok a) = a
made d (err e) = d

abbrev pub started : Run × Db
unfolding create_run
started = made (new_run, empty_db) (create_run first_ids new_run an_event a_checkpoint empty_db)

pub empty-HasLogs : HasLogs empty_db
unfolding find_run
empty-HasLogs id = refl

pub started-HasLogs : HasLogs started.1
unfolding create_run append_run_event valid_workflow_types valid_run_statuses valid_run_stages
    find_run find_by_key insert_run_event save_checkpoint apply_run_state_update
started-HasLogs =
    create_run-HasLogs first_ids new_run an_event a_checkpoint empty_db started.0 started.1 refl
      empty-HasLogs

abbrev pub stored_run : Db → String → Run
unfolding find_run
stored_run db id = elim (find_run id db.runs) [ none ↦ new_run | some r ↦ r ]
