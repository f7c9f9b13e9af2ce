-- ===== src/Runs/Types.antt =====
-- internal/storage/store.go: durable runs, their events and checkpoints, and the closed sets of words.
use modeltap.Prelude.{ℕ, String, Bool, List, [], ◌∷◌, Option}
use modeltap.Prelude.Text.{text_mem}

abbrev pub run_status_queued : String
run_status_queued = "queued"

abbrev pub run_status_running : String
run_status_running = "running"

abbrev pub run_status_waiting_permission : String
run_status_waiting_permission = "waiting_permission"

abbrev pub run_status_completed : String
run_status_completed = "completed"

abbrev pub run_status_failed : String
run_status_failed = "failed"

abbrev pub run_status_cancelled : String
run_status_cancelled = "cancelled"

-- `validRunStatuses`, `validRunStages` and `validWorkflowTypes` (runs.go).
unfoldable pub valid_run_statuses : String → Bool
valid_run_statuses s = text_mem s (
    run_status_queued ∷ run_status_running ∷ run_status_waiting_permission ∷ "waiting_user"
    ∷ "checkpointed" ∷ run_status_completed ∷ run_status_failed ∷ run_status_cancelled ∷ "" ∷ [])

unfoldable pub valid_run_stages : String → Bool
valid_run_stages s = text_mem s (
    "preflight" ∷ "context_plan" ∷ "prompt_plan" ∷ "model_call" ∷ "tool_loop" ∷ "validation"
    ∷ "artifact_capture" ∷ "checkpoint" ∷ "completion" ∷ "" ∷ [])

unfoldable pub valid_workflow_types : String → Bool
valid_workflow_types s = text_mem s (
    "exploration" ∷ "feature" ∷ "adr" ∷ "release" ∷ "implementation" ∷ "debug" ∷ "docs" ∷ "devops"
    ∷ [])

-- Times are nanoseconds, 0 is Go's zero time; a pointer is an `Option`. Left out: the total cost
-- (a float), the extension JSON, the retention class and the expiry, which are carried unread.
pub record Run : Type 0 where
  pub id : String
  pub trace_id : String
  pub idempotency_key : String
  pub user_id : String
  pub project : String
  pub session_id : String
  pub parent_run_id : Option String
  pub initiator_type : String
  pub title : String
  pub workflow_type : String
  pub status : String
  pub stage : String
  pub attachment_state : String
  pub attached_connection_id : String
  pub attachment_grace_deadline : Option ℕ
  pub summary : String
  pub last_advanced_at : ℕ
  pub model : String
  pub provider : String
  pub input_tokens : ℕ
  pub output_tokens : ℕ
  pub last_event_seq : ℕ
  pub last_checkpoint_id : String
  pub schema_version : ℕ
  pub created_at : ℕ
  pub updated_at : ℕ
  pub terminal_at : Option ℕ

pub record RunEvent : Type 0 where
  pub run_id : String
  pub seq : ℕ
  pub type : String
  pub stage : String
  pub status : String
  pub reason : String
  pub payload_json : Option String
  pub payload_schema_version : ℕ
  pub created_at : ℕ

pub record RunCheckpoint : Type 0 where
  pub id : String
  pub run_id : String
  pub seq : ℕ
  pub stage : String
  pub status : String
  pub reason : String
  pub turn_ids : List String
  pub model_call_ids : List String
  pub pending_tool_call_ids : List String
  pub summary : String
  pub payload_json : Option String
  pub schema_version : ℕ
  pub created_at : ℕ

pub record RunStateUpdate : Type 0 where
  pub status : Option String
  pub stage : Option String
  pub attachment_state : Option String
  pub attached_connection_id : Option String
  pub attachment_grace_deadline : Option ℕ
  pub summary : Option String
  pub model : Option String
  pub provider : Option String
  pub input_tokens : Option ℕ
  pub output_tokens : Option ℕ
  pub last_checkpoint_id : Option String
  pub terminal_at : Option ℕ
  pub checkpoint : Option RunCheckpoint

-- A row of run_attachments.
pub record Attachment : Type 0 where
  pub run_id : String
  pub state : String
  pub attached_connection_id : String
  pub grace_deadline : Option ℕ
  pub updated_at : ℕ

pub data StoreError : Type 0 where
  run_not_found invalid_run_status invalid_run_stage invalid_workflow_type : StoreError
  -- A uniqueness constraint of the schema is violated.
  constraint : StoreError
