-- ===== src/Control/Types.antt =====
-- What the run controls take and answer (internal/protocol/runs.go, transport.go).
use modeltap.Prelude.{ℕ, String, Bool, List, Option}
use modeltap.Prelude.Int.{ℤ}
use modeltap.Runs.Types.{Run, RunEvent, RunCheckpoint, StoreError}
use modeltap.Runs.Store.{Db}

-- The connection that a request comes on.
pub record Conn : Type 0 where
  pub id : String
  pub user_id : String

pub record ActiveRun : Type 0 where
  pub id : String
  pub turn_id : String
  pub session_id : String
  pub attached_connection_id : String
  -- Whether `cancel` is not nil.
  pub has_cancel : Bool

-- `cancelled` lists the runs whose cancel function was called.
pub record Registry : Type 0 where
  pub by_run_id : List (String × ActiveRun)
  pub by_turn_id : List (String × String)
  pub cancelled : List String

-- `sent` are the events that were notified on the connection.
pub record Server : Type 0 where
  pub db : Db
  pub runs : Registry
  pub sent : List RunEvent

pub record CreateRunOptions : Type 0 where
  pub idempotency_key : String
  pub workflow_type : String
  pub title : String
  pub parent_run_id : String
  pub status : String
  pub attachment_state : String
  pub attached_connection_id : String

pub record Session : Type 0 where
  pub id : String
  pub user_id : String
  pub project : String

-- The requests, as far as their handlers read them. A JSON text that does not decode is answered
-- before any of this.
pub data Request : Type 0 where
  run_details : (run_id : String) → Request
  run_attach : (run_id : String) (last_observed_seq : ℤ) → Request
  run_detach : (run_id : String) → Request
  run_cancel : (run_id reason : String) → Request
  run_retry : (run_id : String) → Request
  run_continue : (run_id : String) → Request
  run_fork : (run_id : String) → Request
  run_events : (run_id : String) (after_seq limit : ℤ) → Request
  run_resolve_permission : (run_id request_id decision : String) → Request
  run_heartbeat :
      (run_id host_fingerprint : String) (last_observed_seq : ℤ) (stage : String) → Request

-- A value of the payloads that are marshalled.
pub data JsonValue : Type 0 where
  text : String → JsonValue
  number : ℤ → JsonValue

pub record Replay : Type 0 where
  pub events : List RunEvent
  pub replay_available : Bool
  pub fidelity : String
  pub checkpoint : Option RunCheckpoint

-- Runs and events are answered as they are stored.
pub data Answer : Type 0 where
  invalid_params : (message : String) → Answer
  session_not_found : (message : String) → Answer
  internal : (op : String) → StoreError → Answer
  details : Run → Option RunCheckpoint → List RunEvent → Answer
  attached : Run → (attachment_state : String) → Replay → Answer
  detached : (run_id attachment_state : String) → Answer
  control : (run_id : String) (accepted : Bool) (status message : String) → Answer
  forked : Run → Answer
  events_page : (latest_seq : ℕ) (has_more : Bool) → Replay → Answer
  heartbeat : (run_id status stage : String) (latest_seq : ℕ) → Answer
