-- ===== src/Host/Messages.antt =====
-- The messages that the harness sends to its program (internal/harness/messages.go), and the
-- server's notifications with the fields that the bridge reads (internal/protocol/events.go).
use modeltap.Prelude.{ℕ, String, Bool, List, Option}
use modeltap.Connection.Types.{ConnStateInfo}

-- A Go float64 is a value of the type F, with what the code does with it.
pub record Floats (F : Type 0) : Type 0 where
  pub is_positive : F → Bool
  -- `%.0f` of the value, `%.0f` of the value times 100, and `%.4f`.
  pub whole : F → String
  pub percent : F → String
  pub with_cents : F → String

pub record ToolCall : Type 0 where
  pub turn_id : String
  pub tool_call_id : String
  pub tool : String
  pub namespace : String
  pub input : String

-- A model.selected event names one model or a list; `none` where that does not decode.
pub data Selection : Type 0 where
  single : Option String → Selection
  multi : Option (List String) → Selection

pub data Phase : Type 0 where
  tool_start tool_end : Phase

-- A notification by its method. `none` stands for parameters that do not decode.
pub data Notification (F : Type 0) : Type 0 where
  token_delta : Option (String × String × String × String) → Notification F
  turn_complete : Option (String × String × ℕ × ℕ × F × String × ℕ) → Notification F
  tool_call : Option ToolCall → Notification F
  cost_update : Option F → Notification F
  model_selected : Option (Selection × String) → Notification F
  branch_started : Option (String × String × String × String) → Notification F
  branch_complete : Option (String × String × String × ℕ × ℕ) → Notification F
  branch_error : Option (String × String × String) → Notification F
  compact_suggest : Option (String × F) → Notification F
  compact_notice : Option (String × ℕ) → Notification F
  compact_plan : Notification F
  knowledge_hit : Option String → Notification F
  server_error : Option (String × String) → Notification F
  status_update : Option (String × String) → Notification F
  capabilities_request : Notification F
  connection_pong : Notification F
  unknown : String → Notification F

-- Fields in the order of the Go structs. A duration is in nanoseconds.
pub data Message (F : Type 0) : Type 0 where
  stream_token : (turn_id branch_id delta : String) → Message F
  stream_complete :
      (turn_id branch_id : String) (input output : ℕ) (cost : F) (duration : ℕ) (model : String)
      → Message F
  conn_state : ConnStateInfo → Message F
  model_update : (name : String) (override : Bool) (routing : String) → Message F
  context_update : (pct : F) (used max : ℕ) → Message F
  cost : (total : F) → Message F
  tool_call_received : ToolCall → Message F
  permission_prompt : (tool_name risk_level description input tool_call_id : String) → Message F
  branch_start : (turn_id branch_id model provider : String) → Message F
  branch_end : (turn_id branch_id model : String) (input_tokens output_tokens : ℕ) → Message F
  branch_failure : (turn_id branch_id error : String) → Message F
  status : (turn_id message : String) → Message F
  turn_submitted : (turn_id session_id : String) (err : Option String) → Message F
  tool_activity : Phase → (tool_name tool_call_id summary status : String) → Message F
