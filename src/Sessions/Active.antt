-- ===== src/Sessions/Active.antt =====
-- internal/runtime/session.go: the sessions that are active in memory, and the server's tables.
use modeltap.Prelude.{ℕ, String, Bool, not, ◌&&◌, List, Option, none, some}
use modeltap.Prelude.Text.{str_eq, lookup, erase}
use modeltap.Conversation.Types.{Float64, Turn}
use modeltap.Conversation.State.{Conversation, new_conversation}
use modeltap.Sessions.Table.{Session}

pub record ActiveSession : Type 0 where
  pub id : String
  pub user_id : String
  pub project : String
  pub conn_id : String
  pub conversation : Conversation
  pub model_override : String
  pub total_cost : Float64
  pub total_input_tokens : ℕ
  pub total_output_tokens : ℕ
  pub context_pct : Float64

pub record ServerSessionEvent : Type 0 where
  pub session_id : String
  pub type : String
  pub detail : String
  pub at : ℕ

-- The tables and the session manager's map.
pub record SessionServer : Type 0 where
  pub sessions : List Session
  pub turns : List Turn
  pub events : List ServerSessionEvent
  pub active : List (String × ActiveSession)

-- What a handler reads and writes of its connection. `releasing` tells whether the release of the
-- session's lock is scheduled.
pub record Conn : Type 0 where
  pub id : String
  pub user_id : String
  pub session_id : String
  pub project : String
  pub releasing : Bool

-- Five minutes in nanoseconds.
abbrev pub session_lock_ttl : ℕ
session_lock_ttl = 300000000000

-- `verifySessionAccess` on a session that exists.
unfoldable pub is_accessible : Conn → Session → Bool
is_accessible conn sess = not (
    not (str_eq sess.user_id "")
    && (not (str_eq conn.user_id "") && not (str_eq sess.user_id conn.user_id)))

abbrev pub new_active : String → Conn → ActiveSession
new_active session_id conn = record {
  id = session_id;
  user_id = "";
  project = conn.project;
  conn_id = conn.id;
  conversation = new_conversation session_id;
  model_override = "";
  total_cost = 0;
  total_input_tokens = 0;
  total_output_tokens = 0;
  context_pct = 0;
}

-- The entry that `EnsureActive` returns; the caller writes it back with its changes.
unfoldable pub ensure_active : String → Conn → List (String × ActiveSession) → ActiveSession
ensure_active session_id conn active = elim (lookup session_id active) [
  | none ↦ new_active session_id conn
  | some s ↦ record s { conn_id = conn.id }
]

unfoldable pub get_active_session : String → SessionServer → Option ActiveSession
get_active_session session_id sv = lookup session_id sv.active

unfoldable pub deactivate : String → SessionServer → SessionServer
deactivate session_id sv = record sv { active = erase session_id sv.active }
